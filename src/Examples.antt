-- ===== src/Examples.antt =====
-- Runs of the model on concrete inputs, and each theorem at an input that meets its hypotheses.
mod Store
mod Kernel
mod Rules
mod Scope
mod Compile
mod Sqlite
mod Protocol
