-- ===== src/Compile.antt =====
-- internal/goalcompile: the compilation of a planner's proposal into a work graph.
pub mod Graph
pub mod Overlap
pub mod Texts
pub mod Proposal
pub mod WorkGraph
pub mod Coverage
pub mod Generated
pub mod Compiler
