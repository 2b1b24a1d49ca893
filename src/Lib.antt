-- ===== src/Lib.antt =====
-- xgoal's decision core: the state machines, the in-memory store, the completion rule, the kernel
-- that runs one work item from its packet to its outcome, and the rules on policy, on failures and
-- on write scopes.
--
-- How the parts interact. internal/domain defines the states of every record and which moves between
-- them are allowed. internal/store/memory.go keeps the records: each method checks the record, its
-- expected version and the move, then writes the record with its version raised and appends one
-- event, or two for a claim. internal/kernel/kernel.go calls the store, an agent adapter and a
-- validator in a fixed order; it asks internal/completion/completion.go at the end, and on any refusal
-- of the agent's claim or of the evidence it fails the attempt and sends the work item to
-- reconciliation. internal/protocol checks the packet, the claim and the evidence.
-- internal/policy/policy.go answers what a role may do, internal/reconcile/reconcile.go what
-- follows a failure.
--
-- Files, and the code that each models:
--   Prelude             shared helpers: equality tests, lists, association lists (Prelude/Dict), 64-bit
--                       words (Prelude/Word) and programs with errors (Prelude/Exec)
--   Domain/Transitions  the type transitions of internal/domain/state.go with its methods `allows` and
--                       `validate` and the function `set`
--   Domain/Goal, Plan, Work, Attempt, Lease, Gate, Effect, Finding
--                       one state type of internal/domain/state.go each: its table (goalTransitions
--                       is `goal_transitions`), CanTransition, Valid and the validator
--   Domain/Role, Authority, Evidence, Policy
--                       the texts that have only a Valid method
--   Domain/Model        the records of internal/domain/model.go
--   Domain/Machines, Histories
--                       what the tables allow, step by step and over a whole attempt
--   Store/Memory, Store/Claims
--                       the methods of internal/store/memory.go; CreateGoal is `create_goal`
--   Store/Ops           a call of a mutating method as a value, and runs of calls
--   Store/Step, Refinement
--                       one rule for each write, as the induction over runs uses it
--   Store/Abstract      the store as lookup functions: when a call is accepted, and its effect; the
--                       children compare the methods with it
--   Store/Consistency, Track, Progress, Visits, Leases, Versions, Events, Guarantees
--                       what holds over runs of calls
--   Completion          Evaluate of internal/completion/completion.go; Completion/Correct its contract
--   Protocol            AgentResult and Evidence of internal/protocol/protocol.go; Protocol/Text what
--                       they use of the package strings
--   Protocol/Packet, Harness
--                       WorkPacket and its checks, and internal/protocol/harness.go;
--                       Protocol/Packet/Accepted what an accepted packet has
--   Protocol/Labels     the small checks of internal/protocol/m2.go on texts, paths and times
--   Protocol/Patch, Receipt
--                       the patch bundle, the command receipt and the environment snapshot of
--                       internal/protocol/m2.go; Patch/Sealed is on Seal and Validate, Receipt/Names on
--                       the names of a snapshot
--   Protocol/Review     internal/protocol/review.go; Review/Distinct is on valid results
--   Scope/Names         NormalizeRepositoryPath of internal/scope/scope.go
--   Scope/Matching      its matchSegments with the two maps as `Tables`; Scope/Matching/Fits says when
--                       a path fits a pattern, Remember and Correct compare the search with its plain recursion
--   Scope/Rules         its NewPolicy, compilePattern, matchesAny and the loop of CheckWrite;
--                       Scope/Rules/Decides what that loop lets through
--   Kernel/Interface    the store that the kernel is given, its specification and what else it calls
--   Kernel, Kernel/Records, Trusted, Transitions
--                       RunSimulation of internal/kernel/kernel.go: `check_spec`, `set_up`,
--                       `start_agent`, `collect`, `validate`, `promote` and `conclude` are its parts in
--                       order, each continuing with the next
--   Kernel/Safety, Indexing
--                       on completed outcomes, and on reads of the first list element
--   Policy, Policy/Scope, Policy/Paths
--                       Evaluate and ScopeContains of internal/policy/policy.go, and the path functions
--                       of the standard library that they use
--   Policy/Containment, Grants
--                       what they answer
--   Reconcile           internal/reconcile/reconcile.go: Failure.Validate, MaterialProgress and Decide;
--                       Reconcile/Table what the table answers
--   Compile             internal/goalcompile: Compile/Texts and Proposal have the records, the small checks,
--                       validationplan.ValidateGenerated, Contract.Validate and the normal forms
--   Compile/Graph       `cyclic` and `reachable` of internal/goalcompile/compile.go, each on fuel one more
--                       than the number of keys; Graph/Paths, Cycles and Reachable say what they find
--   Compile/Overlap     its scopesMayOverlap; Overlap/Disjoint compares it with the patterns of Scope
--   Compile/WorkGraph   its compilePlan; WorkGraph/Sound is on accepted plans
--   Compile/Coverage, Generated
--                       internal/goalcompile/coverage.go and generated.go, with Coverage/Complete and
--                       Generated/Allowed on their results
--   Compile/Compiler    Compile itself; Compiler/Sound joins its parts' theorems
--   Sqlite/Tables       the tables of internal/store/sqlite that leases and scheduler use, with its row
--                       readers, prepareEvent and appendEvent
--   Sqlite/Leases       internal/store/sqlite/lease_lifecycle.go; Leases/Held and Expiry on its results
--   Sqlite/Scheduler    internal/store/sqlite/scheduler.go, and ensureWorkCanBecomeReady of
--                       plan_repository.go, which Scheduler/Agree compares with it
--   Sqlite/Calls        runs of these methods; Calls/Fencing on leases that are over
--   Sqlite/Effects      internal/store/sqlite/effect.go; Effects/Journal has lemmas on its rows, and
--                       Effects/Once is on repeated requests
--   Examples            tests, and the theorems at concrete inputs
--
-- State, numbers and parameters. A Go struct is a record, a string type with constants a data type
-- with a constructor for each constant and `unknown` for any other text, a map an association list
-- in which a write replaces, an error a value of an error type. An int64 is its bit pattern below 2
-- ^ 64, `Version++` wraps, and a positive number is one whose pattern is between 1 and 2 ^ 63 - 1.
-- Every method of the store holds the store's lock, so calls happen one after the other, and the
-- run of a list of calls is any interleaving. All loops of the source go over finite slices and are
-- structural recursions, and matchSegments recurses on the rests of its two slices. The two graph
-- searches of the goal compiler alone have fuel: each step into a key takes one and adds the key to
-- the marks, of which there are at most as many as keys. The clock gives its n-th answer by a function on n. The kernel's adapter, validator,
-- clock and schema file are parameters, and so are the check of an embedded contract, the canonical
-- hash, the normal form NFC and path.Match; nothing is assumed of them. An adapter that returns an
-- error and a result has both in the model. In the durable store a query is a function on the rows of
-- its tables, a map by primary key or a list; a transaction that fails leaves the tables, and errors of
-- the database itself do not occur. SQLite's julianday, canonical.Marshal and
-- canonicalValue are parameters.
--
-- Not modelled: the other tables of the SQLite store, the orchestrator, the planner's agent calls and everything that runs processes,
-- Git, files, HTTP or the terminal; the text of error messages and of the reasons that a fixed branch
-- gives; canonical hashes and regular expressions.

pub mod Prelude
pub mod Domain
pub mod Store
pub mod Completion
pub mod Protocol
pub mod Kernel
pub mod Policy
pub mod Reconcile
pub mod Scope
pub mod Compile
pub mod Sqlite
mod Examples
