-- ===== src/Lib.antt =====
-- vera-mmu keeps the memory of a project in one SQLite store: work items with a lifecycle, a graph
-- of dependencies between them, evidence with its admission decisions, and gates that ask for
-- admitted evidence. The services of src/vera_mmu write through one store, each method in one
-- transaction; none of them keeps state of its own.
--
-- Store.antt models src/vera_mmu/store.py: the tables of src/vera_mmu/schema/*.sql are the fields of
--   `Tables` (rows in Store/Rows), `transaction` is `MemoryStore.transaction` with its savepoints,
--   `append_audit` the audit. A method is a function from a store to a result and a store; a block of
--   statements runs on the tables alone. `atomic` is the shape of every write: a transaction around
--   a block, whose `sqlite3.IntegrityError` becomes the service's own error; `atomic_row` returns the
--   row that the block has read, after the commit. An INSERT whose table constraints fail raises the
--   integrity error. Store/Transaction has the atomicity, Store/Keeps, Store/Returns and
--   Store/Answers the rules with which the proofs about methods are built. Store/Audit reads the
--   audit back (`audit_events`).
-- Graph.antt models the query WITH RECURSIVE that GateService.add_dependency and the supersession
--   service share, as a queue of rows with fuel: one round for each edge is enough, since UNION queues
--   a row once.
-- WorkGraph.antt models `GateService.add_dependency` and Gates.antt the rest of src/vera_mmu/gates.py:
--   `declare`, `declare_with_requirements`, `add_requirement`, `declare_policy`, `get_policy` in
--   Gates/Declare, `evaluate` in Gates. The services meet in the tables: a gate reads the decisions
--   of evidence_admission.
-- Readiness.antt models src/vera_mmu/work_readiness.py, which computes the status of a gate by
--   itself, and Lifecycle.antt src/vera_mmu/work_lifecycle.py, which asks it for the readiness that the
--   start and completion policies demand.
-- Policies.antt models work_start_policies.py, work_completion_policies.py, admission_policies.py and
--   proof_policies.py: four tables of at most one row, each an instance of the interface `PolicyTable`.
-- Chain.antt and its children model evidence.py (Chain/Record), evidence_classes.py (Chain/Classes),
--   admission.py (Chain/Decide) and proofs.py (Chain/Promote): evidence is recorded with the hash of its
--   content, a decision admits it, a promotion founds a proof on it. `Platform` holds what they take
--   of json, hashlib and hmac. Chain/Backed says what stands behind a decision and a proof.
-- Supersession.antt models supersession.py, WorkItems.antt work_items.py and Addressing.antt
--   `make_address` of addressing.py, which checks their identifiers. Addressing/Parse models
--   `parse_address`, Addressing/Unquote the `unquote` that it calls; Addressing/Utf8, Addressing/Quoted
--   and Addressing/RoundTrip prove what is read back. Blockers.antt models
--   work_blockers.py, gate_blockers.py and work_blocker_reports.py; the depth of `visit` is bounded by
--   the number of dependencies, which is enough: a call that goes deeper marks a new row.
-- Validators.antt and its children model validators.py: the rules of the three kinds of validator
--   (Validators/Rules, Validators/Assess) and the operations (Validators/Register, Validators/Validate).
-- Migrations.antt models migrations.py: the inventory of numbered files, and a ledger of those applied.
--   What a script makes of the database is the parameter `run`.
-- GateReports.antt models gate_reports.py, which reads gates, classes and admissions together.
-- GraphConfig.antt models work_graph_config.py: a preview of the transition policies and its
--   application; GraphConfig/Report is the report of the lifecycle, which GraphConfig/Shown compares
--   with the engine. The digest is a parameter.
-- GateDraft.antt models gate_policy_builder.py: a preview of the policy of a gate and its application.
--   Its two digests are parameters.
-- Parameters.antt models parameter_validation.py and runner_validator_compatibility.py: a closed subset
--   of JSON Schema; Parameters/Conforms says what it accepts. Capabilities.antt and its children model
--   capabilities.py, capability_contracts.py (Capabilities/Contracts) and capability_policies.py
--   (Capabilities/Policies).
-- Executions.antt and Executions/Evidence model executions.py: the four runners look up the contract and
--   the policy of a capability, check the parameters and record a run, and the two of
--   Executions/Evidence record a validation with it.
-- Entities.antt and Entities/Batch model entities.py, Relations.antt and Relations/Create relations.py.
--   Entities/Prepared says what the tests on a batch let through, Entities/Batches compares a batch with
--   single creations, Entities/Writes has the rules for what these services keep, Relations/Typed the
--   types of entities and relations.
-- Calls.antt composes the writes of these services: a call is a value, `perform` carries it out, and
--   `Reached` holds of the stores that a sequence of calls leaves. Calls/Views and Calls/Frames with its children say
--   which tables a call leaves alone, Calls/Founded and Calls/Sound what each group of tables keeps, and
--   Calls/Invariant puts it together. Store/Frame and Store/Preserves hold the rules for blocks that
--   write nothing of a view, or keep a property of the tables.
-- Common.antt and its children hold the shared helpers: Boolean tests and lists over native numbers,
-- the exception monad of methods and blocks, the text checks (Common/Text) and ORDER BY on text
-- (Common/Order). Examples.antt and its children run the services on small stores.
--
-- The current time is an argument (`strftime('now')`), and so is the actor. Arguments have the type
-- that the source checks with isinstance: the refusal of another type is not modelled. A threshold is
-- absent or a natural number, where the source refuses a negative one as it refuses 0. One
-- connection is modelled, so that transactions do not interleave; what `automatic_memory_sync`
-- reports is a field of the store. The length that a CHECK bounds is SQLite's, which stops at the first
-- NUL. The migration scripts are run by a parameter, on the whole database with the ledger's table; they
-- begin and end no transaction themselves. Not modelled: Python's recursion limit, which the recursion
-- of work_blockers.py meets on chains of about a thousand items; opening files, the SQLite engine,
-- adapters for coding agents, the MCP server, the command line, the desktop application, and profiles, which are I/O
-- and text.
pub mod Common
pub mod Graph
pub mod Store
pub mod WorkGraph
pub mod Gates
pub mod Readiness
pub mod Lifecycle
pub mod Policies
pub mod Addressing
pub mod Supersession
pub mod GateReports
pub mod GraphConfig
pub mod GateDraft
pub mod Parameters
pub mod Capabilities
pub mod Executions
pub mod Entities
pub mod Relations
pub mod Calls
pub mod Migrations
pub mod Validators
pub mod WorkItems
pub mod Blockers
pub mod Chain
mod Examples
