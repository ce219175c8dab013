-- ===== src/Store.antt =====
-- The SQLite store of one project (src/vera_mmu/store.py): its tables, explicit transactions that
-- compose with savepoints, and the append-only audit. One connection is modelled; what
-- `automatic_memory_sync` reports is the field `memory_sync`, where `none` is an exception.
pub mod Rows
pub mod Transaction
pub mod Audit
pub mod Frame
pub mod Preserves
pub mod Keeps
pub mod Returns
pub mod Answers
use vera_mmu.Common.{
  ℕ, String, Bool, true, false, not, ◌&&◌, ◌||◌, Option, none, some, List, [], ◌∷◌, ◌++◌, Exec,
  Result, ok, err, leb, if◌then◌else◌, is_some, raise,
}
use vera_mmu.Common.Text.{is_empty, len, sqlite_length}
use vera_mmu.Store.Rows.{
  EntityType, Entity, RelationType, Relation, WorkItem, LifecycleEvent, Dependency, Gate,
  GateRequirement, GatePolicy, Evidence, Admission, ValidationBinding, Validator, ValidationResult,
  KnowledgeProof, Supersession, Capability, CapabilityContract, CapabilityPolicy, Execution, Asset,
  Policy, StartMode, CompletionMode, AdmissionMode, ProofMode, Value, AuditEvent,
}

pub record Tables : Type 0 where
  pub work_items : List WorkItem
  pub lifecycle_events : List LifecycleEvent
  pub dependencies : List Dependency
  pub gates : List Gate
  pub gate_requirements : List GateRequirement
  pub gate_policies : List GatePolicy
  pub evidence : List Evidence
  pub admissions : List Admission
  pub bindings : List ValidationBinding
  pub validators : List Validator
  pub validation_results : List ValidationResult
  pub proofs : List KnowledgeProof
  pub supersessions : List Supersession
  pub knowledge : List String
  pub capabilities : List Capability
  pub contracts : List CapabilityContract
  pub capability_policies : List CapabilityPolicy
  pub executions : List Execution
  pub entity_types : List EntityType
  pub entities : List Entity
  pub relation_types : List RelationType
  pub relations : List Relation
  pub assets : List Asset
  pub start_policy : Option (Policy StartMode)
  pub completion_policy : Option (Policy CompletionMode)
  pub admission_policy : Option (Policy AdmissionMode)
  pub proof_policy : Option (Policy ProofMode)
  pub audit : List AuditEvent

-- `last_sync_status`
pub data SyncStatus : Type 0 where
  not_attempted : SyncStatus
  reported : String → SyncStatus
  unavailable : SyncStatus

-- `saved` holds what `BEGIN` and each `SAVEPOINT` return to, the innermost first.
pub record Store : Type 0 where
  pub project_id : String
  pub tables : Tables
  pub saved : List Tables
  pub last_sync_status : SyncStatus
  pub memory_sync : Tables → Option String

-- What a method raises: its service's own error, an `sqlite3.IntegrityError`, or a `StoreError`.
pub data Raised (E : Type 0) : Type 0 where
  raised : E → Raised E
  integrity_error : Raised E
  store_error : Raised E

-- a method of a service, and a block of statements inside a transaction
abbrev pub Method : Type 0 → Type 0 → Type 0
Method E A = Exec Store (Raised E) A

abbrev pub Rows : Type 0 → Type 0 → Type 0
Rows E A = Exec Tables (Raised E) A

abbrev pub in_transaction : Store → Bool
in_transaction s = elim s.saved [ [] ↦ false | _ ∷ _ ↦ true ]

-- `BEGIN IMMEDIATE`, or `SAVEPOINT` when a transaction is open
unfoldable pub begin : Store → Store
begin s = record s { saved = s.tables ∷ s.saved }

-- `COMMIT`, or `RELEASE SAVEPOINT`
unfoldable pub release : Store → Store
release s = elim s.saved [ [] ↦ s | _ ∷ rest ↦ record s { saved = rest } ]

-- `ROLLBACK`, or `ROLLBACK TO SAVEPOINT` and `RELEASE SAVEPOINT`
unfoldable pub rollback : Store → Store
rollback s = elim s.saved [ [] ↦ s | t ∷ rest ↦ record s { tables = t; saved = rest } ]

-- `_auto_sync_after_commit`: a failure is kept for diagnostics and undoes nothing.
unfoldable pub auto_sync_after_commit : Store → Store
auto_sync_after_commit s = record s {
  last_sync_status = elim (s.memory_sync s.tables) [ none ↦ unavailable | some r ↦ reported r ];
}

unfoldable pub finish :
    {E A : Type 0} → Bool → Result (Raised E) A × Store → Result (Raised E) A × Store
unfolding release rollback auto_sync_after_commit
finish nested (ok a, s) = (ok a, if nested then release s else auto_sync_after_commit (release s))
finish nested (err x, s) = (err x, rollback s)

-- `MemoryStore.transaction`
unfoldable pub transaction : {E A : Type 0} → Method E A → Method E A
unfolding begin finish
transaction body s = finish (in_transaction s) (body (begin s))

-- statements on the connection
abbrev pub execute : {E A : Type 0} → Rows E A → Method E A
execute m s = let (r, t) = m s.tables in (r, record s { tables = t })

-- `except sqlite3.IntegrityError as exc: raise e`
abbrev pub on_integrity_error :
    {E A : Type 0} → E → Result (Raised E) A × Store → Result (Raised E) A × Store
on_integrity_error e (err integrity_error, s) = (err (raised e), s)
on_integrity_error e (err (raised x), s) = (err (raised x), s)
on_integrity_error e (err store_error, s) = (err store_error, s)
on_integrity_error e (ok a, s) = (ok a, s)

-- `append_audit`, and the row of `_append_audit`; the services' actions are constants without a NUL
unfoldable pub append_audit : {E : Type 0} → String → String → List (String × Value) → Rows E Unit
unfolding is_empty len
append_audit now action payload t =
    if is_empty action || not (leb (len action) 128) then (err store_error, t) else (
      ok tt,
      record t {
        audit = t.audit ++ record { occurred_at = now; action = action; payload = payload } ∷ [];
      },
    )

-- The shape of every write: `try: with self.store.transaction() as connection: … except
-- sqlite3.IntegrityError as exc: raise e`.
unfoldable pub atomic : {E A : Type 0} → E → Rows E A → Method E A
unfolding transaction
atomic e m s = on_integrity_error e (transaction (execute m) s)

-- `if row is None: raise u`, after the transaction
abbrev pub read_back :
    {E A : Type 0} → E → Result (Raised E) (Option A) × Store → Result (Raised E) A × Store
read_back u (ok none, s) = (err (raised u), s)
read_back u (ok (some a), s) = (ok a, s)
read_back u (err x, s) = (err x, s)

-- A write that reads its row inside the transaction, and returns it after the commit.
unfoldable pub atomic_row : {E A : Type 0} → E → E → Rows E (Option A) → Method E A
atomic_row e u m s = read_back u (atomic e m s)

-- `connection.execute(SELECT …)` outside a transaction
abbrev pub query : {E A : Type 0} → (Tables → Result (Raised E) A) → Method E A
query f s = (f s.tables, s)

-- `CHECK (length(created_by) BETWEEN 1 AND 256)`, and of the other bounded columns
unfoldable pub has_length : ℕ → ℕ → String → Bool
unfolding sqlite_length
has_length low high s = leb low (sqlite_length s) && leb (sqlite_length s) high

-- `INSERT INTO …`: the constraints of the table hold, or the statement changes nothing.
unfoldable pub insert : {E : Type 0} → (Tables → Bool) → (Tables → Tables) → Rows E Unit
insert valid write t = if valid t then (ok tt, write t) else (err integrity_error, t)
