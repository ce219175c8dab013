-- ===== src/Policies.antt =====
-- The four policies that a project declares once: src/vera_mmu/work_start_policies.py,
-- work_completion_policies.py, admission_policies.py and proof_policies.py. The services differ in
-- their table, their catalogue of modes and their audit record; a table of at most one row is an
-- interface that each fills.
pub mod Once
use vera_mmu.Common.{
  String, Bool, true, false, not, ◌&&◌, ◌||◌, leb, ◌==◌, text_Eq, Option, none, some, List, [], ◌∷◌,
  ◌≡◌, refl, is_some, if◌then◌else◌, pure, gets, require, or_raise, ◌>>=◌, ◌>>◌,
}
use vera_mmu.Common.Text.{is_canonical_text, is_empty, len}
use vera_mmu.Store.{
  Tables, Store, Method, Rows, raised, atomic_row, append_audit, insert, has_length,
}
use vera_mmu.Store.Rows.{
  Policy, StartMode, open_start, require_ready, CompletionMode, open_completion,
  require_ready_for_complete, AdmissionMode, pass_evidence, validated_pass_evidence, ProofMode,
  Value, AuditEvent, text, flag,
}

pub data PolicyError : Type 0 where
  unknown_mode invalid_actor already_declared unreadable absent : PolicyError

-- a table whose key is checked to be 1, and the name of its audit record
pub record PolicyTable (M : Type 0) : Type 0 where
  pub row : Tables → Option (Policy M)
  pub put : Policy M → Tables → Tables
  pub action : String
  pub row_put : (p : Policy M) (t : Tables) → row (put p t) ≡ some p
  pub row_audit : (t : Tables) (audit : List AuditEvent) → row (record t { audit = audit }) ≡ row t
  pub action_fits : (is_empty action || not (leb (len action) 128)) ≡ false

-- `INSERT INTO …_policy(id, …) VALUES(1, …)`
unfoldable pub insert_row : {E M : Type 0} → PolicyTable M → Policy M → Rows E Unit
unfolding has_length
insert_row table p =
    insert (λ t. not (is_some (table.row t)) && has_length 1 256 p.created_by) (table.put p)

-- the block of each `declare`
unfoldable pub declare_in_rows :
    {M : Type 0}
    → PolicyTable M
    → List (String × Value)
    → M
    → String
    → String
    → Rows PolicyError (Option (Policy M))
unfolding insert_row
declare_in_rows table payload mode actor now = do
  insert_row table (record { mode = mode; created_at = now; created_by = actor })
  found ← gets table.row
  append_audit now table.action payload
  pure found

unfoldable pub declare_in :
    {M : Type 0}
    → PolicyTable M
    → List (String × Value)
    → Option M
    → String
    → String
    → Method PolicyError (Policy M)
unfolding declare_in_rows
declare_in table payload known actor now = do
  mode ← or_raise known (raised unknown_mode)
  require (is_canonical_text 256 actor) (raised invalid_actor)
  atomic_row already_declared unreadable (declare_in_rows table payload mode actor now)

unfoldable pub get_in : {M : Type 0} → PolicyTable M → Method PolicyError (Policy M)
get_in table = do found ← gets (λ s. table.row s.tables); or_raise found (raised absent)

abbrev mode_payload : String → String → List (String × Value)
mode_payload mode actor = ("mode", text mode) ∷ ("actor", text actor) ∷ []

-- work_start_policies.py
abbrev pub start_table : PolicyTable StartMode
unfolding is_empty len
start_table = record {
  row = λ t. t.start_policy;
  put = λ p t. record t { start_policy = some p };
  action = "WORK_START_POLICY_DECLARED";
  row_put = λ p t. refl;
  row_audit = λ t audit. refl;
  action_fits = refl;
}

pub start_table-put :
    (t : Tables) (p : Policy StartMode) → start_table.put p t ≡ record t { start_policy = some p }
unfolding start_table
start_table-put t p = refl

unfoldable pub start_mode : String → Option StartMode
start_mode s =
    if s == "OPEN"
    then some open_start
    else if s == "REQUIRE_READY"
    then some require_ready
    else none

unfoldable pub declare_start_policy :
    String → String → String → Method PolicyError (Policy StartMode)
unfolding declare_in start_mode
declare_start_policy mode actor now =
    declare_in start_table (mode_payload mode actor) (start_mode mode) actor now

-- work_completion_policies.py
abbrev pub completion_table : PolicyTable CompletionMode
unfolding is_empty len
completion_table = record {
  row = λ t. t.completion_policy;
  put = λ p t. record t { completion_policy = some p };
  action = "WORK_COMPLETION_POLICY_DECLARED";
  row_put = λ p t. refl;
  row_audit = λ t audit. refl;
  action_fits = refl;
}

pub completion_table-put :
    (t : Tables) (p : Policy CompletionMode)
    → completion_table.put p t ≡ record t { completion_policy = some p }
unfolding completion_table
completion_table-put t p = refl

unfoldable pub completion_mode : String → Option CompletionMode
completion_mode s =
    if s == "OPEN"
    then some open_completion
    else if s == "REQUIRE_READY_FOR_COMPLETE"
    then some require_ready_for_complete
    else none

unfoldable pub declare_completion_policy :
    String → String → String → Method PolicyError (Policy CompletionMode)
unfolding declare_in completion_mode
declare_completion_policy mode actor now =
    declare_in completion_table (mode_payload mode actor) (completion_mode mode) actor now

-- admission_policies.py
abbrev pub admission_table : PolicyTable AdmissionMode
unfolding is_empty len
admission_table = record {
  row = λ t. t.admission_policy;
  put = λ p t. record t { admission_policy = some p };
  action = "ADMISSION_POLICY_DECLARED";
  row_put = λ p t. refl;
  row_audit = λ t audit. refl;
  action_fits = refl;
}

pub admission_table-put :
    (t : Tables) (p : Policy AdmissionMode)
    → admission_table.put p t ≡ record t { admission_policy = some p }
unfolding admission_table
admission_table-put t p = refl

unfoldable pub admission_mode : String → Option AdmissionMode
admission_mode s =
    if s == "PASS_EVIDENCE"
    then some pass_evidence
    else if s == "VALIDATED_PASS_EVIDENCE"
    then some validated_pass_evidence
    else none

unfoldable pub declare_admission_policy :
    String → String → String → Method PolicyError (Policy AdmissionMode)
unfolding declare_in admission_mode
declare_admission_policy mode actor now =
    declare_in admission_table (mode_payload mode actor) (admission_mode mode) actor now

-- proof_policies.py: one algorithm, and whether a digest is required
abbrev pub proof_table : PolicyTable ProofMode
unfolding is_empty len
proof_table = record {
  row = λ t. t.proof_policy;
  put = λ p t. record t { proof_policy = some p };
  action = "PROOF_POLICY_DECLARED";
  row_put = λ p t. refl;
  row_audit = λ t audit. refl;
  action_fits = refl;
}

pub proof_table-put :
    (t : Tables) (p : Policy ProofMode) → proof_table.put p t ≡ record t { proof_policy = some p }
unfolding proof_table
proof_table-put t p = refl

unfoldable pub hmac_mode : String → Bool → Option ProofMode
hmac_mode algorithm hmac_required = if algorithm == "HMAC_SHA256" then some hmac_required else none

unfoldable pub declare_proof_policy :
    String → Bool → String → String → Method PolicyError (Policy ProofMode)
unfolding declare_in hmac_mode
declare_proof_policy algorithm hmac_required actor now =
    declare_in proof_table
      (("algorithm", text algorithm)
        ∷ ("hmac_required", flag hmac_required)
        ∷ ("actor", text actor)
        ∷ [])
      (hmac_mode algorithm hmac_required) actor now
