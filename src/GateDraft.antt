-- ===== src/GateDraft.antt =====
-- src/vera_mmu/gate_policy_builder.py: the policy of a gate is previewed, and declared only as it was
-- previewed. The digests of the requirements and of the preview are parameters.
pub mod Applied
use vera_mmu.Common.{
  ℕ, String, Bool, true, false, ◌&&◌, ◌==◌, text_Eq, nat_eq, Option, none, some, List, [], ◌∷◌,
  Result, ok, err, length, if◌then◌else◌, pure, gets, require, lift, ◌>>=◌, ◌>>◌,
}
use vera_mmu.Common.Text.{is_plain_identifier}
use vera_mmu.Store.{Tables, Store, Method, Raised, raised, integrity_error, store_error}
use vera_mmu.Store.Rows.{GatePolicy, GateMode}
use vera_mmu.WorkGraph.{GateError}
use vera_mmu.Gates.{requirements}
use vera_mmu.Gates.Declare.{ModeName, mode_name, threshold, find_policy, declare_policy}

-- `GatePolicyBuilderError`, by its messages
pub data DraftError : Type 0 where
  invalid_gate unknown_draft_mode no_such_gate already_has_policy unconfirmed stale_draft :
      DraftError
  threshold_refused policy_refused : GateError → DraftError

pub record Draft : Type 0 where
  pub gate_id : String
  pub mode : String
  pub minimum_admissions : Option ℕ
  pub requirements_hash : String
  pub preview_hash : String

abbrev same_minimum : Option ℕ → Option ℕ → Bool
same_minimum none none = true
same_minimum (some k) (some n) = nat_eq k n
same_minimum none (some n) = false
same_minimum (some k) none = false

-- equality of the dataclass
unfoldable pub same_draft : Draft → Draft → Bool
same_draft d e =
    d.gate_id == e.gate_id
    && d.mode == e.mode
    && same_minimum d.minimum_admissions e.minimum_admissions
    && d.requirements_hash == e.requirements_hash
    && d.preview_hash == e.preview_hash

abbrev pub checked_draft :
    Draft
    → List String
    → Result GateError GateMode
    → Option GatePolicy
    → Result (Raised DraftError) Draft
checked_draft d [] m found = err (raised no_such_gate)
checked_draft d (r ∷ rs) (err e) found = err (raised (threshold_refused e))
checked_draft d (r ∷ rs) (ok m) (some p) = err (raised already_has_policy)
checked_draft d (r ∷ rs) (ok m) none = ok d

abbrev pub named_draft :
    Draft → List String → Option ModeName → Option GatePolicy → Result (Raised DraftError) Draft
named_draft d rs none found = err (raised unknown_draft_mode)
named_draft d rs (some name) found =
    checked_draft d rs (threshold name d.minimum_admissions (length rs)) found

-- `except GateError as exc`
abbrev pub as_draft :
    {A : Type 0} → Result (Raised GateError) A × Store → Result (Raised DraftError) A × Store
as_draft (ok a, s) = (ok a, s)
as_draft (err (raised e), s) = (err (raised (policy_refused e)), s)
as_draft (err integrity_error, s) = (err integrity_error, s)
as_draft (err store_error, s) = (err store_error, s)

module _ (list_digest : List String → String)
    (digest : String → String → Option ℕ → String → String) where
  abbrev pub draft_of : Tables → String → String → Option ℕ → Draft
  draft_of t gate_id mode minimum =
      let hash = list_digest (requirements t gate_id) in
      record {
        gate_id = gate_id;
        mode = mode;
        minimum_admissions = minimum;
        requirements_hash = hash;
        preview_hash = digest gate_id mode minimum hash;
      }

  -- `preview_gate_policy_draft`
  unfoldable pub preview_draft :
      Tables → String → String → Option ℕ → Result (Raised DraftError) Draft
  unfolding is_plain_identifier
  preview_draft t gate_id mode minimum =
      if is_plain_identifier gate_id
      then named_draft (draft_of t gate_id mode minimum) (requirements t gate_id) (mode_name mode)
          (find_policy t gate_id)
      else err (raised invalid_gate)

  -- `apply_gate_policy_draft`
  unfoldable pub apply_draft : Draft → Bool → String → Method DraftError GatePolicy
  unfolding preview_draft same_draft
  apply_draft d confirm now = do
    require confirm (raised unconfirmed)
    planned ← gets (λ s. preview_draft s.tables d.gate_id d.mode d.minimum_admissions)
    expected ← lift planned
    require (same_draft expected d) (raised stale_draft)
    λ s. as_draft (declare_policy d.gate_id d.mode d.minimum_admissions "DASHBOARD" now s)
