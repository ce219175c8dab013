-- ===== src/GateDraft/Applied.antt =====
-- A drafted policy is applied to the gate it was previewed on.
use vera_mmu.Common.{
  ℕ, arith, String, Bool, Bool-cases, inl, inr, true, false, not, ◌||◌, ◌==◌, text_Eq, Option, none,
  some, List, [], ◌∷◌, ◌≡◌, refl, is_some, Result, ok, err, if◌then◌else◌, ◌>>=◌,
}
use vera_mmu.Common.Text.{is_plain_identifier}
use vera_mmu.Store.{Tables, Store, Raised, raised}
use vera_mmu.Store.Rows.{GatePolicy, GateMode}
use vera_mmu.WorkGraph.{GateError}
use vera_mmu.Gates.{requirements}
use vera_mmu.Gates.Declare.{ModeName, find_policy, mode_name}
use vera_mmu.GateDraft.{
  Draft, DraftError, unconfirmed, stale_draft, same_draft, checked_draft, named_draft, draft_of,
  preview_draft, apply_draft,
}

-- how a preview ends
pub data Ends (d : Draft) (found : Option GatePolicy) (r : Result (Raised DraftError) Draft)
    : Type 0 where
  refuses : (e : DraftError) → r ≡ err (raised e) → Ends d found r
  accepts : r ≡ ok d → found ≡ none → Ends d found r

checked_draft-Ends :
    (d : Draft) (rs : List String) (m : Result GateError GateMode) (found : Option GatePolicy)
    → Ends d found (checked_draft d rs m found)
checked_draft-Ends d [] m found = refuses _ refl
checked_draft-Ends d (r ∷ rs) (err e) found = refuses _ refl
checked_draft-Ends d (r ∷ rs) (ok m) (some p) = refuses _ refl
checked_draft-Ends d (r ∷ rs) (ok m) none = accepts refl refl

named_draft-Ends :
    (d : Draft) (rs : List String) (name : Option ModeName) (found : Option GatePolicy)
    → Ends d found (named_draft d rs name found)
named_draft-Ends d rs none found = refuses _ refl
named_draft-Ends d rs (some name) found = checked_draft-Ends d rs _ found

if-Ends :
    (b : Bool) (d : Draft) (found : Option GatePolicy) (r : Result (Raised DraftError) Draft)
    (e : DraftError)
    → Ends d found r
    → Ends d found (if b then r else err (raised e))
if-Ends true d found r e h = h
if-Ends false d found r e h = refuses e refl

module _ (list_digest : List String → String)
    (digest : String → String → Option ℕ → String → String) where
  preview_draft-Ends :
      (t : Tables) (g mode : String) (minimum : Option ℕ)
      → Ends
          (draft_of list_digest digest t g mode minimum)
          (find_policy t g)
          (preview_draft list_digest digest t g mode minimum)
  unfolding preview_draft
  preview_draft-Ends t g mode minimum =
      if-Ends (is_plain_identifier g) _ _ _ _ (named_draft-Ends _ _ (mode_name mode) _)

  same_draft-hash :
      (d e : Draft) → same_draft d e ≡ true → (d.requirements_hash == e.requirements_hash) ≡ true
  unfolding same_draft
  same_draft-hash d e h = ground (arith, h)

  outdated-same :
      (d : Draft) (s : Store)
      → find_policy s.tables d.gate_id ≡ none
      → (is_some (find_policy s.tables d.gate_id)
          || not (list_digest (requirements s.tables d.gate_id) == d.requirements_hash))
        ≡ true
      → same_draft (draft_of list_digest digest s.tables d.gate_id d.mode d.minimum_admissions) d
        ≡ false
  outdated-same d s free h =
      let e = draft_of list_digest digest s.tables d.gate_id d.mode d.minimum_admissions in
      elim (Bool-cases (same_draft e d)) [
        | inl same ↦ let hash = same_draft-hash e d same in ground (arith, free, h, hash)
        | inr differs ↦ differs
      ]

  -- A draft is applied to the gate it was previewed on or not at all: where the gate has a policy by
  -- now, or its requirements have another digest than the draft says, the application raises and the
  -- store is as it was.
  pub outdated_draft :
      (d : Draft) (confirm : Bool) (now : String) (s : Store)
      → (is_some (find_policy s.tables d.gate_id)
          || not (list_digest (requirements s.tables d.gate_id) == d.requirements_hash))
        ≡ true
      → (e : DraftError) × (apply_draft list_digest digest d confirm now s ≡ (err (raised e), s))
  unfolding apply_draft ◌>>=◌
  outdated_draft d false now s h = (unconfirmed, refl)
  outdated_draft d true now s h =
      elim (preview_draft-Ends s.tables d.gate_id d.mode d.minimum_admissions) [
        | refuses e refused ↦ (e, rw refused refl)
        | accepts accepted free ↦ (stale_draft, rw (accepted, outdated-same d s free h) refl)
      ]
