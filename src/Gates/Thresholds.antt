-- ===== src/Gates/Thresholds.antt =====
-- Whether the declared policies of src/vera_mmu/gates.py can be met: the threshold and the number of
-- the gate's requirements.
use vera_mmu.Common.{
  ℕ, ◌≤◌, ◌≡◌, refl, sym, subst, String, Option, none, some, List, [], ◌∷◌, ◌++◌, text_Eq, Result,
  ok, err, length, All, All-append, All-map, arith, ◌>>=◌, pure,
}
use vera_mmu.Store.{Tables, Store, Rows, raised}
use vera_mmu.Store.Rows.{GatePolicy, GateMode, all_of, any_of, at_least, AuditEvent}
use vera_mmu.Store.Returns.{
  Returns, Returns-ok, Returns-err, Returns-map, Returns-gets, Returns-require, Returns-insert,
  Returns-audit, settle-Returns,
}
use vera_mmu.Store.Keeps.{
  Commits, Keeps, Keeps-atomic, Keeps-atomic_row, Keeps-require, Keeps-refuse, Keeps-or_raise,
}
use vera_mmu.Gates.{requirements}
use vera_mmu.Gates.Declare.{
  declare, declare_with_requirements, add_requirement, declare_policy, declare_policy_rows,
  insert_policy, or_raised, ModeName, all_mode, any_mode, at_least_mode, threshold,
}
use vera_mmu.Gates.Grows.{
  Grows, length-requirements-le, declare_rows-Grows, declare_with_requirements_rows-Grows,
  add_requirement_rows-Grows,
}

-- a policy that a gate with `n` requirements can meet
abbrev pub Fits : GateMode → ℕ → Type 0
Fits all_of n = 1 ≤ n
Fits any_of n = 1 ≤ n
Fits (at_least k) n = (1 ≤ k) × (k ≤ n)

Fits-mono : (mode : GateMode) (m n : ℕ) → m ≤ n → Fits mode m → Fits mode n
Fits-mono all_of m n h f = omega arith
Fits-mono any_of m n h f = omega arith
Fits-mono (at_least k) m n h f = (f.0, omega arith)

abbrev pub IsSatisfiable : Tables → Type 0
IsSatisfiable t = All (λ p. Fits p.mode (length (requirements t p.gate_id))) t.gate_policies

IsSatisfiable-Grows : (t u : Tables) → Grows t u → IsSatisfiable t → IsSatisfiable u
IsSatisfiable-Grows t u g h =
    subst (All (λ p. Fits p.mode (length (requirements u p.gate_id)))) (sym g.policies_stay) (
      All-map _ _ t.gate_policies
        (λ p f.
          Fits-mono p.mode (length (requirements t p.gate_id)) (length (requirements u p.gate_id))
            (length-requirements-le t u p.gate_id g) f)
        h)

-- what the tests on the threshold let through
threshold-Fits :
    (name : ModeName) (minimum : Option ℕ) (n : ℕ) (mode : GateMode)
    → 1 ≤ n
    → threshold name minimum n ≡ ok mode
    → Fits mode n
unfolding threshold
threshold-Fits all_mode none n all_of h e = h
threshold-Fits all_mode none n any_of h e = h
threshold-Fits all_mode none n (at_least k) h e = cc
threshold-Fits all_mode (some m) n mode h e = cc
threshold-Fits any_mode none n any_of h e = h
threshold-Fits any_mode none n all_of h e = h
threshold-Fits any_mode none n (at_least k) h e = cc
threshold-Fits any_mode (some m) n mode h e = cc
threshold-Fits at_least_mode none n mode h e = cc
threshold-Fits at_least_mode (some m) n all_of h e = h
threshold-Fits at_least_mode (some m) n any_of h e = h
threshold-Fits at_least_mode (some m) n (at_least k) h e = ground arith

-- a block that goes on with what a test on its arguments gives
Returns-or_raised {ℓ} :
    {E A B : Type 0} {Q : B → Tables → Type ℓ} (r : Result E A) (f : A → Rows E B) (t : Tables)
    → ((a : A) → r ≡ ok a → Returns Q (f a t))
    → Returns Q ((or_raised r >>= f) t)
unfolding or_raised ◌>>=◌
Returns-or_raised (ok a) f t h = h a refl
Returns-or_raised (err e) f t h = Returns-err (raised e) t

add_policy-IsSatisfiable :
    (t : Tables) (p : GatePolicy) (audit : List AuditEvent)
    → Fits p.mode (length (requirements t p.gate_id))
    → IsSatisfiable t
    → IsSatisfiable (record t { gate_policies = t.gate_policies ++ p ∷ []; audit = audit })
unfolding requirements
add_policy-IsSatisfiable t p audit f h = All-append _ t.gate_policies (p ∷ []) h (f, tt)

declare_policy_rows-Returns :
    (g text_ : String) (name : ModeName) (minimum : Option ℕ) (actor now : String) (t : Tables)
    → IsSatisfiable t
    → Returns (λ _ u. IsSatisfiable u) (declare_policy_rows g text_ name minimum actor now t)
unfolding declare_policy_rows insert_policy pure
declare_policy_rows-Returns g text_ name minimum actor now t h = Returns-gets _ _ _ (
    Returns-require _ _ _ _ λ known. Returns-or_raised _ _ _ λ mode chosen.
      Returns-insert _ _ _ _ λ valid. Returns-gets _ _ _ (
        Returns-audit _ _ _ _ _ λ audit. Returns-ok _ _ (
          add_policy-IsSatisfiable t _ audit
            (threshold-Fits name minimum _ mode (ground (arith, known)) chosen) h)))

commits :
    {E A : Type 0} {m : Rows E A}
    → ((t : Tables) → IsSatisfiable t → Returns (λ _ u. IsSatisfiable u) (m t))
    → Commits IsSatisfiable m
commits h = record { at = λ t p. settle-Returns IsSatisfiable t _ (h t p) p (λ a u q. q) }

Grows-Commits :
    {E A : Type 0} {m : Rows E A}
    → ((t : Tables) → Returns (λ _ u. Grows t u) (m t))
    → Commits IsSatisfiable m
Grows-Commits h = commits (λ t p. Returns-map (h t) (λ _ u grown. IsSatisfiable-Grows t u grown p))

pub declare_policy-Keeps :
    (g mode : String) (minimum : Option ℕ) (actor now : String)
    → Keeps IsSatisfiable (declare_policy g mode minimum actor now)
unfolding declare_policy
declare_policy-Keeps g mode minimum actor now = Keeps-require _ _ _ (
    Keeps-or_raise _ _ _ λ name. Keeps-require _ _ _ (
      Keeps-atomic_row _ _ _ (commits (declare_policy_rows-Returns g mode name minimum actor now))))

pub declare_with_requirements-Keeps :
    (id item evidence : String) (required : List String) (actor now : String)
    → Keeps IsSatisfiable (declare_with_requirements id item evidence required actor now)
unfolding declare_with_requirements
declare_with_requirements-Keeps id item evidence required actor now = Keeps-require _ _ _ (
    Keeps-refuse _ _ _ (
      Keeps-refuse _ _ _ (
        Keeps-refuse _ _ _ (
          Keeps-atomic _ _ (
            Grows-Commits
              (declare_with_requirements_rows-Grows id item evidence required actor now))))))

pub declare-Keeps :
    (id item evidence actor now : String) → Keeps IsSatisfiable (declare id item evidence actor now)
unfolding declare
declare-Keeps id item evidence actor now =
    Keeps-atomic _ _ (Grows-Commits (declare_rows-Grows id item evidence actor now))

pub add_requirement-Keeps :
    (g evidence actor now : String) → Keeps IsSatisfiable (add_requirement g evidence actor now)
unfolding add_requirement
add_requirement-Keeps g evidence actor now =
    Keeps-atomic _ _ (Grows-Commits (add_requirement_rows-Grows g evidence actor now))

-- A policy that is declared, whatever its mode and threshold, can be met by the requirements that
-- its gate has, and the policies that were there stay so.
pub declare_policy-IsSatisfiable :
    (g mode : String) (minimum : Option ℕ) (actor now : String) (s : Store)
    → IsSatisfiable s.tables
    → IsSatisfiable (declare_policy g mode minimum actor now s).1.tables
declare_policy-IsSatisfiable g mode minimum actor now s h =
    (declare_policy-Keeps g mode minimum actor now).at s h

-- Declaring a gate with requirements, alone, or one more requirement leaves every declared policy
-- one that its gate can meet.
pub requirements-IsSatisfiable :
    (id item evidence : String) (required : List String) (actor now : String) (s : Store)
    → IsSatisfiable s.tables
    → IsSatisfiable (declare_with_requirements id item evidence required actor now s).1.tables
      × IsSatisfiable (declare id item evidence actor now s).1.tables
      × IsSatisfiable (add_requirement id evidence actor now s).1.tables
requirements-IsSatisfiable id item evidence required actor now s h = (
  (declare_with_requirements-Keeps id item evidence required actor now).at s h,
  (declare-Keeps id item evidence actor now).at s h,
  (add_requirement-Keeps id evidence actor now).at s h,
)
