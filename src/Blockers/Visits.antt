-- ===== src/Blockers/Visits.antt =====
-- What each call of `visit` of src/vera_mmu/work_blockers.py keeps, whatever its fuel.
use vera_mmu.Common.{
  ℕ, zero, suc, String, true, ◌==◌, text_Eq, text_iff, ◌≡◌, refl, subst, List, [], ◌∷◌, ◌++◌,
  contains, arith, Bool-cases, inl, inr, All,
}
use vera_mmu.Store.{Tables}
use vera_mmu.Readiness.{work_status, is_completed, prerequisites}
use vera_mmu.Blockers.{WorkBlocker, Visited, visit, visit_each, blocker_of}

module _ (t : Tables) where
  abbrev pub Done : String → Type 0
  Done p = is_completed (work_status t p) ≡ true

  -- as long as no blocker is found, everything seen is completed
  abbrev pub IsHonest : Visited → Type 0
  IsHonest v = v.1 ≡ [] → All Done v.0

  blocker_of-nil :
      (p : String) (found : List WorkBlocker) → found ++ blocker_of t p ≡ [] → (found ≡ []) × Done p
  blocker_of-nil p [] h = elim (Bool-cases (is_completed (work_status t p))) [
    | inl done ↦ (refl, done)
    | inr undone ↦ ground (arith, h, undone)
  ]
  blocker_of-nil p (b ∷ bs) h = cc

  -- what a call of `visit` keeps and adds
  pub record IsVisit (f : Visited → Visited) : Type 0 where
    pub honest : (v : Visited) → IsHonest v → IsHonest (f v)
    pub keeps_seen : (v : Visited) (x : String) → contains v.0 x ≡ true → contains (f v).0 x ≡ true

  pub contains-cons :
      (xs : List String) (p x : String) → contains xs x ≡ true → contains (p ∷ xs) x ≡ true
  unfolding contains
  contains-cons xs p x h = ground (arith, h)

  pub contains-head : (xs : List String) (p : String) → contains (p ∷ xs) p ≡ true
  unfolding contains
  contains-head xs p = ground (arith, text_iff p p)

  marked-IsHonest :
      (p : String) (seen : List String) (found : List WorkBlocker)
      → IsHonest (seen, found)
      → IsHonest (p ∷ seen, found ++ blocker_of t p)
  marked-IsHonest p seen found h e =
      let (none_yet, done) = blocker_of-nil p found e in (done, h none_yet)

  pub visit_each-IsVisit :
      (deeper : String → Visited → Visited) (ps : List String)
      → ((p : String) → IsVisit (deeper p))
      → IsVisit (visit_each deeper t ps)
  unfolding visit_each
  visit_each-IsVisit deeper [] h = record { honest = λ v q. q; keeps_seen = λ v x q. q }
  visit_each-IsVisit deeper (p ∷ ps) h =
      let rest = visit_each-IsVisit deeper ps h in
      record {
        honest = λ (seen, found) q. elim (Bool-cases (contains seen p)) [
          | inl old ↦ rw old (rest.honest (seen, found) q)
          | inr new ↦ rw new (rest.honest _ ((h p).honest _ (marked-IsHonest p seen found q)))
        ];
        keeps_seen = λ (seen, found) x q. elim (Bool-cases (contains seen p)) [
          | inl old ↦ rw old (rest.keeps_seen (seen, found) x q)
          | inr new ↦ rw new (rest.keeps_seen _ x ((h p).keeps_seen _ x (contains-cons seen p x q)))
        ];
      }

  pub visit-IsVisit : (fuel : ℕ) (id : String) → IsVisit (visit fuel t id)
  unfolding visit
  visit-IsVisit zero id = record { honest = λ v q. q; keeps_seen = λ v x q. q }
  visit-IsVisit (suc fuel) id =
      visit_each-IsVisit (visit fuel t) (prerequisites t id) (visit-IsVisit fuel)

  -- every row of the query is seen in the end
  pub visit_each-seen :
      (deeper : String → Visited → Visited) (ps : List String) (v : Visited) (x : String)
      → ((p : String) → IsVisit (deeper p))
      → contains ps x ≡ true
      → contains (visit_each deeper t ps v).0 x ≡ true
  unfolding visit_each contains
  visit_each-seen deeper [] v x h m = cc
  visit_each-seen deeper (p ∷ ps) (seen, found) x h m =
      let rest = visit_each-IsVisit deeper ps h in
      elim (Bool-cases (p == x)) [
        | inl here ↦ elim (Bool-cases (contains seen p)) [
          | inl old ↦ rw old (
              rest.keeps_seen (seen, found) x
                (subst (λ y. contains seen y ≡ true) ((text_iff p x).0 here) old))
          | inr new ↦ rw new (
              rest.keeps_seen _ x (
                (h p).keeps_seen _ x (
                  subst (λ y. contains (p ∷ seen) y ≡ true) ((text_iff p x).0 here)
                    (contains-head seen p))))
        ]
        | inr later ↦
            let tail : contains ps x ≡ true = ground (arith, m, later) in
            elim (Bool-cases (contains seen p)) [
              | inl old ↦ rw old (visit_each-seen deeper ps (seen, found) x h tail)
              | inr new ↦ rw new (visit_each-seen deeper ps _ x h tail)
            ]
      ]
