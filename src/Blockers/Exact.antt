-- ===== src/Blockers/Exact.antt =====
-- The transitive search of src/vera_mmu/work_blockers.py finds every prerequisite that a walk reaches, and
-- nothing else.
use vera_mmu.Common.{
  ℕ, zero, suc, String, true, false, not, ◌&&◌, ◌||◌, ◌==◌, text_Eq, text_iff, ◌≡◌, refl, ◌∙◌, ap,
  sym, subst, List, [], ◌∷◌, ◌++◌, length, map, contains, arith, Bool-cases, inl, inr, ◌↔◌,
}
use vera_mmu.Graph.Reach.{Reach, edge, step}
use vera_mmu.Store.{Tables}
use vera_mmu.Store.Rows.{Dependency}
use vera_mmu.WorkGraph.{dependency_edges, as_edge}
use vera_mmu.Readiness.{work_status, is_completed, prerequisites}
use vera_mmu.Blockers.{WorkBlocker, Visited, visit, visit_each, blocker_of, transitive_blockers}
use vera_mmu.Blockers.Visits.{contains-cons, contains-head}
use vera_mmu.Blockers.Closed.{prerequisites-edge, search_complete}

abbrev pub identifiers : List WorkBlocker → List String
identifiers bs = map (λ b. b.identifier) bs

module _ (t : Tables) where
  -- what was seen and is not completed is what was found
  abbrev IsExact : Visited → Type 0
  IsExact v =
      (x : String)
      → contains (identifiers v.1) x ≡ (contains v.0 x && not (is_completed (work_status t x)))

  contains-identifiers :
      (bs cs : List WorkBlocker) (x : String)
      → contains (identifiers (bs ++ cs)) x
        ≡ (contains (identifiers bs) x || contains (identifiers cs) x)
  unfolding contains
  contains-identifiers [] cs x = refl
  contains-identifiers (b ∷ bs) cs x = ground (arith, contains-identifiers bs cs x)

  blocker_of-found :
      (p x : String)
      → contains (identifiers (blocker_of t p)) x ≡ (p == x && not (is_completed (work_status t x)))
  unfolding contains
  blocker_of-found p x = elim (Bool-cases (p == x)) [
    | inl same ↦
        subst
          (λ y.
            contains (identifiers (blocker_of t p)) y
            ≡ (p == y && not (is_completed (work_status t y))))
          ((text_iff p x).0 same) (ground (arith, text_iff p p))
    | inr other ↦ ground (arith, other)
  ]

  marked-IsExact :
      (p : String) (seen : List String) (found : List WorkBlocker)
      → IsExact (seen, found)
      → IsExact (p ∷ seen, found ++ blocker_of t p)
  unfolding contains
  marked-IsExact p seen found h x =
      ground (arith, h x, contains-identifiers found (blocker_of t p) x, blocker_of-found p x)

  module _ (root : String) where
    abbrev Reached : String → Type 0
    Reached x = Reach (dependency_edges t) root x

    abbrev IsSound : Visited → Type 0
    IsSound v = IsExact v × ((x : String) → contains v.0 x ≡ true → Reached x)

    marked-IsSound :
        (p : String) (seen : List String) (found : List WorkBlocker)
        → Reached p
        → IsSound (seen, found)
        → IsSound (p ∷ seen, found ++ blocker_of t p)
    unfolding contains
    marked-IsSound p seen found r (exact, reached) = (
      marked-IsExact p seen found exact,
      λ x m. elim (Bool-cases (p == x)) [
        | inl same ↦ subst Reached ((text_iff p x).0 same) r
        | inr other ↦ reached x (ground (arith, m, other))
      ],
    )

    visit_each-IsSound :
        (deeper : String → Visited → Visited) (ps : List String) (v : Visited)
        → ((p : String) (w : Visited) → Reached p → IsSound w → IsSound (deeper p w))
        → ((p : String) → contains ps p ≡ true → Reached p)
        → IsSound v
        → IsSound (visit_each deeper t ps v)
    unfolding visit_each
    visit_each-IsSound deeper [] v h r s = s
    visit_each-IsSound deeper (p ∷ ps) (seen, found) h r s =
        let later = λ (q : String) (m : contains ps q ≡ true). r q (contains-cons t ps p q m) in
        let here = r p (contains-head t ps p) in
        elim (Bool-cases (contains seen p)) [
          | inl old ↦ rw old (visit_each-IsSound deeper ps (seen, found) h later s)
          | inr new ↦ rw new (
              visit_each-IsSound deeper ps _ h later
                (h p _ here (marked-IsSound p seen found here s)))
        ]

    visit-IsSound :
        (fuel : ℕ) (id : String) (v : Visited)
        → ((p : String) → contains (prerequisites t id) p ≡ true → Reached p)
        → IsSound v
        → IsSound (visit fuel t id v)
    unfolding visit
    visit-IsSound zero id v r s = s
    visit-IsSound (suc fuel) id v r s =
        visit_each-IsSound (visit fuel t) (prerequisites t id) v
          (λ p w q. visit-IsSound fuel p w (λ x m. step q (sym (prerequisites-edge t p x) ∙ m))) r s

length-edges : (ds : List Dependency) → length (map as_edge ds) ≡ length ds
length-edges [] = refl
length-edges (d ∷ ds) = ap suc (length-edges ds)

-- The transitive diagnosis names `x` exactly when a walk of prerequisites leads from the item to `x`
-- and `x` is not completed, whatever the dependencies; its search never runs out of fuel.
pub transitive_blockers_exact :
    (t : Tables) (id x : String)
    → (contains (identifiers (transitive_blockers t id)) x ≡ true)
      ↔ (Reach (dependency_edges t) id x × (is_completed (work_status t x) ≡ false))
unfolding transitive_blockers dependency_edges
transitive_blockers_exact t id x =
    let fuel = suc (suc (length t.dependencies)) in
    let v = visit fuel t id ([], []) in
    let (exact, reached) =
      visit-IsSound t id fuel id ([], []) (λ p m. edge (sym (prerequisites-edge t id p) ∙ m))
        (λ y. refl, λ y m. cc) in
    (
      λ m. (reached x (ground (arith, m, exact x)), ground (arith, m, exact x)),
      λ (r, undone). ground (
        arith,
        exact x,
        undone,
        search_complete t fuel id x (omega (arith, length-edges t.dependencies)) r,
      ),
    )
