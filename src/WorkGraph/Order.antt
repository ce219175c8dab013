-- ===== src/WorkGraph/Order.antt =====
-- The work graph stays acyclic.
use vera_mmu.Common.{
  String, true, false, ◌≡◌, ◌≢◌, refl, ◌==◌, text_Eq, text_iff, ◌∷◌, [], List, ◌++◌, map, ok, err,
  contains, arith, subst, sym, inl, inr, Bool-cases, ◌>>=◌, ◌⊎◌, ◌↔◌, is_ok,
}
use vera_mmu.Graph.{closure}
use vera_mmu.Graph.Acyclic.{IsAcyclic, append-IsAcyclic}
use vera_mmu.Graph.Reach.{Reach}
use vera_mmu.Graph.Closure.{closure_exact}
use vera_mmu.Store.{Tables, Store, append_audit, insert, raised}
use vera_mmu.Store.Rows.{Dependency}
use vera_mmu.Store.Transaction.{settle}
use vera_mmu.Store.Keeps.{Commits, Keeps, Keeps-atomic, result-atomic, settle-atomic}
use vera_mmu.WorkGraph.{
  as_edge, dependency_edges, add_dependency_rows, add_dependency, has_work_item,
  dependency_is_valid, cycle, invalid_dependency,
}

abbrev pub IsOrdered : Tables → Type 0
IsOrdered t = IsAcyclic (dependency_edges t)

map-as_edge :
    (ds : List Dependency) (d : Dependency)
    → map as_edge (ds ++ d ∷ []) ≡ map as_edge ds ++ as_edge d ∷ []
map-as_edge [] d = refl
map-as_edge (x ∷ ds) d = cc (map-as_edge ds d)

-- What the block leaves in the table: the old rows, or one more, whose target does not reach back.
dependencies-step :
    (d p actor now : String) (t : Tables)
    → (let out = add_dependency_rows d p actor now t in
        (settle t out.0 out.1).dependencies ≡ t.dependencies)
      ⊎ ((let out = add_dependency_rows d p actor now t in
            (settle t out.0 out.1).dependencies
            ≡ t.dependencies
              ++ record {
                dependent_id = d;
                prerequisite_id = p;
                created_at = now;
                created_by = actor;
              }
                ∷ [])
          × (contains (closure (dependency_edges t) p) d ≡ false))
unfolding add_dependency_rows append_audit ◌>>=◌ insert
dependencies-step d p actor now t =
    elim (Bool-cases (contains (closure (dependency_edges t) p) d)) [
      | inl back ↦ inl (ground arith)
      | inr free ↦ elim (Bool-cases (is_ok (add_dependency_rows d p actor now t).0)) [
        | inl done ↦ inr (ground arith, free)
        | inr failed ↦ inl (ground arith)
      ]
    ]

add_dependency_rows-IsOrdered :
    (d p actor now : String) → d ≢ p → Commits IsOrdered (add_dependency_rows d p actor now)
unfolding dependency_edges
add_dependency_rows-IsOrdered d p actor now ne = record {
  at = λ t h. elim (dependencies-step d p actor now t) [
    | inl same ↦ subst (λ ds. IsAcyclic (map as_edge ds)) (sym same) h
    | inr (longer, free) ↦
        subst (λ ds. IsAcyclic (map as_edge ds)) (sym longer)
          (subst IsAcyclic (sym (map-as_edge t.dependencies _)) (append-IsAcyclic _ d p h ne free))
  ];
}

pub add_dependency-Keeps : (d p actor now : String) → Keeps IsOrdered (add_dependency d p actor now)
unfolding add_dependency ◌>>=◌
add_dependency-Keeps d p actor now = elim (Bool-cases (d == p)) [
  | inl same ↦ record { at = λ s h. rw same h }
  | inr other ↦ rw other (
      Keeps-atomic _ _
        (add_dependency_rows-IsOrdered d p actor now (λ e. cc ((text_iff d p).1 e, other))))
]

-- Adding a dependency, accepted or refused, keeps the work graph acyclic: no item reaches itself by
-- a walk of prerequisites.
pub add_dependency-IsOrdered :
    (d p actor now : String) (s : Store)
    → IsOrdered s.tables
    → IsOrdered (add_dependency d p actor now s).1.tables
add_dependency-IsOrdered d p actor now s h = (add_dependency-Keeps d p actor now).at s h

-- Between two known and different items, `add_dependency` raises its cycle error exactly when the
-- prerequisite already reaches the dependent item, so that the new edge would close a cycle.
pub add_dependency_cycle_iff :
    (d p actor now : String) (s : Store)
    → d ≢ p
    → has_work_item s.tables d ≡ true
    → has_work_item s.tables p ≡ true
    → ((add_dependency d p actor now s).0 ≡ err (raised cycle))
      ↔ Reach (dependency_edges s.tables) p d
unfolding add_dependency add_dependency_rows append_audit ◌>>=◌ insert
add_dependency_cycle_iff d p actor now s ne kd kp =
    let m = add_dependency_rows d p actor now in
    (
      λ e.
          (closure_exact (dependency_edges s.tables) p d).0
            (ground (arith, text_iff d p, result-atomic invalid_dependency m s)),
      λ r. ground (
        arith,
        text_iff d p,
        result-atomic invalid_dependency m s,
        (closure_exact (dependency_edges s.tables) p d).1 r,
      ),
    )

-- A dependency that meets the constraints of the table (between known and different items, not in the
-- table yet, by an actor whose length SQLite accepts), and that closes no cycle, is accepted and recorded:
-- the table ends with it.
pub add_dependency_accepts :
    (d p actor now : String) (s : Store)
    → dependency_is_valid s.tables
        (record { dependent_id = d; prerequisite_id = p; created_at = now; created_by = actor })
      ≡ true
    → ¬ (Reach (dependency_edges s.tables) p d)
    → let (r, s') = add_dependency d p actor now s in
      (r ≡ ok tt)
      × (s'.tables.dependencies
          ≡ s.tables.dependencies
            ++ record {
              dependent_id = d;
              prerequisite_id = p;
              created_at = now;
              created_by = actor;
            }
              ∷ [])
unfolding add_dependency add_dependency_rows dependency_is_valid append_audit ◌>>=◌ insert
add_dependency_accepts d p actor now s valid far =
    let m = add_dependency_rows d p actor now in
    let free : contains (closure (dependency_edges s.tables) p) d ≡ false =
      elim (Bool-cases (contains (closure (dependency_edges s.tables) p) d)) [
        | inl back ↦ absurd (far ((closure_exact (dependency_edges s.tables) p d).0 back))
        | inr free ↦ free
      ] in
    (
      ground (arith, result-atomic invalid_dependency m s),
      ground (arith, settle-atomic invalid_dependency m s),
    )
