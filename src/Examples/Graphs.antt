-- ===== src/Examples/Graphs.antt =====
-- The work graph of a small store.
use vera_mmu.Common.{
  ◌≡◌, ◌≢◌, refl, true, String, [], ◌∷◌, ok, err, contains, arith, text_iff, text_Eq, ◌↔◌, ◌++◌,
}
use vera_mmu.Graph.{Edges, closure}
use vera_mmu.Graph.Reach.{Reach}
use vera_mmu.Graph.Acyclic.{nil-IsAcyclic}
use vera_mmu.Graph.Closure.{closure_exact}
use vera_mmu.Store.{Store, raised}
use vera_mmu.WorkGraph.{add_dependency, dependency_edges, dependency_is_valid, has_work_item, cycle}
use vera_mmu.WorkGraph.Order.{
  IsOrdered, add_dependency-IsOrdered, add_dependency_cycle_iff, add_dependency_accepts,
}
use vera_mmu.Examples.{three_items, run}

a_not_b : ◌≢◌ {A = String} "a" "b"
a_not_b = ground (arith, text_iff "a" "b")

-- a needs b, then b needs c
abbrev chained : Store
chained =
    (add_dependency "b" "c" "system" "t2" (add_dependency "a" "b" "system" "t1" three_items).1).1

chained_edges : dependency_edges chained.tables ≡ ("a", "b") ∷ ("b", "c") ∷ []
unfolding run add_dependency dependency_edges dependency_is_valid closure
chained_edges = refl

closes_a_cycle : (add_dependency "c" "a" "system" "t3" chained).0 ≡ err (raised cycle)
unfolding run add_dependency dependency_edges dependency_is_valid closure
closes_a_cycle = refl

abbrev chain : Edges String
chain = ("a", "b") ∷ ("b", "c") ∷ []

closure_exact_example : (contains (closure chain "a") "c" ≡ true) ↔ Reach chain "a" "c"
closure_exact_example = closure_exact chain "a" "c"

three_items-IsOrdered : IsOrdered three_items.tables
unfolding dependency_edges
three_items-IsOrdered = nil-IsAcyclic

add_dependency-IsOrdered_example :
    IsOrdered (add_dependency "a" "b" "system" "t1" three_items).1.tables
add_dependency-IsOrdered_example =
    add_dependency-IsOrdered "a" "b" "system" "t1" three_items three_items-IsOrdered

add_dependency_cycle_iff_example :
    ((add_dependency "a" "b" "system" "t1" three_items).0 ≡ err (raised cycle))
    ↔ Reach (dependency_edges three_items.tables) "b" "a"
unfolding run has_work_item
add_dependency_cycle_iff_example =
    add_dependency_cycle_iff "a" "b" "system" "t1" three_items a_not_b refl refl

nothing_reaches : ¬ (Reach (dependency_edges three_items.tables) "b" "a")
unfolding dependency_edges closure contains
nothing_reaches r = cc ((closure_exact (dependency_edges three_items.tables) "b" "a").1 r)

add_dependency_accepts_example :
    let (r, s') = add_dependency "a" "b" "system" "t1" three_items in
    (r ≡ ok tt)
    × (s'.tables.dependencies
        ≡ []
          ++ record {
            dependent_id = "a";
            prerequisite_id = "b";
            created_at = "t1";
            created_by = "system";
          }
            ∷ [])
unfolding run dependency_is_valid
add_dependency_accepts_example =
    add_dependency_accepts "a" "b" "system" "t1" three_items refl nothing_reaches
