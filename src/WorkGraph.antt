-- ===== src/WorkGraph.antt =====
-- `GateService.add_dependency` of src/vera_mmu/gates.py: the edges of the work graph.
pub mod Order
use vera_mmu.Common.{
  String, Bool, true, false, ◌==◌, text_Eq, not, ◌&&◌, ◌||◌, List, [], ◌∷◌, ◌++◌, map, ok, err,
  pure, gets, require, refuse, ◌>>=◌, ◌>>◌, find, is_some, contains, any, if◌then◌else◌,
}
use vera_mmu.Graph.{Edges, closure}
use vera_mmu.Store.{
  Store, Tables, Method, Rows, raised, integrity_error, atomic, append_audit, insert, has_length,
}
use vera_mmu.Store.Rows.{WorkItem, Dependency, Value, text}

pub data GateError : Type 0 where
  self_dependency unknown_work_item cycle invalid_dependency : GateError
  unknown_endpoint invalid_gate invalid_gate_id invalid_endpoint invalid_requirements : GateError
  duplicate_requirements unknown_evidence invalid_structure unknown_requirement : GateError
  requirements_frozen primary_already_required invalid_requirement unknown_mode : GateError
  invalid_actor gate_not_found threshold_forbidden threshold_out_of_bounds : GateError
  invalid_policy policy_unreadable policy_not_found : GateError

-- `SELECT 1 FROM work_item WHERE id = ?` has a row
unfoldable pub has_work_item : Tables → String → Bool
has_work_item t id = is_some (find (λ w. w.id == id) t.work_items)

abbrev pub as_edge : Dependency → String × String
as_edge d = (d.dependent_id, d.prerequisite_id)

-- the rows of `work_dependency` as edges, from the dependent item to its prerequisite
unfoldable pub dependency_edges : Tables → Edges String
dependency_edges t = map as_edge t.dependencies

-- the constraints of the table `work_dependency`
unfoldable pub dependency_is_valid : Tables → Dependency → Bool
unfolding has_work_item has_length
dependency_is_valid t d =
    has_work_item t d.dependent_id
    && has_work_item t d.prerequisite_id
    && not (
        any (λ r. r.dependent_id == d.dependent_id && r.prerequisite_id == d.prerequisite_id)
          t.dependencies)
    && not (d.dependent_id == d.prerequisite_id)
    && has_length 1 256 d.created_by

unfoldable pub insert_dependency : {E : Type 0} → Dependency → Rows E Unit
insert_dependency d =
    insert (λ t. dependency_is_valid t d)
      (λ t. record t { dependencies = t.dependencies ++ d ∷ [] })

-- the block of `add_dependency`
unfoldable pub add_dependency_rows : String → String → String → String → Rows GateError Unit
unfolding insert_dependency
add_dependency_rows dependent prerequisite actor now = do
  known ← gets (λ t. has_work_item t dependent && has_work_item t prerequisite)
  require known (raised unknown_work_item)
  rows ← gets (λ t. closure (dependency_edges t) prerequisite)
  refuse (contains rows dependent) (raised cycle)
  insert_dependency (record {
    dependent_id = dependent;
    prerequisite_id = prerequisite;
    created_at = now;
    created_by = actor;
  })
  append_audit now "WORK_DEPENDENCY_ADDED" (
      ("dependent_id", text dependent)
      ∷ ("prerequisite_id", text prerequisite)
      ∷ ("actor", text actor)
      ∷ [])

unfoldable pub add_dependency : String → String → String → String → Method GateError Unit
unfolding add_dependency_rows
add_dependency dependent prerequisite actor now = do
  refuse (dependent == prerequisite) (raised self_dependency)
  atomic invalid_dependency (add_dependency_rows dependent prerequisite actor now)
