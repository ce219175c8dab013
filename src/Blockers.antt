-- ===== src/Blockers.antt =====
-- Why an item cannot go on: src/vera_mmu/work_blockers.py, gate_blockers.py and work_blocker_reports.py.
-- The nested function `visit` follows prerequisites depth first and marks each once; the fuel bounds the
-- depth of its calls.
mod Visits
mod Closed
pub mod Ready
pub mod Exact
use vera_mmu.Common.{
  ℕ, zero, suc, String, Bool, true, false, not, ◌&&◌, ◌==◌, text_Eq, Option, none, some, List, [],
  ◌∷◌, ◌++◌, length, contains, Result, ok, err, if◌then◌else◌, pure, gets, require, ◌>>=◌, ◌>>◌,
}
use vera_mmu.Common.Text.{is_plain_identifier}
use vera_mmu.Store.{Tables, Store, Method, raised}
use vera_mmu.Store.Rows.{Status}
use vera_mmu.WorkGraph.{has_work_item, GateError}
use vera_mmu.Gates.{GateStatus, GateEvaluation, evaluate}
use vera_mmu.Readiness.{work_status, is_completed, prerequisites, gates_of, is_gate_pass}

pub data BlockerError : Type 0 where
  invalid_item_id unknown_item : BlockerError
  gate_error : GateError → BlockerError

-- `WorkBlocker`, whose kind is PREREQUISITE
pub record WorkBlocker : Type 0 where
  pub identifier : String
  pub status : Status

pub record GateBlocker : Type 0 where
  pub gate_id : String
  pub status : GateStatus
  pub admitted_count : ℕ
  pub required_count : ℕ

-- the tests that each `diagnose` makes first
unfoldable pub require_item : String → Method BlockerError Unit
require_item id = do
  require (is_plain_identifier id) (raised invalid_item_id)
  known ← gets (λ s. has_work_item s.tables id)
  require known (raised unknown_item)

abbrev pub blocker_of : Tables → String → List WorkBlocker
blocker_of t p =
    if is_completed (work_status t p)
    then []
    else record { identifier = p; status = work_status t p } ∷ []

unfoldable pub blockers_among : Tables → List String → List WorkBlocker
blockers_among t [] = []
blockers_among t (p ∷ ps) = blocker_of t p ++ blockers_among t ps

-- `WorkBlockerService.diagnose`
unfoldable pub diagnose : String → Method BlockerError (List WorkBlocker)
unfolding require_item blockers_among
diagnose id = do require_item id; gets (λ s. blockers_among s.tables (prerequisites s.tables id))

-- what `visit` changes: the set of those seen, and the blockers found
abbrev pub Visited : Type 0
Visited = List String × List WorkBlocker

-- the loop of `visit`, over the rows of its query; `deeper` is the recursive call
unfoldable pub visit_each : (String → Visited → Visited) → Tables → List String → Visited → Visited
unfolding contains
visit_each deeper t [] v = v
visit_each deeper t (p ∷ ps) (seen, found) =
    if contains seen p
    then visit_each deeper t ps (seen, found)
    else visit_each deeper t ps (deeper p (p ∷ seen, found ++ blocker_of t p))

-- `visit(identifier)`; the interpreter's recursion limit is not modelled
unfoldable pub visit : ℕ → Tables → String → Visited → Visited
unfolding visit_each
visit zero t id v = v
visit (suc fuel) t id v = visit_each (visit fuel t) t (prerequisites t id) v

-- A call of `visit` below the first marks a prerequisite that was not seen, so that the depth is at most
-- the number of rows of work_dependency, and one.
unfoldable pub transitive_blockers : Tables → String → List WorkBlocker
unfolding visit
transitive_blockers t id = (visit (suc (suc (length t.dependencies))) t id ([], [])).1

-- `WorkBlockerService.diagnose_transitive`
unfoldable pub diagnose_transitive : String → Method BlockerError (List WorkBlocker)
unfolding require_item transitive_blockers
diagnose_transitive id = do require_item id; gets (λ s. transitive_blockers s.tables id)

abbrev pub gate_blocker_of : GateEvaluation → List GateBlocker
gate_blocker_of r =
    if is_gate_pass r.status
    then []
    else record {
      gate_id = r.gate_id;
      status = r.status;
      admitted_count = r.admitted_count;
      required_count = r.required_count;
    }
      ∷ []

abbrev pub add_blockers :
    Result GateError GateEvaluation
    → Result GateError (List GateBlocker)
    → Result GateError (List GateBlocker)
add_blockers (err e) _ = err e
add_blockers (ok r) (err e) = err e
add_blockers (ok r) (ok bs) = ok (gate_blocker_of r ++ bs)

-- the loop of `GateBlockerService.diagnose`
unfoldable pub gate_blockers : Tables → List String → Result GateError (List GateBlocker)
gate_blockers t [] = ok []
gate_blockers t (g ∷ gs) = add_blockers (evaluate t g) (gate_blockers t gs)

abbrev raise_gate : {A : Type 0} → Result GateError A → Method BlockerError A
raise_gate (ok a) s = (ok a, s)
raise_gate (err e) s = (err (raised (gate_error e)), s)

-- `GateBlockerService.diagnose`
unfoldable pub diagnose_gates : String → Method BlockerError (List GateBlocker)
unfolding require_item gate_blockers
diagnose_gates id = do
  require_item id
  found ← gets (λ s. gate_blockers s.tables (gates_of s.tables id))
  raise_gate found

pub record WorkBlockerReport : Type 0 where
  pub work_item_id : String
  pub is_ready : Bool
  pub dependencies : List WorkBlocker
  pub gates : List GateBlocker

abbrev pub is_nil : {A : Type 0} → List A → Bool
is_nil [] = true
is_nil (_ ∷ _) = false

-- `WorkBlockerReportService.diagnose`; `is_ready` is the status READY, and its opposite BLOCKED
unfoldable pub report : String → Method BlockerError WorkBlockerReport
unfolding diagnose_transitive diagnose_gates
report id = do
  dependencies ← diagnose_transitive id
  gates ← diagnose_gates id
  pure (record {
    work_item_id = id;
    is_ready = is_nil dependencies && is_nil gates;
    dependencies = dependencies;
    gates = gates;
  })
