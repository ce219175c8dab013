-- ===== src/Calls/Views.antt =====
-- Views of the tables, each without those that one group of services of src/vera_mmu writes.
use vera_mmu.Common.{[], refl, none}
use vera_mmu.Store.{Tables}
use vera_mmu.Store.Frame.{HidesAudit}

unfoldable pub hide_items : Tables → Tables
hide_items t = record t { work_items = []; audit = [] }

unfoldable pub hide_history : Tables → Tables
hide_history t = record t { lifecycle_events = []; audit = [] }

unfoldable pub hide_graph : Tables → Tables
hide_graph t = record t { dependencies = []; audit = [] }

unfoldable pub hide_gates : Tables → Tables
hide_gates t = record t { gates = []; gate_requirements = []; gate_policies = []; audit = [] }

unfoldable pub hide_policies : Tables → Tables
hide_policies t = record t {
  start_policy = none;
  completion_policy = none;
  admission_policy = none;
  proof_policy = none;
  audit = [];
}

unfoldable pub hide_chain : Tables → Tables
hide_chain t = record t { evidence = []; admissions = []; bindings = []; proofs = []; audit = [] }

unfoldable pub hide_lines : Tables → Tables
hide_lines t = record t { supersessions = []; audit = [] }

unfoldable pub hide_checks : Tables → Tables
hide_checks t = record t { validators = []; validation_results = []; audit = [] }

unfoldable pub hide_runs : Tables → Tables
hide_runs t = record t {
  capabilities = [];
  contracts = [];
  capability_policies = [];
  executions = [];
  validation_results = [];
  audit = [];
}

pub hide_items-HidesAudit : HidesAudit hide_items
unfolding hide_items
hide_items-HidesAudit t audit = refl

pub hide_history-HidesAudit : HidesAudit hide_history
unfolding hide_history
hide_history-HidesAudit t audit = refl

pub hide_graph-HidesAudit : HidesAudit hide_graph
unfolding hide_graph
hide_graph-HidesAudit t audit = refl

pub hide_gates-HidesAudit : HidesAudit hide_gates
unfolding hide_gates
hide_gates-HidesAudit t audit = refl

pub hide_policies-HidesAudit : HidesAudit hide_policies
unfolding hide_policies
hide_policies-HidesAudit t audit = refl

pub hide_chain-HidesAudit : HidesAudit hide_chain
unfolding hide_chain
hide_chain-HidesAudit t audit = refl

pub hide_lines-HidesAudit : HidesAudit hide_lines
unfolding hide_lines
hide_lines-HidesAudit t audit = refl

pub hide_checks-HidesAudit : HidesAudit hide_checks
unfolding hide_checks
hide_checks-HidesAudit t audit = refl

pub hide_runs-HidesAudit : HidesAudit hide_runs
unfolding hide_runs
hide_runs-HidesAudit t audit = refl

unfoldable pub hide_registry : Tables → Tables
hide_registry t = record t {
  entity_types = [];
  entities = [];
  relation_types = [];
  relations = [];
  audit = [];
}

pub hide_registry-HidesAudit : HidesAudit hide_registry
unfolding hide_registry
hide_registry-HidesAudit t audit = refl
