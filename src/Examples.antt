-- ===== src/Examples.antt =====
-- Tests and concrete instances: a small store that is filled by the services themselves.
mod Graphs
mod Work
mod Gates
mod Chain
mod Plans
mod Checks
mod Schema
mod Reports
mod Config
mod Drafts
mod Runs
mod Sequences
mod Registry
mod Addresses
use vera_mmu.Common.{
  ◌>>=◌, find, any, all, where_rows, count_if, contains, String, Option, none, some, List, [], ◌∷◌,
}
use vera_mmu.Store.{Store, Tables, not_attempted, atomic, atomic_row, insert, append_audit}
use vera_mmu.Store.Rows.{WorkItem, work_item}

-- Named on an `unfolding` line, it opens what a run of a method computes through.
unfoldable pub run : Unit {0}
unfolding ◌>>=◌ atomic atomic_row insert append_audit find any all where_rows count_if contains
run = tt

abbrev empty_tables : Tables
empty_tables = record {
  work_items = [];
  lifecycle_events = [];
  dependencies = [];
  gates = [];
  gate_requirements = [];
  gate_policies = [];
  evidence = [];
  admissions = [];
  bindings = [];
  validators = [];
  validation_results = [];
  proofs = [];
  supersessions = [];
  knowledge = [];
  capabilities = [];
  contracts = [];
  capability_policies = [];
  executions = [];
  entity_types = [];
  entities = [];
  relation_types = [];
  relations = [];
  assets = [];
  start_policy = none;
  completion_policy = none;
  admission_policy = none;
  proof_policy = none;
  audit = [];
}

abbrev item : String → WorkItem
item id = record {
  id = id;
  item_type = work_item;
  title = id;
  description = "";
  priority = none;
  parent_id = none;
  assignee = none;
  metadata_json = "{}";
  created_at = "t0";
  created_by = "system";
}

abbrev store_of : Tables → Store
store_of t = record {
  project_id = "demo";
  tables = t;
  saved = [];
  last_sync_status = not_attempted;
  memory_sync = λ t. none;
}

-- three work items, and nothing else
abbrev pub three_items : Store
three_items = store_of (record empty_tables { work_items = item "a" ∷ item "b" ∷ item "c" ∷ [] })
