-- ===== src/Calls/Sound.antt =====
-- What every table of src/vera_mmu keeps of the others, and that each call keeps all of it.
use mathlib.Core.List.{append-nil}
use vera_mmu.Common.{
  ◌≡◌, ap, sym, subst, text_Eq, ◌==◌, All, All-map, List, [], ◌∙◌, map, find, some,
}
use vera_mmu.Graph.Acyclic.{IsAcyclic}
use vera_mmu.Store.Rows.{Supersession}
use vera_mmu.Store.{Tables}
use vera_mmu.Chain.Platform.{Platform}
use vera_mmu.WorkGraph.{dependency_edges}
use vera_mmu.Gates.{requirements}
use vera_mmu.Readiness.{events_of}
use vera_mmu.Supersession.{as_link, succession, successor_row, predecessor_row}
use vera_mmu.WorkGraph.Order.{IsOrdered}
use vera_mmu.Gates.Thresholds.{IsSatisfiable}
use vera_mmu.Lifecycle.History.{IsRecorded}
use vera_mmu.Supersession.Lines.{HasLines}
use vera_mmu.WorkItems.Forest.{IsForest}
use vera_mmu.Chain.Backed.{
  IsBacked, DecisionIsBacked, ProofIsBacked, Extends, Extends-DecisionIsBacked,
  Extends-ProofIsBacked,
}
use vera_mmu.Executions.Allowed.{IsAllowed}
use vera_mmu.Relations.Typed.{IsTyped}
use vera_mmu.Calls.Founded.{IsFounded}
use vera_mmu.Calls.Views.{
  hide_items, hide_history, hide_graph, hide_gates, hide_policies, hide_chain, hide_lines,
  hide_checks, hide_runs, hide_registry,
}

-- Each item's history follows the machine; the dependencies and the successions have no cycle, and each
-- succession is a line; the policy of a gate can be met; each parent is recorded before its children;
-- decisions and proofs are backed by the rows they name; each execution is allowed, and each evidence
-- names an execution; entities and relations are typed.
pub record IsSound (platform : Platform) (t : Tables) : Type 0 where
  pub recorded : IsRecorded t
  pub ordered : IsOrdered t
  pub satisfiable : IsSatisfiable t
  pub lines : HasLines t
  pub forest : IsForest t
  pub backed : IsBacked platform t
  pub allowed : IsAllowed t
  pub founded : IsFounded t
  pub typed : IsTyped platform t

-- the two parts of `HasLines`, of the rows alone
abbrev Flat : List Supersession → Type 0
Flat ls =
    IsAcyclic (map as_link ls)
    × All
        (λ l.
          (find (λ (x : Supersession). x.predecessor_id == l.predecessor_id) ls ≡ some l)
          × (find (λ (x : Supersession). x.successor_id == l.successor_id) ls ≡ some l))
        ls

HasLines-same : (t u : Tables) → u.supersessions ≡ t.supersessions → HasLines t → HasLines u
unfolding succession successor_row predecessor_row
HasLines-same t u same h =
    let flat : Flat t.supersessions = (h.acyclic, h.lines) in
    let moved = subst Flat (sym same) flat in record { acyclic = moved.0; lines = moved.1 }

IsBacked-same :
    (platform : Platform) (t u : Tables)
    → u.evidence ≡ t.evidence
    → u.admissions ≡ t.admissions
    → u.proofs ≡ t.proofs
    → IsBacked platform t
    → IsBacked platform u
IsBacked-same platform t u evidence admissions proofs h =
    let x : Extends t u = record {
      more_evidence = [];
      more_admissions = [];
      evidence_grows = evidence ∙ sym (append-nil t.evidence);
      admissions_grow = admissions ∙ sym (append-nil t.admissions);
    } in
    record {
      decisions =
          subst (All (λ a. DecisionIsBacked u a)) (sym admissions)
            (All-map _ _ t.admissions (λ a b. Extends-DecisionIsBacked t u a x b) h.decisions);
      proofs =
          subst (All (λ q. ProofIsBacked platform u q)) (sym proofs)
            (All-map _ _ t.proofs (λ q b. Extends-ProofIsBacked platform t u q x b) h.proofs);
    }

pub IsSound-hide_items :
    (platform : Platform) (t u : Tables)
    → hide_items u ≡ hide_items t
    → IsForest u
    → IsSound platform t
    → IsSound platform u
unfolding hide_items dependency_edges requirements events_of
IsSound-hide_items platform t u e forest h = record {
  recorded = subst IsRecorded (sym e) h.recorded;
  ordered = subst IsOrdered (sym e) h.ordered;
  satisfiable = subst IsSatisfiable (sym e) h.satisfiable;
  lines = HasLines-same t u (ap (λ (v : Tables). v.supersessions) e) h.lines;
  forest = forest;
  backed =
      IsBacked-same platform t u (ap (λ (v : Tables). v.evidence) e)
        (ap (λ (v : Tables). v.admissions) e) (ap (λ (v : Tables). v.proofs) e) h.backed;
  allowed = subst IsAllowed (sym e) h.allowed;
  founded = subst IsFounded (sym e) h.founded;
  typed = subst (IsTyped platform) (sym e) h.typed;
}

pub IsSound-hide_history :
    (platform : Platform) (t u : Tables)
    → hide_history u ≡ hide_history t
    → IsRecorded u
    → IsSound platform t
    → IsSound platform u
unfolding hide_history dependency_edges requirements events_of
IsSound-hide_history platform t u e recorded h = record {
  recorded = recorded;
  ordered = subst IsOrdered (sym e) h.ordered;
  satisfiable = subst IsSatisfiable (sym e) h.satisfiable;
  lines = HasLines-same t u (ap (λ (v : Tables). v.supersessions) e) h.lines;
  forest = subst IsForest (sym e) h.forest;
  backed =
      IsBacked-same platform t u (ap (λ (v : Tables). v.evidence) e)
        (ap (λ (v : Tables). v.admissions) e) (ap (λ (v : Tables). v.proofs) e) h.backed;
  allowed = subst IsAllowed (sym e) h.allowed;
  founded = subst IsFounded (sym e) h.founded;
  typed = subst (IsTyped platform) (sym e) h.typed;
}

pub IsSound-hide_graph :
    (platform : Platform) (t u : Tables)
    → hide_graph u ≡ hide_graph t
    → IsOrdered u
    → IsSound platform t
    → IsSound platform u
unfolding hide_graph dependency_edges requirements events_of
IsSound-hide_graph platform t u e ordered h = record {
  recorded = subst IsRecorded (sym e) h.recorded;
  ordered = ordered;
  satisfiable = subst IsSatisfiable (sym e) h.satisfiable;
  lines = HasLines-same t u (ap (λ (v : Tables). v.supersessions) e) h.lines;
  forest = subst IsForest (sym e) h.forest;
  backed =
      IsBacked-same platform t u (ap (λ (v : Tables). v.evidence) e)
        (ap (λ (v : Tables). v.admissions) e) (ap (λ (v : Tables). v.proofs) e) h.backed;
  allowed = subst IsAllowed (sym e) h.allowed;
  founded = subst IsFounded (sym e) h.founded;
  typed = subst (IsTyped platform) (sym e) h.typed;
}

pub IsSound-hide_gates :
    (platform : Platform) (t u : Tables)
    → hide_gates u ≡ hide_gates t
    → IsSatisfiable u
    → IsSound platform t
    → IsSound platform u
unfolding hide_gates dependency_edges requirements events_of
IsSound-hide_gates platform t u e satisfiable h = record {
  recorded = subst IsRecorded (sym e) h.recorded;
  ordered = subst IsOrdered (sym e) h.ordered;
  satisfiable = satisfiable;
  lines = HasLines-same t u (ap (λ (v : Tables). v.supersessions) e) h.lines;
  forest = subst IsForest (sym e) h.forest;
  backed =
      IsBacked-same platform t u (ap (λ (v : Tables). v.evidence) e)
        (ap (λ (v : Tables). v.admissions) e) (ap (λ (v : Tables). v.proofs) e) h.backed;
  allowed = subst IsAllowed (sym e) h.allowed;
  founded = subst IsFounded (sym e) h.founded;
  typed = subst (IsTyped platform) (sym e) h.typed;
}

pub IsSound-hide_policies :
    (platform : Platform) (t u : Tables)
    → hide_policies u ≡ hide_policies t
    → IsSound platform t
    → IsSound platform u
unfolding hide_policies dependency_edges requirements events_of
IsSound-hide_policies platform t u e h = record {
  recorded = subst IsRecorded (sym e) h.recorded;
  ordered = subst IsOrdered (sym e) h.ordered;
  satisfiable = subst IsSatisfiable (sym e) h.satisfiable;
  lines = HasLines-same t u (ap (λ (v : Tables). v.supersessions) e) h.lines;
  forest = subst IsForest (sym e) h.forest;
  backed =
      IsBacked-same platform t u (ap (λ (v : Tables). v.evidence) e)
        (ap (λ (v : Tables). v.admissions) e) (ap (λ (v : Tables). v.proofs) e) h.backed;
  allowed = subst IsAllowed (sym e) h.allowed;
  founded = subst IsFounded (sym e) h.founded;
  typed = subst (IsTyped platform) (sym e) h.typed;
}

pub IsSound-hide_chain :
    (platform : Platform) (t u : Tables)
    → hide_chain u ≡ hide_chain t
    → IsBacked platform u
    → IsFounded u
    → IsSound platform t
    → IsSound platform u
unfolding hide_chain dependency_edges requirements events_of
IsSound-hide_chain platform t u e backed founded h = record {
  recorded = subst IsRecorded (sym e) h.recorded;
  ordered = subst IsOrdered (sym e) h.ordered;
  satisfiable = subst IsSatisfiable (sym e) h.satisfiable;
  lines = HasLines-same t u (ap (λ (v : Tables). v.supersessions) e) h.lines;
  forest = subst IsForest (sym e) h.forest;
  backed = backed;
  allowed = subst IsAllowed (sym e) h.allowed;
  founded = founded;
  typed = subst (IsTyped platform) (sym e) h.typed;
}

pub IsSound-hide_lines :
    (platform : Platform) (t u : Tables)
    → hide_lines u ≡ hide_lines t
    → HasLines u
    → IsSound platform t
    → IsSound platform u
unfolding hide_lines dependency_edges requirements events_of
IsSound-hide_lines platform t u e lines h = record {
  recorded = subst IsRecorded (sym e) h.recorded;
  ordered = subst IsOrdered (sym e) h.ordered;
  satisfiable = subst IsSatisfiable (sym e) h.satisfiable;
  lines = lines;
  forest = subst IsForest (sym e) h.forest;
  backed =
      IsBacked-same platform t u (ap (λ (v : Tables). v.evidence) e)
        (ap (λ (v : Tables). v.admissions) e) (ap (λ (v : Tables). v.proofs) e) h.backed;
  allowed = subst IsAllowed (sym e) h.allowed;
  founded = subst IsFounded (sym e) h.founded;
  typed = subst (IsTyped platform) (sym e) h.typed;
}

pub IsSound-hide_checks :
    (platform : Platform) (t u : Tables)
    → hide_checks u ≡ hide_checks t
    → IsSound platform t
    → IsSound platform u
unfolding hide_checks dependency_edges requirements events_of
IsSound-hide_checks platform t u e h = record {
  recorded = subst IsRecorded (sym e) h.recorded;
  ordered = subst IsOrdered (sym e) h.ordered;
  satisfiable = subst IsSatisfiable (sym e) h.satisfiable;
  lines = HasLines-same t u (ap (λ (v : Tables). v.supersessions) e) h.lines;
  forest = subst IsForest (sym e) h.forest;
  backed =
      IsBacked-same platform t u (ap (λ (v : Tables). v.evidence) e)
        (ap (λ (v : Tables). v.admissions) e) (ap (λ (v : Tables). v.proofs) e) h.backed;
  allowed = subst IsAllowed (sym e) h.allowed;
  founded = subst IsFounded (sym e) h.founded;
  typed = subst (IsTyped platform) (sym e) h.typed;
}

pub IsSound-hide_runs :
    (platform : Platform) (t u : Tables)
    → hide_runs u ≡ hide_runs t
    → IsAllowed u
    → IsFounded u
    → IsSound platform t
    → IsSound platform u
unfolding hide_runs dependency_edges requirements events_of
IsSound-hide_runs platform t u e allowed founded h = record {
  recorded = subst IsRecorded (sym e) h.recorded;
  ordered = subst IsOrdered (sym e) h.ordered;
  satisfiable = subst IsSatisfiable (sym e) h.satisfiable;
  lines = HasLines-same t u (ap (λ (v : Tables). v.supersessions) e) h.lines;
  forest = subst IsForest (sym e) h.forest;
  backed =
      IsBacked-same platform t u (ap (λ (v : Tables). v.evidence) e)
        (ap (λ (v : Tables). v.admissions) e) (ap (λ (v : Tables). v.proofs) e) h.backed;
  allowed = allowed;
  founded = founded;
  typed = subst (IsTyped platform) (sym e) h.typed;
}

pub IsSound-hide_registry :
    (platform : Platform) (t u : Tables)
    → hide_registry u ≡ hide_registry t
    → IsTyped platform u
    → IsSound platform t
    → IsSound platform u
unfolding hide_registry dependency_edges requirements events_of
IsSound-hide_registry platform t u e typed h = record {
  recorded = subst IsRecorded (sym e) h.recorded;
  ordered = subst IsOrdered (sym e) h.ordered;
  satisfiable = subst IsSatisfiable (sym e) h.satisfiable;
  lines = HasLines-same t u (ap (λ (v : Tables). v.supersessions) e) h.lines;
  forest = subst IsForest (sym e) h.forest;
  backed =
      IsBacked-same platform t u (ap (λ (v : Tables). v.evidence) e)
        (ap (λ (v : Tables). v.admissions) e) (ap (λ (v : Tables). v.proofs) e) h.backed;
  allowed = subst IsAllowed (sym e) h.allowed;
  founded = subst IsFounded (sym e) h.founded;
  typed = typed;
}
