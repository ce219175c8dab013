-- ===== src/GateReports/Honest.antt =====
-- What a report of src/vera_mmu/gate_reports.py says about promotion is what src/vera_mmu/proofs.py does.
use vera_mmu.Common.{
  String, Bool, true, false, ◌==◌, text_Eq, text_iff, ◌≡◌, ◌≢◌, refl, sym, ◌∙◌, ap, Option, none,
  some, List, [], ◌∷◌, any, contains, Result, ok, err, arith, Bool-cases, inl, inr, ◌||◌,
}
use vera_mmu.Common.Text.{is_plain_identifier}
use vera_mmu.Store.{Tables, Store}
use vera_mmu.Store.Rows.{Evidence, Gate, KnowledgeProof}
use vera_mmu.WorkGraph.{GateError}
use vera_mmu.Gates.{GateEvaluation, requirements, evaluate}
use vera_mmu.Gates.Declare.{find_gate}
use vera_mmu.Chain.Platform.{Platform}
use vera_mmu.Chain.Classes.{classify, technical_validation, may_create_proof}
use vera_mmu.Chain.Promote.{promote}
use vera_mmu.Chain.Backed.{find_evidence}
use vera_mmu.Chain.Refusals.{opinion_never_proves}
use vera_mmu.GateReports.{
  ReportError, RequirementView, GateReport, requirement_view, requirement_views, add_view,
  view_of_row, report_of, report_found, report_gate,
}

-- a required evidence of which the report knows that it founds nothing
view-opinion :
    (t : Tables) (id : String) (primary : Bool) (o : Option Evidence) (v : RequirementView)
    → view_of_row t id primary o ≡ ok v
    → (e : Evidence) × (o ≡ some e) × (may_create_proof e.evidence_type ≡ v.may_create_proof)
view-opinion t id primary none v h = cc
view-opinion t id primary (some e) v h = (e, refl, cc)

add_view-cases :
    (r : Result ReportError RequirementView) (rs : Result ReportError (List RequirementView))
    (vs : List RequirementView)
    → add_view r rs ≡ ok vs
    → (w : RequirementView) × (ws : List RequirementView) × (r ≡ ok w)
      × (rs ≡ ok ws)
      × (vs ≡ w ∷ ws)
add_view-cases (err e) rs vs h = cc
add_view-cases (ok v) (err e) vs h = cc
add_view-cases (ok v) (ok ws) vs h = (v, ws, refl, refl, cc)

views-opinion :
    (t : Tables) (primary : String) (ids : List String) (vs : List RequirementView)
    (evidence : String)
    → requirement_views t primary ids ≡ ok vs
    → any (λ v. v.may_create_proof) vs ≡ false
    → contains ids evidence ≡ true
    → (e : Evidence) × (find_evidence t evidence ≡ some e)
      × (may_create_proof e.evidence_type ≡ false)
unfolding requirement_views requirement_view any contains
views-opinion t primary [] vs evidence h none_proves m = cc
views-opinion t primary (id ∷ ids) vs evidence h none_proves m =
    let (w, ws, first, rest, split) =
      add_view-cases (requirement_view t id (id == primary)) (requirement_views t primary ids) vs
        h in
    let both : (w.may_create_proof || any (λ (v : RequirementView). v.may_create_proof) ws)
        ≡ false =
      sym (ap (any (λ (v : RequirementView). v.may_create_proof)) split) ∙ none_proves in
    elim (Bool-cases (id == evidence)) [
      | inl here ↦
          let (e, found, class) = view-opinion t id (id == primary) (find_evidence t id) w first in
          (
            e,
            ap (find_evidence t) (sym ((text_iff id evidence).0 here)) ∙ found,
            class ∙ ground (arith, both),
          )
      | inr later ↦
          views-opinion t primary ids ws evidence rest (ground (arith, both))
            (ground (arith, m, later))
    ]

report-views :
    (t : Tables) (g : Gate) (views : Result ReportError (List RequirementView))
    (r : Result GateError GateEvaluation) (report : GateReport)
    → report_of t g views r ≡ ok report
    → (vs : List RequirementView) × (views ≡ ok vs)
      × (report.promotion.can_create_proof ≡ any (λ v. v.may_create_proof) vs)
report-views t g (err e) r report h = cc
report-views t g (ok vs) (err e) report h = cc
report-views t g (ok vs) (ok r) report h = (vs, refl, cc)

found-views :
    (t : Tables) (id : String) (o : Option Gate) (report : GateReport)
    → report_found t id o ≡ ok report
    → (primary : String) × (vs : List RequirementView) × (requirement_views t primary
          (requirements t id)
        ≡ ok vs)
      × (report.promotion.can_create_proof ≡ any (λ v. v.may_create_proof) vs)
found-views t id none report h = cc
found-views t id (some g) report h =
    let (vs, views, proof) =
      report-views t g (requirement_views t g.evidence_id (requirements t id)) (evaluate t id)
        report h in
    (g.evidence_id, vs, views, proof)

plain-found :
    (t : Tables) (id : String) (report : GateReport)
    → report_gate t id ≡ ok report
    → report_found t id (find_gate t id) ≡ ok report
unfolding report_gate
plain-found t id report h = elim (Bool-cases (is_plain_identifier id)) [
  | inl plain ↦ ground (arith, h, plain)
  | inr odd ↦ ground (arith, h, odd)
]

technical-may :
    (e : Evidence)
    → classify e.evidence_type ≡ technical_validation
    → may_create_proof e.evidence_type ≡ true
technical-may e h = rw h refl

-- A gate that is reported as unable to create a proof never founds one: no promotion on an evidence that
-- the gate requires returns a proof.
pub report_is_honest :
    (platform : Platform) (secret : Option String)
    (g id knowledge evidence admission actor now : String) (s : Store) (report : GateReport)
    (p : KnowledgeProof)
    → report_gate s.tables g ≡ ok report
    → report.promotion.can_create_proof ≡ false
    → contains (requirements s.tables g) evidence ≡ true
    → (promote platform secret id knowledge evidence admission actor now s).0 ≢ ok p
report_is_honest platform secret g id knowledge evidence admission actor now s report p reported
      cannot required =
    let (primary, vs, views, proof) =
      found-views s.tables g (find_gate s.tables g) report
        (plain-found s.tables g report reported) in
    let (e, found, opinion) =
      views-opinion s.tables primary (requirements s.tables g) vs evidence views
        (sym proof ∙ cannot) required in
    opinion_never_proves platform secret id knowledge evidence admission actor now s e p found
      (λ technical. cc (technical-may e technical, opinion))
