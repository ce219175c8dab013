-- ===== src/Calls/Frames/Chain.antt =====
-- What the writes to evidence, decisions, proofs and validators of src/vera_mmu leave alone.
use vera_mmu.Common.{refl, String, Bool, true, false, Option, none, some, List}
use vera_mmu.Store.{Tables}
use vera_mmu.Store.Rows.{Decision, admitted, rejected, Verdict}
use vera_mmu.Store.Frame.{Leaves, leaves_rules, on_tables, Leaves-pure, Leaves-raise, Leaves-insert}
use vera_mmu.Chain.Platform.{Platform, Members}
use vera_mmu.Chain.Record.{record_evidence, record_evidence_rows, insert_evidence, read_evidence}
use vera_mmu.Chain.Decide.{
  decide, decide_rows, insert_admission, check_decision, check_binding, bind_validation,
  insert_binding,
}
use vera_mmu.Chain.Promote.{promote, promote_rows, insert_proof}
use vera_mmu.Validators.Register.{register, register_rows, insert_validator}
use vera_mmu.Validators.Validate.{validate, validate_rows, record_validation, insert_result}
use vera_mmu.Calls.Views.{hide_chain, hide_checks, hide_chain-HidesAudit, hide_checks-HidesAudit}

-- the chain from an evidence to a proof
pub record_evidence-Leaves :
    (p : Platform) (id execution type_text verdict_text : String) (content : Members)
    (actor now : String)
    → Leaves
        (on_tables hide_chain)
        (record_evidence p id execution type_text verdict_text content actor now)
unfolding record_evidence record_evidence_rows insert_evidence read_evidence hide_chain
record_evidence-Leaves p id execution type_text verdict_text content actor now =
    search (leaves_rules, hide_chain-HidesAudit) depth 60

-- the tests before a decision write nothing, whatever the view
check_binding-Leaves :
    (f : Tables → Tables) (strict : Bool) (evidence : String) (validation : Option String)
    → Leaves f (check_binding strict evidence validation)
unfolding check_binding
check_binding-Leaves f true evidence none = Leaves-raise _
check_binding-Leaves f true evidence (some v) = search leaves_rules depth 20
check_binding-Leaves f false evidence none = Leaves-pure tt
check_binding-Leaves f false evidence (some v) = Leaves-raise _

pub check_decision-Leaves :
    (f : Tables → Tables) (d : Decision) (verdict : Verdict) (evidence : String)
    (validation : Option String)
    → Leaves f (check_decision d verdict evidence validation)
unfolding check_decision
check_decision-Leaves f admitted verdict evidence validation =
    search (leaves_rules, check_binding-Leaves) depth 30
check_decision-Leaves f rejected verdict evidence none = Leaves-pure false
check_decision-Leaves f rejected verdict evidence (some v) = Leaves-raise _

bind_validation-Leaves :
    (strict : Bool) (id : String) (validation : Option String) (evidence actor now : String)
    → Leaves hide_chain (bind_validation strict id validation evidence actor now)
unfolding bind_validation insert_binding hide_chain
bind_validation-Leaves false id validation evidence actor now = Leaves-pure tt
bind_validation-Leaves true id none evidence actor now = Leaves-raise _
bind_validation-Leaves true id (some v) evidence actor now = Leaves-insert _ _ λ t. refl

pub decide-Leaves :
    (id evidence decision_text reason : String) (validation : Option String) (actor now : String)
    → Leaves (on_tables hide_chain) (decide id evidence decision_text reason validation actor now)
unfolding decide decide_rows insert_admission hide_chain
decide-Leaves id evidence decision_text reason validation actor now =
    search (leaves_rules, check_decision-Leaves, bind_validation-Leaves, hide_chain-HidesAudit)
      depth 60

pub promote-Leaves :
    (p : Platform) (secret : Option String) (id knowledge evidence admission actor now : String)
    → Leaves (on_tables hide_chain) (promote p secret id knowledge evidence admission actor now)
unfolding promote promote_rows insert_proof hide_chain
promote-Leaves p secret id knowledge evidence admission actor now =
    search (leaves_rules, hide_chain-HidesAudit) depth 60

-- the validators
pub register-Leaves :
    (p : Platform) (id kind_text : String) (keys : Option (List String)) (actor now : String)
    → Leaves (on_tables hide_checks) (register p id kind_text keys actor now)
unfolding register register_rows insert_validator hide_checks
register-Leaves p id kind_text keys actor now =
    search (leaves_rules, hide_checks-HidesAudit) depth 60

pub validate-Leaves :
    (p : Platform) (id validator evidence actor now : String)
    → Leaves (on_tables hide_checks) (validate p id validator evidence actor now)
unfolding validate validate_rows record_validation insert_result hide_checks
validate-Leaves p id validator evidence actor now =
    search (leaves_rules, hide_checks-HidesAudit) depth 60
