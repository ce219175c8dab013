-- ===== src/Examples/Reports.antt =====
-- The report of a gate that asks for a judgment.
use vera_mmu.Common.{◌≢◌, refl, true, ok, some}
use vera_mmu.Store.{Store}
use vera_mmu.Gates.Declare.{declare}
use vera_mmu.Chain.Promote.{promote}
use vera_mmu.GateReports.{report_gate}
use vera_mmu.GateReports.Honest.{report_is_honest}
use vera_mmu.Examples.Chain.{platform, judged, run_chain, digest}

abbrev judged_gate : Store
judged_gate = (declare "g1" "a" "p1" "system" "t2" judged).1

report_is_honest_example :
    (promote platform (some "key") "proof" "k1" "p1" "d1" "system" "t3" judged_gate).0
    ≢ ok (record {
      id = "proof";
      knowledge_id = "k1";
      evidence_id = "p1";
      admission_id = "d1";
      hmac_required = true;
      hmac_digest = some digest;
      created_at = "t3";
      created_by = "system";
    })
unfolding run_chain report_gate
report_is_honest_example =
    report_is_honest platform (some "key") "g1" "proof" "k1" "p1" "d1" "system" "t3" judged_gate _ _
      refl refl refl
