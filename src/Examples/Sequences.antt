-- ===== src/Examples/Sequences.antt =====
-- One store, from nothing but a knowledge to a proof, by the calls of the services.
use vera_mmu.Common.{◌≡◌, refl, false, text_Eq, where_rows, none, List, [], ◌∷◌, All, length}
use vera_mmu.Graph.Acyclic.{nil-IsAcyclic}
use vera_mmu.Store.{Store}
use vera_mmu.Chain.Platform.{no_members}
use vera_mmu.Parameters.{evidence_validation_schema}
use vera_mmu.Policies.{declare_admission_policy, declare_proof_policy}
use vera_mmu.Calls.{
  Call, proof_policy, admission_policy, declare_capability, contract_capability, rule_capability,
  noop_run, record_proof, decide_on, promote_with, perform, Reached, here, after,
}
use vera_mmu.Calls.Sound.{IsSound}
use vera_mmu.Calls.Invariant.{Reached-IsSound, IsTraced, Reached-IsTraced}
use vera_mmu.Examples.{store_of, empty_tables}
use vera_mmu.Examples.Chain.{run_chain}
use vera_mmu.Examples.Runs.{runs_platform, run_capabilities, hash_check, named}
use vera_mmu.Readiness.{events_of}
use vera_mmu.WorkGraph.{dependency_edges}
use vera_mmu.Supersession.{succession}

abbrev learned : Store
learned = store_of (record empty_tables { knowledge = "k1" ∷ [] })

learned-IsSound : IsSound runs_platform learned.tables
unfolding events_of dependency_edges succession where_rows
learned-IsSound = record {
  recorded = λ item. tt;
  ordered = nil-IsAcyclic;
  satisfiable = tt;
  lines = record { acyclic = nil-IsAcyclic; lines = tt };
  forest = tt;
  backed = record { decisions = tt; proofs = tt };
  allowed = tt;
  founded = tt;
  typed = (tt, tt);
}

abbrev perform_all : List Call → Store → Store
perform_all [] s = s
perform_all (c ∷ cs) s = perform_all cs (perform runs_platform c "system" "t1" s)

Reached-perform_all :
    (s : Store) (cs : List Call) (u : Store)
    → Reached runs_platform s u
    → Reached runs_platform s (perform_all cs u)
Reached-perform_all s [] u r = r
Reached-perform_all s (c ∷ cs) u r = Reached-perform_all s cs _ (after c "system" "t1" r)

-- the capability, its contract and its policy, a run of it, and an evidence of the run that is admitted and
-- becomes a proof; the last call is refused
abbrev calls : List Call
calls =
    proof_policy "HMAC_SHA256" false
    ∷ admission_policy "PASS_EVIDENCE"
    ∷ declare_capability hash_check
    ∷ contract_capability "check" "NOOP" "DENY_NETWORK" 60 evidence_validation_schema false
    ∷ rule_capability "check" "ALLOW" "safe"
    ∷ noop_run "run-1" "check" named
    ∷ record_proof "p1" "run-1" "TEST_PROOF" "PASS" no_members
    ∷ decide_on "d1" "p1" "ADMITTED" "checked" none
    ∷ promote_with none "proof" "k1" "p1" "d1"
    ∷ noop_run "run-1" "check" named
    ∷ []

abbrev ended : Store
ended = perform_all calls learned

one_proof_and_run : (length ended.tables.proofs ≡ 1) × (length ended.tables.executions ≡ 1)
unfolding run_chain run_capabilities perform declare_admission_policy declare_proof_policy
one_proof_and_run = (refl, refl)

Reached-IsSound_example : IsSound runs_platform ended.tables
Reached-IsSound_example =
    Reached-IsSound runs_platform learned ended learned-IsSound
      (Reached-perform_all learned calls learned here)

Reached-IsTraced_example : All (IsTraced ended.tables) ended.tables.proofs
Reached-IsTraced_example =
    Reached-IsTraced runs_platform learned ended learned-IsSound
      (Reached-perform_all learned calls learned here)
