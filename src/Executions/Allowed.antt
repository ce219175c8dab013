-- ===== src/Executions/Allowed.antt =====
-- No execution is recorded for a capability whose policy is not an explicit ALLOW, and none under a contract
-- that claims to yield proof (src/vera_mmu/executions.py).
use vera_mmu.Common.{
  String, Bool, true, false, not, ◌&&◌, ◌==◌, text_Eq, Option, some, List, [], ◌∷◌, ◌++◌, ◌≡◌, refl,
  sym, ap, ◌∙◌, subst, find, find-append_some, All, All-append, arith, Result, ok, err, pure,
}
use vera_mmu.Store.{Tables, Store, Rows, Raised, raised, integrity_error, store_error}
use vera_mmu.Store.Rows.{
  Execution, CapabilityContract, CapabilityPolicy, RunnerProfile, ValidatorKind, ValidationResult,
}
use vera_mmu.Store.Keeps.{
  Keeps, Commits, Keeps-require, Keeps-refuse, Keeps-bind, Keeps-pure, Keeps-atomic,
  Keeps-transaction,
}
use vera_mmu.Store.Returns.{
  Returns, Returns-ok, Returns-bind, Returns-gets, Returns-require, Returns-or_raise,
  Returns-insert, Returns-audit, settle-Returns,
}
use vera_mmu.Store.Frame.{Leaves, Returns-Leaves, leaves_rules, Leaves-insert}
use vera_mmu.Chain.Platform.{Platform, Members}
use vera_mmu.Capabilities.Contracts.{find_contract}
use vera_mmu.Capabilities.Policies.{find_capability_policy}
use vera_mmu.Validators.Rules.{ValidatorError}
use vera_mmu.Validators.Validate.{record_validation, insert_result}
use vera_mmu.Executions.{
  ExecutionError, is_allow, is_runner, denies_network, admit, validated, rethrow, insert_execution,
  run_noop_rows, run_noop, Observation, observed_rows, record_observed_process,
}
use vera_mmu.Executions.Evidence.{
  run_evidence_rows, run_evidence, run_evidence_hash, run_evidence_fields,
}

-- the contract of a capability yields no proof, and its policy is ALLOW
pub record Permitted (contracts : List CapabilityContract) (policies : List CapabilityPolicy)
    (id : String) : Type 0 where
  pub contract : CapabilityContract
  pub contracted : find (λ c. c.capability_id == id) contracts ≡ some contract
  pub no_proof : contract.yields_proof ≡ false
  pub allowed : is_allow (find (λ p. p.capability_id == id) policies) ≡ true

abbrev pub IsAllowed : Tables → Type 0
IsAllowed t = All (λ x. Permitted t.contracts t.capability_policies x.capability_id) t.executions

-- a contract or a policy that is added later changes nothing for a capability that has one
pub Permitted-contracts :
    (cs : List CapabilityContract) (ps : List CapabilityPolicy) (c : CapabilityContract)
    (id : String)
    → Permitted cs ps id
    → Permitted (cs ++ c ∷ []) ps id
Permitted-contracts cs ps c id p = record {
  contract = p.contract;
  contracted = find-append_some (λ c. c.capability_id == id) cs (c ∷ []) p.contract p.contracted;
  no_proof = p.no_proof;
  allowed = p.allowed;
}

is_allow-append :
    (ps : List CapabilityPolicy) (p : CapabilityPolicy) (id : String)
    → is_allow (find (λ q. q.capability_id == id) ps) ≡ true
    → is_allow (find (λ q. q.capability_id == id) (ps ++ p ∷ [])) ≡ true
unfolding find
is_allow-append [] p id h = cc
is_allow-append (q ∷ ps) p id h = ground (arith, is_allow-append ps p id)

pub Permitted-policies :
    (cs : List CapabilityContract) (ps : List CapabilityPolicy) (p : CapabilityPolicy) (id : String)
    → Permitted cs ps id
    → Permitted cs (ps ++ p ∷ []) id
Permitted-policies cs ps p id h = record {
  contract = h.contract;
  contracted = h.contracted;
  no_proof = h.no_proof;
  allowed = is_allow-append ps p id h.allowed;
}

abbrev Admitted : String → Tables → Type 0
Admitted id t = IsAllowed t × Permitted t.contracts t.capability_policies id

tests-no_proof : (a b c : Bool) → (a && b && not c) ≡ true → c ≡ false
tests-no_proof a b c h = ground arith

admit-Returns :
    (runner : RunnerProfile) (capability : String) (t : Tables)
    → IsAllowed t
    → Returns (λ _ u. Admitted capability u) (admit runner capability t)
unfolding admit find_contract find_capability_policy pure
admit-Returns runner capability t h = Returns-gets _ _ _ (
    Returns-or_raise _ _ _ _ λ contract found. Returns-require _ _ _ _ λ fits. Returns-gets _ _ _ (
      Returns-require _ _ _ _ λ allowed. Returns-ok _ _ (
        h,
        record {
          contract = contract;
          contracted = found;
          no_proof =
              tests-no_proof (is_runner contract.runner_profile runner)
                (denies_network contract.network_policy) _ fits;
          allowed = allowed;
        },
      )))

pub rethrow-Leaves :
    {A : Type 0} (f : Tables → Tables) (m : Rows ValidatorError A)
    → Leaves f m
    → Leaves f (λ t. rethrow (m t))
rethrow-Leaves {A = A} f m h = record { at = λ t. ap f (go (m t)) ∙ h.at t }
  where
    go : (r : Result (Raised ValidatorError) A × Tables) → (rethrow r).1 ≡ r.1
    go (ok a, u) = refl
    go (err (raised e), u) = refl
    go (err integrity_error, u) = refl
    go (err store_error, u) = refl

module _ (platform : Platform) where
  validated-Leaves :
      (schema : Option Members) (parameters : Members)
      → Leaves (λ t. t) (validated platform schema parameters)
  unfolding validated
  validated-Leaves schema parameters = search leaves_rules depth 20

  validated-Returns :
      (schema : Option Members) (parameters : Members) (capability : String) (t : Tables)
      → Admitted capability t
      → Returns (λ _ u. Admitted capability u) (validated platform schema parameters t)
  validated-Returns schema parameters capability t h =
      Returns-Leaves (Admitted capability) _ _ t (validated-Leaves schema parameters)
        (λ u same. subst (Admitted capability) (sym same) h)

  add-IsAllowed :
      (t : Tables) (x : Execution)
      → Admitted x.capability_id t
      → IsAllowed (record t { executions = t.executions ++ x ∷ [] })
  add-IsAllowed t x h = All-append _ t.executions (x ∷ []) h.0 (h.1, tt)

  run_noop_rows-Returns :
      (id capability : String) (parameters : Members) (actor now : String) (t : Tables)
      → IsAllowed t
      → Returns (λ _ u. IsAllowed u) (run_noop_rows platform id capability parameters actor now t)
  unfolding run_noop_rows insert_execution pure
  run_noop_rows-Returns id capability parameters actor now t h =
      Returns-bind _ _ _ (admit-Returns _ _ t h) λ schema u a.
        Returns-bind _ _ _ (validated-Returns _ _ _ u a) λ values v b.
          Returns-insert _ _ _ _
            λ fits. Returns-audit _ _ _ _ _ λ audit. Returns-ok _ _ (add-IsAllowed v _ b)

  observed_rows-Returns :
      (id capability : String) (parameters : Members) (o : Observation) (actor now : String)
      (t : Tables)
      → IsAllowed t
      → Returns (λ _ u. IsAllowed u) (observed_rows platform id capability parameters o actor now t)
  unfolding observed_rows insert_execution pure
  observed_rows-Returns id capability parameters o actor now t h =
      Returns-bind _ _ _ (admit-Returns _ _ t h) λ schema u a.
        Returns-or_raise _ _ _ _ λ decoded read.
          Returns-bind _ _ _ (validated-Returns _ _ _ u a) λ values v b.
            Returns-insert _ _ _ _
              λ fits. Returns-audit _ _ _ _ _ λ audit. Returns-ok _ _ (add-IsAllowed v _ b)

  -- the view of the tables that `record_validation` does not touch
  hide_results : Tables → Tables
  hide_results t = record t { validation_results = []; audit = [] }

  insert_result-Leaves :
      {E : Type 0} (r : ValidationResult) → Leaves hide_results (insert_result {E = E} r)
  unfolding insert_result hide_results
  insert_result-Leaves r = Leaves-insert _ _ λ t. refl

  record_validation-Leaves :
      (required : Option ValidatorKind) (id validator evidence actor now : String)
      → Leaves hide_results (record_validation platform required id validator evidence actor now)
  unfolding record_validation
  record_validation-Leaves required id validator evidence actor now =
      search (leaves_rules, insert_result-Leaves) depth 40

  same_executions :
      (t u : Tables) (id : String) → hide_results u ≡ hide_results t → Admitted id t → Admitted id u
  unfolding hide_results
  same_executions t u id e h = subst (Admitted id) (sym e) h

  run_evidence_rows-Returns :
      (runner : RunnerProfile) (kind : ValidatorKind) (profile id capability : String)
      (parameters : Members) (validation actor now : String) (t : Tables)
      → IsAllowed t
      → Returns
          (λ _ u. IsAllowed u)
          (run_evidence_rows platform runner kind profile id capability parameters validation actor
            now t)
  unfolding run_evidence_rows insert_execution pure hide_results
  run_evidence_rows-Returns runner kind profile id capability parameters validation actor now t h =
      Returns-bind _ _ _ (admit-Returns _ _ t h) λ schema u a.
        Returns-or_raise _ _ _ _ λ decoded read. Returns-or_raise _ _ _ _ λ s object.
          Returns-bind _ _ _ (validated-Returns _ _ _ u a) λ values v b.
            Returns-or_raise _ _ _ _ λ vv named. Returns-or_raise _ _ _ _ λ ev named'.
              Returns-require _ _ _ _ λ bindable. Returns-gets _ _ _ (
                Returns-require _ _ _ _ λ compatible. Returns-or_raise _ _ _ _ λ validator text.
                  Returns-or_raise _ _ _ _ λ evidence text'.
                    Returns-bind _ _ _
                      (Returns-Leaves (Admitted capability) hide_results _ v
                        (rethrow-Leaves hide_results _ (
                          record_validation-Leaves (some kind) validation validator evidence actor
                            now))
                        (λ w same. same_executions v w capability same b))
                      λ result w c. Returns-insert _ _ _ _ λ fits. Returns-audit _ _ _ _ _ λ audit.
                        Returns-audit _ _ _ _ _ λ audit'. Returns-ok _ _ (add-IsAllowed w _ c))

  commits :
      {A : Type 0} (m : Rows ExecutionError A)
      → ((t : Tables) → IsAllowed t → Returns (λ _ u. IsAllowed u) (m t))
      → Commits IsAllowed m
  commits m h = record { at = λ t b. settle-Returns IsAllowed t _ (h t b) b (λ a u q. q) }

  pub run_noop-Keeps :
      (id capability : String) (parameters : Members) (actor now : String)
      → Keeps IsAllowed (run_noop platform id capability parameters actor now)
  unfolding run_noop
  run_noop-Keeps id capability parameters actor now = Keeps-require _ _ _ (
      Keeps-refuse _ _ _ (
        Keeps-bind _ _
          (Keeps-transaction _
            (commits _ (run_noop_rows-Returns id capability parameters actor now)))
          (λ values. Keeps-pure _)))

  pub record_observed_process-Keeps :
      (id capability : String) (parameters : Members) (o : Observation) (actor now : String)
      → Keeps IsAllowed (record_observed_process platform id capability parameters o actor now)
  unfolding record_observed_process
  record_observed_process-Keeps id capability parameters o actor now = Keeps-require _ _ _ (
      Keeps-require _ _ _ (
        Keeps-bind _ _
          (Keeps-atomic _ _
            (commits _ (observed_rows-Returns id capability parameters o actor now)))
          (λ values. Keeps-pure _)))

  pub run_evidence-Keeps :
      (runner : RunnerProfile) (kind : ValidatorKind) (profile id capability : String)
      (parameters : Members) (validation actor now : String)
      → Keeps IsAllowed
          (run_evidence platform runner kind profile id capability parameters validation actor now)
  unfolding run_evidence
  run_evidence-Keeps runner kind profile id capability parameters validation actor now =
      Keeps-require _ _ _ (
        Keeps-bind _ _
          (Keeps-atomic _ _ (
            commits _ (
              run_evidence_rows-Returns runner kind profile id capability parameters validation
                actor now)))
          (λ values. Keeps-pure _))

-- Whatever a runner does, each recorded execution is of a capability that has a contract, which yields no
-- proof, and the policy ALLOW: a run in the Core, an observed process, and a run of either validator.
pub runs-IsAllowed :
    (platform : Platform) (id capability : String) (parameters : Members) (o : Observation)
    (validation actor now : String) (s : Store)
    → IsAllowed s.tables
    → IsAllowed (run_noop platform id capability parameters actor now s).1.tables
      × IsAllowed (record_observed_process platform id capability parameters o actor now s).1.tables
      × IsAllowed
          (run_evidence_hash platform id capability parameters validation actor now s).1.tables
      × IsAllowed
          (run_evidence_fields platform id capability parameters validation actor now s).1.tables
unfolding run_evidence_hash run_evidence_fields
runs-IsAllowed platform id capability parameters o validation actor now s h = (
  (run_noop-Keeps platform id capability parameters actor now).at s h,
  (record_observed_process-Keeps platform id capability parameters o actor now).at s h,
  (run_evidence-Keeps platform _ _ _ id capability parameters validation actor now).at s h,
  (run_evidence-Keeps platform _ _ _ id capability parameters validation actor now).at s h,
)
