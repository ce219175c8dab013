-- ===== src/Examples/Checks.antt =====
-- A validation of a small evidence.
use vera_mmu.Common.{refl, none, all}
use vera_mmu.Store.{Store}
use vera_mmu.Validators.Register.{register}
use vera_mmu.Validators.Rules.{validator_kind_of}
use vera_mmu.Validators.Register.{validator_is_valid, same_kind}
use vera_mmu.Validators.Validate.{validate, result_is_valid}
use vera_mmu.Validators.Verdicts.{IsEarned, passed-IsEarned}
use vera_mmu.Examples.Chain.{platform, evidenced, run_chain}

abbrev with_validator : Store
with_validator = (register platform "hasher" "EVIDENCE_HASH" none "system" "t1" evidenced).1

passed-IsEarned_example : IsEarned platform with_validator.tables "hasher" "p1"
unfolding run_chain register validator_kind_of validator_is_valid same_kind validate result_is_valid
    all
passed-IsEarned_example =
    passed-IsEarned platform "v2" "hasher" "p1" "system" "t2" with_validator _ refl refl
