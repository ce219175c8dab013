-- ===== src/Validators/Assess.antt =====
-- The verdict of each kind of validator of src/vera_mmu/validators.py.
use vera_mmu.Common.{
  String, Bool, false, ◌&&◌, ◌==◌, text_Eq, Result, ok, err, Option, none, some, List, find, all,
  is_some,
}
use vera_mmu.Store.{Tables, Raised, raised}
use vera_mmu.Store.Rows.{
  Validator, ValidatorKind, evidence_hash, evidence_fields, evidence_asset, Evidence, Asset,
  Execution,
}
use vera_mmu.Chain.Platform.{Platform, json_list, json_object, Members, no_members, member}
use vera_mmu.Validators.Rules.{
  ValidatorError, decode_rule, expected_asset_hash, get_member, items_of, named_asset, invalid_rule,
}

pub record Assessment : Type 0 where
  pub expected : String
  pub observed : Option String
  pub passed : Bool

abbrev pub has_artifact : Option Execution → String → Bool
has_artifact none h = false
has_artifact (some x) h = elim x.artifact_hash [ none ↦ false | some g ↦ g == h ]

abbrev pub assess_asset : Option Asset → Option Execution → String → Assessment
assess_asset none execution expected = record {
  expected = expected;
  observed = none;
  passed = false;
}
assess_asset (some a) execution expected = record {
  expected = expected;
  observed = some a.content_hash;
  passed = a.content_hash == expected && has_artifact execution expected;
}

module _ (platform : Platform) where
  -- `_hash`
  abbrev pub hash_of : Members → String
  hash_of ms = platform.sha256 (platform.canonical_json (json_object ms))

  abbrev pub assess_fields :
      Option (List String) → Members → Result (Raised ValidatorError) Assessment
  assess_fields none content = err (raised invalid_rule)
  assess_fields (some ks) content = ok (record {
    expected = hash_of (member "required_keys" (json_list (items_of ks)) no_members);
    observed = some (hash_of content);
    passed = all (λ k. is_some (get_member content k)) ks;
  })

  -- the verdict of each kind of validator
  abbrev pub assess :
      Tables
      → Validator
      → ValidatorKind
      → Evidence
      → Members
      → Result (Raised ValidatorError) Assessment
  assess t v evidence_hash e content = ok (record {
    expected = e.content_hash;
    observed = some (hash_of content);
    passed = hash_of content == e.content_hash;
  })
  assess t v evidence_fields e content =
      assess_fields (decode_rule (platform.loads v.rule_json)) content
  assess t v evidence_asset e content = ok (
      assess_asset (named_asset t (get_member content "asset_id"))
        (find (λ x. x.id == e.execution_id) t.executions)
        (expected_asset_hash (get_member content "asset_hash") e.content_hash))
