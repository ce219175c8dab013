-- ===== src/Validators/Verdicts.antt =====
-- What a validation that passed says of its evidence (src/vera_mmu/validators.py).
use vera_mmu.Common.{
  String, Bool, true, false, ◌==◌, text_Eq, text_iff, ◌≡◌, refl, ap, sym, ◌∙◌, Result, ok, err,
  Option, none, some, List, [], ◌∷◌, find, all, is_some, pure, lift, ◌>>=◌, arith, find-append_none,
  ◌++◌,
}
use vera_mmu.Store.{Tables, Store, Rows, Raised}
use vera_mmu.Store.Rows.{
  Validator, ValidatorKind, evidence_hash, evidence_fields, evidence_asset, ValidationResult,
  Evidence, Asset, Execution,
}
use vera_mmu.Store.Returns.{
  Returns, Returns-ok, Returns-gets, Returns-require, Returns-or_raise, Returns-insert,
  Returns-read, Returns-audit, Returns-bind, Returns-err,
}
use vera_mmu.Store.Answers.{Answers, Answers-require, Answers-atomic}
use vera_mmu.Chain.Platform.{Platform, Members, object_of}
use vera_mmu.Chain.Backed.{find_evidence}
use vera_mmu.Validators.Rules.{decode_rule, get_member, named_asset, expected_asset_hash}
use vera_mmu.Validators.Assess.{
  Assessment, assess, assess_fields, assess_asset, has_artifact, hash_of,
}
use vera_mmu.Validators.Validate.{
  record_validation, validate_rows, validate, insert_result, result_row, result_is_valid,
}

-- an asset with the expected hash, which is the artifact of the execution too
pub record AssetMatches (t : Tables) (e : Evidence) (content : Members) : Type 0 where
  pub asset : Asset
  pub execution : Execution
  pub named : named_asset t (get_member content "asset_id") ≡ some asset
  pub executed : find (λ x. x.id == e.execution_id) t.executions ≡ some execution
  pub same :
      asset.content_hash ≡ expected_asset_hash (get_member content "asset_hash") e.content_hash
  pub artifact : execution.artifact_hash ≡ some asset.content_hash

-- what each kind of validator promises
abbrev pub Promise : Platform → Tables → Validator → Evidence → Members → ValidatorKind → Type 0
Promise platform t v e content evidence_hash = hash_of platform content ≡ e.content_hash
Promise platform t v e content evidence_fields =
    (ks : List String) × (decode_rule (platform.loads v.rule_json) ≡ some ks)
    × (all (λ k. is_some (get_member content k)) ks ≡ true)
Promise platform t v e content evidence_asset = AssetMatches t e content

-- the validator and the evidence were there, and the promise holds of the content
pub record IsEarned (platform : Platform) (t : Tables) (validator evidence : String) : Type 0 where
  pub rule : Validator
  pub row : Evidence
  pub content : Members
  pub registered : find (λ v. v.id == validator) t.validators ≡ some rule
  pub recorded : find_evidence t evidence ≡ some row
  pub decoded : object_of (platform.loads row.content_json) ≡ some content
  pub promise : Promise platform t rule row content rule.kind

fields-Promise :
    (platform : Platform) (t : Tables) (v : Validator) (e : Evidence) (content : Members)
    (ks : Option (List String)) (a : Assessment)
    → decode_rule (platform.loads v.rule_json) ≡ ks
    → assess_fields platform ks content ≡ ok a
    → a.passed ≡ true
    → Promise platform t v e content evidence_fields
fields-Promise platform t v e content none a d h p = cc
fields-Promise platform t v e content (some ks) a d h p = (ks, d, cc)

artifact-some :
    (x : Execution) (h : String) → has_artifact (some x) h ≡ true → x.artifact_hash ≡ some h
artifact-some x h p = go x.artifact_hash p
  where
    go :
        (o : Option String)
        → (elim o as (λ _. Bool) [ none ↦ false | some g ↦ g == h ]) ≡ true
        → o ≡ some h
    go none p = cc
    go (some g) p = ap some ((text_iff g h).0 p)

asset-Promise :
    (t : Tables) (e : Evidence) (content : Members) (o : Option Asset) (x : Option Execution)
    → named_asset t (get_member content "asset_id") ≡ o
    → find (λ x. x.id == e.execution_id) t.executions ≡ x
    → (assess_asset o x
        (expected_asset_hash (get_member content "asset_hash") e.content_hash)).passed
      ≡ true
    → AssetMatches t e content
asset-Promise t e content none x named executed p = cc
asset-Promise t e content (some a) none named executed p = ground (arith, p)
asset-Promise t e content (some a) (some x) named executed p =
    let expected = expected_asset_hash (get_member content "asset_hash") e.content_hash in
    let same : a.content_hash ≡ expected =
      (text_iff a.content_hash expected).0 (ground (arith, p)) in
    record {
      asset = a;
      execution = x;
      named = named;
      executed = executed;
      same = same;
      artifact = artifact-some x expected (ground (arith, p)) ∙ ap some (sym same);
    }

assess-Promise :
    (platform : Platform) (t : Tables) (v : Validator) (k : ValidatorKind) (e : Evidence)
    (content : Members) (a : Assessment)
    → assess platform t v k e content ≡ ok a
    → a.passed ≡ true
    → Promise platform t v e content k
assess-Promise platform t v evidence_hash e content a h p =
    (text_iff (hash_of platform content) e.content_hash).0 (ground (arith, h, p))
assess-Promise platform t v evidence_fields e content a h p =
    fields-Promise platform t v e content (decode_rule (platform.loads v.rule_json)) a refl h p
assess-Promise platform t v evidence_asset e content a h p =
    asset-Promise t e content _ _ refl refl (ground (arith, h, p))

Returns-lift {ℓ} :
    {E A B : Type 0} {Q : B → Tables → Type ℓ} (r : Result (Raised E) A) (f : A → Rows E B)
    (t : Tables)
    → ((a : A) → r ≡ ok a → Returns Q (f a t))
    → Returns Q ((lift r >>= f) t)
unfolding ◌>>=◌
Returns-lift (ok a) f t h = h a refl
Returns-lift (err x) f t h = Returns-err x t

result-inserted :
    (t : Tables) (r q : ValidationResult)
    → result_is_valid t r ≡ true
    → find (λ p. p.id == r.id) (t.validation_results ++ r ∷ []) ≡ some q
    → q ≡ r
unfolding result_is_valid find
result-inserted t r q valid found = ground (
  arith,
  find-append_none (λ (p : ValidationResult). p.id == r.id) t.validation_results (r ∷ []),
  text_iff r.id r.id,
)

record_validation-Returns :
    (platform : Platform) (required : Option ValidatorKind)
    (id validator evidence actor now : String) (t : Tables)
    → Returns
        (λ r u. r.passed ≡ true → IsEarned platform t validator evidence)
        (record_validation platform required id validator evidence actor now t)
unfolding record_validation insert_result
record_validation-Returns platform required id validator evidence actor now t = Returns-gets _ _ _ (
    Returns-or_raise _ _ _ _ λ (v : Validator) registered. Returns-gets _ _ _ (
      Returns-or_raise _ _ _ _ λ (e : Evidence) recorded. Returns-require _ _ _ _ λ kind.
        Returns-or_raise _ _ _ _ λ (content : Members) decoded. Returns-gets _ _ _ (
          Returns-lift _ _ _ λ (a : Assessment) assessed. Returns-insert _ _ _ _ λ valid.
            Returns-gets _ _ _ (
              Returns-read _ _ _ λ r found passed.
                let same =
                  result-inserted t (result_row id validator evidence a actor now) r valid found in
                record {
                  rule = v;
                  row = e;
                  content = content;
                  registered = registered;
                  recorded = recorded;
                  decoded = decoded;
                  promise =
                      assess-Promise platform t v v.kind e content a assessed
                        (sym (ap (λ (q : ValidationResult). q.passed) same) ∙ passed);
                }))))

-- A validation that returns with the verdict PASS was made by a registered rule on a recorded evidence,
-- and what the rule promises holds: the content has the recorded hash, or has every required key, or
-- names an asset whose hash is the expected one and the artifact of the execution.
pub passed-IsEarned :
    (platform : Platform) (id validator evidence actor now : String) (s : Store)
    (r : ValidationResult)
    → (validate platform id validator evidence actor now s).0 ≡ ok r
    → r.passed ≡ true
    → IsEarned platform s.tables validator evidence
unfolding validate validate_rows pure
passed-IsEarned platform id validator evidence actor now s r returned passed =
    let earned : Answers (λ q u. q.passed ≡ true → IsEarned platform s.tables validator evidence)
        (validate platform id validator evidence actor now s) =
      Answers-require _ _ _ _ λ formed. Answers-atomic _ _ _ (
        Returns-bind _ _ _
          (record_validation-Returns platform none id validator evidence actor now s.tables)
          (λ q u h. Returns-audit _ _ _ _ _ λ audit. Returns-ok q _ h)) in
    earned.at r returned passed
