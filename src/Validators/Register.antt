-- ===== src/Validators/Register.antt =====
-- `register` of src/vera_mmu/validators.py.
use vera_mmu.Common.{
  String, Bool, true, false, not, ◌&&◌, ◌==◌, text_Eq, lift, Option, none, some, List, [], ◌∷◌,
  ◌++◌, find, any, is_some, pure, gets, require, or_raise, ◌>>=◌, ◌>>◌,
}
use vera_mmu.Common.Text.{is_plain_identifier, is_canonical_text}
use vera_mmu.Store.{Tables, Method, Rows, raised, atomic_row, append_audit, insert, has_length}
use vera_mmu.Store.Rows.{
  Validator, ValidatorKind, evidence_hash, evidence_fields, evidence_asset, text,
}
use vera_mmu.Chain.Platform.{Platform, json_object}
use vera_mmu.Validators.Rules.{
  ValidatorError, rule_of, validator_kind_of, invalid_validator, invalid_actor, already_registered,
  validator_unreadable,
}

unfoldable pub same_kind : ValidatorKind → ValidatorKind → Bool
same_kind evidence_hash evidence_hash = true
same_kind evidence_hash evidence_fields = false
same_kind evidence_hash evidence_asset = false
same_kind evidence_fields evidence_hash = false
same_kind evidence_fields evidence_fields = true
same_kind evidence_fields evidence_asset = false
same_kind evidence_asset evidence_hash = false
same_kind evidence_asset evidence_fields = false
same_kind evidence_asset evidence_asset = true

abbrev pub is_required : Option ValidatorKind → ValidatorKind → Bool
is_required none kind = true
is_required (some k) kind = same_kind kind k

module _ (platform : Platform) where
  -- the constraints of `validator`: one validator of each kind
  unfoldable pub validator_is_valid : Tables → Validator → Bool
  unfolding has_length same_kind
  validator_is_valid t v =
      has_length 1 256 v.id
      && not (is_some (find (λ w. w.id == v.id) t.validators))
      && not (any (λ w. same_kind w.kind v.kind) t.validators)
      && is_some (platform.loads v.rule_json)
      && has_length 1 256 v.created_by

  unfoldable pub insert_validator : {E : Type 0} → Validator → Rows E Unit
  unfolding validator_is_valid
  insert_validator v =
      insert (λ t. validator_is_valid t v) (λ t. record t { validators = t.validators ++ v ∷ [] })

  -- the block of `register`
  unfoldable pub register_rows : Validator → String → Rows ValidatorError (Option Validator)
  unfolding insert_validator
  register_rows v kind_text = do
    insert_validator v
    row ← gets (λ t. find (λ w. w.id == v.id) t.validators)
    append_audit v.created_at "VALIDATOR_REGISTERED"
        (("validator_id", text v.id) ∷ ("kind", text kind_text) ∷ ("actor", text v.created_by) ∷ [])
    pure row

  -- `ValidatorService.register`, up to the decoding of its rule in the result
  unfoldable pub register :
      String → String → Option (List String) → String → String → Method ValidatorError Validator
  unfolding register_rows validator_kind_of
  register id kind_text keys actor now = do
    require (is_plain_identifier id) (raised invalid_validator)
    kind ← or_raise (validator_kind_of kind_text) (raised invalid_validator)
    require (is_canonical_text 256 actor) (raised invalid_actor)
    rule ← lift (rule_of kind keys)
    atomic_row already_registered validator_unreadable (
        register_rows
          (record {
            id = id;
            kind = kind;
            rule_json = platform.canonical_json (json_object rule);
            created_at = now;
            created_by = actor;
          })
          kind_text)
