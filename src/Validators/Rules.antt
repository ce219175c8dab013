-- ===== src/Validators/Rules.antt =====
-- The rules of src/vera_mmu/validators.py: `_rule`, `_decode_rule`, and what a content names.
use vera_mmu.Common.{
  ℕ, String, Bool, not, ◌&&◌, ◌||◌, ◌==◌, text_Eq, nat_eq, leb, Result, ok, err, Option, none, some,
  List, [], ◌∷◌, find, all, length, if◌then◌else◌,
}
use vera_mmu.Common.Text.{is_empty, has_code, len, codes}
use vera_mmu.Store.{Tables, Raised, raised}
use vera_mmu.Store.Rows.{ValidatorKind, evidence_hash, evidence_fields, evidence_asset, Asset}
use vera_mmu.Gates.Declare.{has_duplicates}
use vera_mmu.Chain.Platform.{
  Json, json_null, json_bool, json_number, json_text, json_list, json_object, Items, no_items,
  item_of, Members, no_members, member, object_of,
}

pub data ValidatorError : Type 0 where
  invalid_validator invalid_actor rule_forbidden invalid_keys already_registered : ValidatorError
  validator_unreadable invalid_validator_id validator_not_found invalid_rule : ValidatorError
  result_not_found invalid_validation_id unknown_validator_or_evidence not_canonical :
      ValidatorError
  invalid_result result_unreadable : ValidatorError

-- `VALIDATOR_KINDS`
unfoldable pub validator_kind_of : String → Option ValidatorKind
validator_kind_of s =
    if s == "EVIDENCE_HASH"
    then some evidence_hash
    else if s == "EVIDENCE_FIELDS"
    then some evidence_fields
    else if s == "EVIDENCE_ASSET"
    then some evidence_asset
    else none

-- `content.get(key)`
unfoldable pub get_member : Members → String → Option Json
get_member no_members k = none
get_member (member j v ms) k = let rest = get_member ms k in if j == k then some v else rest

-- one of the keys that a rule may require
unfoldable pub is_key : String → Bool
unfolding is_empty has_code len
is_key k = not (is_empty k) && not (has_code 47 k) && leb (len k) 128

unfoldable pub are_keys : List String → Bool
unfolding is_key has_duplicates
are_keys ks = leb 1 (length ks) && leb (length ks) 32 && not (has_duplicates ks) && all is_key ks

abbrev pub items_of : List String → Items
items_of [] = no_items
items_of (k ∷ ks) = item_of (json_text k) (items_of ks)

-- `_rule`
abbrev pub rule_of : ValidatorKind → Option (List String) → Result (Raised ValidatorError) Members
rule_of evidence_hash none = ok no_members
rule_of evidence_hash (some ks) = err (raised rule_forbidden)
rule_of evidence_asset none = ok no_members
rule_of evidence_asset (some ks) = err (raised rule_forbidden)
rule_of evidence_fields none = err (raised invalid_keys)
rule_of evidence_fields (some ks) =
    if are_keys ks
    then ok (member "required_keys" (json_list (items_of ks)) no_members)
    else err (raised invalid_keys)

abbrev add_key : Json → Option (List String) → Option (List String)
add_key (json_text k) (some ks) = some (k ∷ ks)
add_key (json_text k) none = none
add_key json_null _ = none
add_key (json_bool _) _ = none
add_key (json_number _) _ = none
add_key (json_list _) _ = none
add_key (json_object _) _ = none

-- a list of texts, or nothing
unfoldable pub texts_of : Items → Option (List String)
texts_of no_items = some []
texts_of (item_of j js) = add_key j (texts_of js)

abbrev not_empty : Option (List String) → Option (List String)
not_empty none = none
not_empty (some []) = none
not_empty (some (k ∷ ks)) = some (k ∷ ks)

keys_of : Option Json → Option (List String)
unfolding texts_of
keys_of none = none
keys_of (some (json_list js)) = not_empty (texts_of js)
keys_of (some json_null) = none
keys_of (some (json_bool _)) = none
keys_of (some (json_number _)) = none
keys_of (some (json_text _)) = none
keys_of (some (json_object _)) = none

abbrev required_of : Option Members → Option (List String)
required_of none = none
required_of (some ms) = keys_of (get_member ms "required_keys")

-- `_decode_rule`, of the rule that `json.loads` gives
unfoldable pub decode_rule : Option Json → Option (List String)
unfolding keys_of get_member
decode_rule j = required_of (object_of j)

unfoldable pub is_hex : ℕ → Bool
is_hex c = leb 48 c && leb c 57 || leb 97 c && leb c 102

-- the declared hash where it is a text that matches [0-9a-f]{64}, or the hash of the content
unfoldable pub expected_asset_hash : Option Json → String → String
unfolding is_hex len
expected_asset_hash none otherwise = otherwise
expected_asset_hash (some (json_text h)) otherwise =
    if nat_eq (len h) 64 && all is_hex (codes h) then h else otherwise
expected_asset_hash (some json_null) otherwise = otherwise
expected_asset_hash (some (json_bool _)) otherwise = otherwise
expected_asset_hash (some (json_number _)) otherwise = otherwise
expected_asset_hash (some (json_list _)) otherwise = otherwise
expected_asset_hash (some (json_object _)) otherwise = otherwise

-- the asset that the content names
unfoldable pub named_asset : Tables → Option Json → Option Asset
unfolding is_empty
named_asset t none = none
named_asset t (some (json_text id)) = if is_empty id then none else find (λ a. a.id == id) t.assets
named_asset t (some json_null) = none
named_asset t (some (json_bool _)) = none
named_asset t (some (json_number _)) = none
named_asset t (some (json_list _)) = none
named_asset t (some (json_object _)) = none
