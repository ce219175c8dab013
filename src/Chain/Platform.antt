-- ===== src/Chain/Platform.antt =====
-- What the services of src/vera_mmu take of Python's `json`, `hashlib` and `hmac`, and the text of
-- `canonical_json` (src/vera_mmu/identity.py), which calls `json.dumps` with sorted keys.
use vera_mmu.Common.{String, Bool, Option, none, some}

mutual
  pub data Json : Type 0 where
    json_null : Json
    json_bool : Bool → Json
    json_number : String → Json
    json_text : String → Json
    json_list : Items → Json
    json_object : Members → Json

  pub data Items : Type 0 where
    no_items : Items
    item_of : Json → Items → Items

  pub data Members : Type 0 where
    no_members : Members
    member : String → Json → Members → Members

-- `canonical_json`, `json.dumps` with sorted keys and ASCII escapes, `json.loads`, `sha256(text.encode()).hexdigest()` and the digest of `hmac.new`
pub record Platform : Type 0 where
  pub canonical_json : Json → String
  pub dumps : Json → String
  pub loads : String → Option Json
  pub sha256 : String → String
  pub hmac_sha256 : String → String → String

-- `isinstance(content, dict)`, where the text parses
abbrev pub object_of : Option Json → Option Members
object_of none = none
object_of (some (json_object ms)) = some ms
object_of (some json_null) = none
object_of (some (json_bool _)) = none
object_of (some (json_number _)) = none
object_of (some (json_text _)) = none
object_of (some (json_list _)) = none
