-- ===== src/Entities.antt =====
-- `EntityService` of src/vera_mmu/entities.py: types of entities, and entities that are created one by one
-- or in batches.
pub mod Writes
pub mod Prepared
pub mod Batches
pub mod Batch
use vera_mmu.Common.{
  ℕ, String, Bool, true, false, not, ◌&&◌, ◌||◌, ◌==◌, text_Eq, nat_eq, leb, Option, none, some,
  List, [], ◌∷◌, ◌++◌, find, all, map, is_some, length, pure, gets, require, refuse, or_raise,
  raise, ◌>>=◌, ◌>>◌,
}
use vera_mmu.Common.Text.{is_canonical_text, is_stripped, len, codes}
use vera_mmu.Addressing.{is_address_of, make_address, AddressError}
use vera_mmu.Store.{Tables, Store, Method, Rows, raised, atomic, append_audit, insert, has_length}
use vera_mmu.Store.Rows.{EntityType, Entity, text}
use vera_mmu.Gates.Declare.{has_duplicates}
use vera_mmu.WorkItems.{address_or_empty}
use vera_mmu.Chain.Platform.{Platform, Json, json_object, Members, no_members, object_of}

pub data EntityError : Type 0 where
  invalid_type_id invalid_label invalid_title invalid_description invalid_actor : EntityError
  not_canonical invalid_entity_id invalid_batch_size duplicate_identifiers : EntityError
  type_exists unknown_type invalid_type invalid_entity invalid_batch : EntityError
  type_unreadable entity_unreadable json_unreadable entity_not_found : EntityError

is_letter : ℕ → Bool
is_letter c = leb 97 c && leb c 122

is_type_code : ℕ → Bool
unfolding is_letter
is_type_code c = is_letter c || leb 48 c && leb c 57 || nat_eq c 45

abbrev matches_type : List ℕ → Bool
unfolding is_letter is_type_code
matches_type [] = false
matches_type (c ∷ cs) = is_letter c && all is_type_code cs

-- `ENTITY_TYPE_ID_RE.fullmatch`: [a-z][a-z0-9-]{0,63}
unfoldable pub is_type_id : String → Bool
unfolding len matches_type
is_type_id s = leb (len s) 64 && matches_type (codes s)

-- `EntityCreateInput`
pub record EntityCreateInput : Type 0 where
  pub identifier : String
  pub title : String
  pub description : String
  pub metadata : Option Members

pub record TypeView : Type 0 where
  pub row : EntityType
  pub schema : Members

pub record EntityView : Type 0 where
  pub row : Entity
  pub metadata : Members
  pub address : String

unfoldable pub find_type : Tables → String → Option EntityType
find_type t id = find (λ x. x.id == id) t.entity_types

unfoldable pub find_entity : Tables → String → Option Entity
find_entity t id = find (λ e. e.id == id) t.entities

-- `_require_optional_text`
abbrev pub require_description : String → Method EntityError Unit
require_description s = require (is_stripped s) (raised invalid_description)

module _ (platform : Platform) where
  -- `_require_json_object`
  unfoldable pub json_or_empty : Option Members → Method EntityError Json
  json_or_empty none = pure (json_object no_members)
  json_or_empty (some ms) =
      or_raise (platform.loads (platform.canonical_json (json_object ms))) (raised not_canonical)

  -- the constraints of `entity_type` and of `entity`
  unfoldable pub type_is_valid : Tables → EntityType → Bool
  unfolding has_length find_type
  type_is_valid t x =
      has_length 1 64 x.id
      && not (is_some (find_type t x.id))
      && has_length 1 256 x.label
      && is_some (platform.loads x.schema_json)
      && has_length 1 256 x.created_by

  unfoldable pub entity_is_valid : Tables → Entity → Bool
  unfolding has_length find_type find_entity
  entity_is_valid t e =
      has_length 1 256 e.id
      && not (is_some (find_entity t e.id))
      && is_some (find_type t e.type_id)
      && has_length 1 1024 e.title
      && is_some (platform.loads e.metadata_json)
      && has_length 1 256 e.created_by

  unfoldable pub insert_type : {E : Type 0} → EntityType → Rows E Unit
  unfolding type_is_valid
  insert_type x =
      insert (λ t. type_is_valid t x) (λ t. record t { entity_types = t.entity_types ++ x ∷ [] })

  unfoldable pub insert_entity : {E : Type 0} → Entity → Rows E Unit
  unfolding entity_is_valid
  insert_entity e =
      insert (λ t. entity_is_valid t e) (λ t. record t { entities = t.entities ++ e ∷ [] })

  -- the block of `register_type`
  unfoldable pub register_type_rows : EntityType → Rows EntityError EntityType
  unfolding insert_type find_type
  register_type_rows x = do
    insert_type x
    found ← gets (λ t. find_type t x.id)
    row ← or_raise found (raised type_unreadable)
    append_audit x.created_at "ENTITY_TYPE_REGISTERED"
        (("entity_type_id", text x.id) ∷ ("actor", text x.created_by) ∷ [])
    pure row

  -- the statements that write one entity
  unfoldable pub create_one : Entity → Rows EntityError Entity
  unfolding insert_entity find_entity
  create_one e = do
    insert_entity e
    found ← gets (λ t. find_entity t e.id)
    row ← or_raise found (raised entity_unreadable)
    append_audit e.created_at "ENTITY_CREATED" (
        ("entity_id", text e.id)
        ∷ ("entity_type_id", text e.type_id)
        ∷ ("actor", text e.created_by)
        ∷ [])
    pure row

  -- the block of `create`
  unfoldable pub create_entity_rows : Entity → Rows EntityError Entity
  unfolding create_one find_type
  create_entity_rows e = do
    known ← gets (λ t. is_some (find_type t e.type_id))
    require known (raised unknown_type)
    create_one e

  -- `_decode_json_object`
  unfoldable pub read_object : String → Method EntityError Members
  read_object s = or_raise (object_of (platform.loads s)) (raised json_unreadable)

  -- `_entity_type_from_row`
  unfoldable pub read_type : EntityType → Method EntityError TypeView
  unfolding read_object
  read_type x = do schema ← read_object x.schema_json; pure (record { row = x; schema = schema })

  -- `_entity_from_row`; the identifier of a stored row has an address
  unfoldable pub read_entity : Entity → Method EntityError EntityView
  unfolding read_object make_address
  read_entity e = do
    metadata ← read_object e.metadata_json
    address ← gets (λ s. make_address s.project_id "entity" e.id)
    pure (record { row = e; metadata = metadata; address = address_or_empty address })

  -- `_require_entity_identifier`
  unfoldable pub require_entity_id : String → Method EntityError Unit
  unfolding is_address_of
  require_entity_id id = do
    formed ← gets (λ s. is_address_of s.project_id "entity" id)
    require formed (raised invalid_entity_id)

  abbrev pub type_row : String → String → String → Json → String → String → EntityType
  type_row id label description schema actor now = record {
    id = id;
    label = label;
    description = description;
    schema_json = platform.canonical_json schema;
    created_at = now;
    created_by = actor;
  }

  abbrev pub entity_row : String → EntityCreateInput → Json → String → String → Entity
  entity_row type new metadata actor now = record {
    id = new.identifier;
    type_id = type;
    title = new.title;
    description = new.description;
    metadata_json = platform.canonical_json metadata;
    created_at = now;
    created_by = actor;
  }

  -- `EntityService.register_type`
  unfoldable pub register_type :
      String → String → String → Option Members → String → String → Method EntityError TypeView
  unfolding register_type_rows read_type is_type_id json_or_empty
  register_type type label description schema actor now = do
    require (is_type_id type) (raised invalid_type_id)
    require (is_canonical_text 256 label) (raised invalid_label)
    require_description description
    decoded ← json_or_empty schema
    require (is_canonical_text 256 actor) (raised invalid_actor)
    row ←
        atomic invalid_type (register_type_rows (type_row type label description decoded actor now))
    read_type row

  -- `EntityService.create`
  unfoldable pub create_entity :
      String → EntityCreateInput → String → String → Method EntityError EntityView
  unfolding create_entity_rows read_entity require_entity_id is_type_id json_or_empty
  create_entity type new actor now = do
    require_entity_id new.identifier
    require (is_type_id type) (raised invalid_type_id)
    require (is_canonical_text 1024 new.title) (raised invalid_title)
    require_description new.description
    metadata ← json_or_empty new.metadata
    require (is_canonical_text 256 actor) (raised invalid_actor)
    row ← atomic invalid_entity (create_entity_rows (entity_row type new metadata actor now))
    read_entity row

  -- `EntityService.get`
  unfoldable pub get_entity : String → Method EntityError EntityView
  unfolding read_entity find_entity require_entity_id
  get_entity id = do
    require_entity_id id
    found ← gets (λ s. find_entity s.tables id)
    row ← or_raise found (raised entity_not_found)
    read_entity row
