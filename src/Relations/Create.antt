-- ===== src/Relations/Create.antt =====
-- The relations themselves, `create` and `get` of `RelationService` of src/vera_mmu/relations.py.
use vera_mmu.Common.{
  String, Bool, not, ◌&&◌, ◌==◌, text_Eq, Option, [], ◌∷◌, ◌++◌, find, any, is_some, pure, gets,
  require, or_raise, ◌>>=◌, ◌>>◌,
}
use vera_mmu.Common.Text.{is_canonical_text}
use vera_mmu.Addressing.{is_address_of, make_address}
use vera_mmu.Store.{Tables, Method, Rows, raised, atomic, append_audit, insert, has_length}
use vera_mmu.Store.Rows.{Relation, text}
use vera_mmu.WorkItems.{address_or_empty}
use vera_mmu.Chain.Platform.{Platform}
use vera_mmu.Entities.{is_type_id, find_entity}
use vera_mmu.Relations.{
  RelationError, enforce, find_relation_type, forbidden_source, forbidden_target, invalid_actor,
  invalid_entity_id, invalid_relation, invalid_relation_id, invalid_type_id, relation_not_found,
  relation_unreadable, unknown_source, unknown_target, unknown_type,
}

pub record RelationView : Type 0 where
  pub row : Relation
  pub address : String
  pub from_address : String
  pub to_address : String

unfoldable pub find_relation : Tables → String → Option Relation
find_relation t id = find (λ r. r.id == id) t.relations

-- `_relation_from_row`; the identifiers of a stored row have addresses
unfoldable pub read_relation : Relation → Method RelationError RelationView
unfolding make_address
read_relation r = do
  address ← gets (λ s. make_address s.project_id "relation" r.id)
  source ← gets (λ s. make_address s.project_id "entity" r.from_entity_id)
  target ← gets (λ s. make_address s.project_id "entity" r.to_entity_id)
  pure (record {
    row = r;
    address = address_or_empty address;
    from_address = address_or_empty source;
    to_address = address_or_empty target;
  })

-- `_require_relation_identifier` and `_require_entity_identifier`
unfoldable pub require_id_of : String → RelationError → String → Method RelationError Unit
unfolding is_address_of
require_id_of resource error id = do
  formed ← gets (λ s. is_address_of s.project_id resource id)
  require formed (raised error)

-- `RelationService.get`
unfoldable pub get_relation : String → Method RelationError RelationView
unfolding read_relation find_relation require_id_of
get_relation id = do
  require_id_of "relation" invalid_relation_id id
  found ← gets (λ s. find_relation s.tables id)
  row ← or_raise found (raised relation_not_found)
  read_relation row

module _ (platform : Platform) where
  unfoldable pub relation_is_valid : Tables → Relation → Bool
  unfolding has_length find_relation find_relation_type find_entity
  relation_is_valid t r =
      has_length 1 256 r.id
      && not (is_some (find_relation t r.id))
      && is_some (find_relation_type t r.relation_type_id)
      && is_some (find_entity t r.from_entity_id)
      && is_some (find_entity t r.to_entity_id)
      && has_length 1 256 r.created_by
      && not (
          any
            (λ q.
              q.from_entity_id == r.from_entity_id
              && q.relation_type_id == r.relation_type_id
              && q.to_entity_id == r.to_entity_id)
            t.relations)

  unfoldable pub insert_relation : {E : Type 0} → Relation → Rows E Unit
  unfolding relation_is_valid
  insert_relation r =
      insert (λ t. relation_is_valid t r) (λ t. record t { relations = t.relations ++ r ∷ [] })

  -- the block of `create`
  unfoldable pub create_relation_rows : Relation → Rows RelationError Relation
  unfolding enforce insert_relation find_relation find_relation_type find_entity
  create_relation_rows r = do
    found ← gets (λ t. find_relation_type t r.relation_type_id)
    type ← or_raise found (raised unknown_type)
    source ← gets (λ t. find_entity t r.from_entity_id)
    from ← or_raise source (raised unknown_source)
    target ← gets (λ t. find_entity t r.to_entity_id)
    to ← or_raise target (raised unknown_target)
    enforce platform forbidden_source type.from_types_json from.type_id
    enforce platform forbidden_target type.to_types_json to.type_id
    insert_relation r
    created ← gets (λ t. find_relation t r.id)
    row ← or_raise created (raised relation_unreadable)
    append_audit r.created_at "RELATION_CREATED" (
        ("relation_id", text r.id)
        ∷ ("relation_type_id", text r.relation_type_id)
        ∷ ("from_entity_id", text r.from_entity_id)
        ∷ ("to_entity_id", text r.to_entity_id)
        ∷ ("actor", text r.created_by)
        ∷ [])
    pure row

-- `RelationService.create`
unfoldable pub create_relation :
    Platform
    → String
    → String
    → String
    → String
    → String
    → String
    → Method RelationError RelationView
unfolding create_relation_rows read_relation require_id_of is_type_id
create_relation platform id type from to actor now = do
  require_id_of "relation" invalid_relation_id id
  require (is_type_id type) (raised invalid_type_id)
  require_id_of "entity" invalid_entity_id from
  require_id_of "entity" invalid_entity_id to
  require (is_canonical_text 256 actor) (raised invalid_actor)
  row ← atomic invalid_relation (
      create_relation_rows platform (record {
        id = id;
        relation_type_id = type;
        from_entity_id = from;
        to_entity_id = to;
        created_at = now;
        created_by = actor;
      }))
  read_relation row
