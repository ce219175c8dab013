-- ===== src/Relations.antt =====
-- `RelationService` of src/vera_mmu/relations.py: the types of relations, and the test on the ends of a relation.
pub mod Typed
pub mod Create
use vera_mmu.Common.{
  ℕ, String, Bool, true, false, not, ◌&&◌, ◌||◌, ◌==◌, text_Eq, leb, Option, none, some, List, [],
  ◌∷◌, ◌++◌, find, any, all, is_some, length, contains, Result, ok, err, if◌then◌else◌, pure, gets,
  require, refuse, or_raise, lift, ◌>>=◌, ◌>>◌,
}
use vera_mmu.Common.Text.{is_canonical_text, is_stripped}
use vera_mmu.Common.Order.{order_by}
use vera_mmu.Addressing.{is_address_of, make_address}
use vera_mmu.Store.{
  Tables, Store, Method, Rows, Raised, raised, atomic, append_audit, insert, has_length,
}
use vera_mmu.Store.Rows.{Entity, RelationType, Relation, text}
use vera_mmu.Gates.Declare.{has_duplicates}
use vera_mmu.WorkItems.{address_or_empty}
use vera_mmu.Chain.Platform.{
  Platform, Json, json_null, json_bool, json_number, json_text, json_list, json_object, Items,
  no_items, item_of,
}
use vera_mmu.Validators.Rules.{texts_of}
use vera_mmu.Entities.{is_type_id, find_type, find_entity}

pub data RelationError : Type 0 where
  invalid_type_id invalid_label invalid_description invalid_actor : RelationError
  too_many_constraints invalid_constraint duplicate_constraint : RelationError
  unregistered_source unregistered_target invalid_type type_unreadable : RelationError
  invalid_relation_id invalid_entity_id unknown_type unknown_source unknown_target : RelationError
  constraints_unreadable constraints_invalid forbidden_source forbidden_target : RelationError
  invalid_relation relation_unreadable relation_not_found : RelationError

pub record RelationTypeView : Type 0 where
  pub row : RelationType
  pub from_types : List String
  pub to_types : List String

unfoldable pub find_relation_type : Tables → String → Option RelationType
find_relation_type t id = find (λ x. x.id == id) t.relation_types

-- `_require_type_constraints`
unfoldable pub type_constraints : Option (List String) → Result RelationError (List String)
unfolding is_type_id has_duplicates order_by
type_constraints none = ok []
type_constraints (some items) =
    if not (leb (length items) 64)
    then err too_many_constraints
    else if not (all is_type_id items)
    then err invalid_constraint
    else if has_duplicates items
    then err duplicate_constraint
    else ok (order_by items)

-- what `_decode_type_constraints` makes of a list of texts
abbrev checked_constraints : Option (List String) → Result RelationError (List String)
unfolding type_constraints
checked_constraints none = err constraints_invalid
checked_constraints (some ts) = elim (type_constraints (some ts)) [
  | ok names ↦ ok names
  | err e ↦ err constraints_invalid
]

abbrev constraints_of : Option Json → Result RelationError (List String)
unfolding texts_of checked_constraints
constraints_of none = err constraints_unreadable
constraints_of (some (json_list js)) = checked_constraints (texts_of js)
constraints_of (some json_null) = err constraints_invalid
constraints_of (some (json_bool _)) = err constraints_invalid
constraints_of (some (json_number _)) = err constraints_invalid
constraints_of (some (json_text _)) = err constraints_invalid
constraints_of (some (json_object _)) = err constraints_invalid

abbrev pub names_json : List String → Items
names_json [] = no_items
names_json (n ∷ ns) = item_of (json_text n) (names_json ns)

-- `json_type(value) = 'array'`
abbrev is_array : Option Json → Bool
is_array none = false
is_array (some (json_list _)) = true
is_array (some json_null) = false
is_array (some (json_bool _)) = false
is_array (some (json_number _)) = false
is_array (some (json_text _)) = false
is_array (some (json_object _)) = false

-- `not constraints or entity_type_id in constraints`
unfoldable pub allows : List String → String → Bool
unfolding contains
allows [] type = true
allows (n ∷ ns) type = contains (n ∷ ns) type

abbrev pub raise_of : {A : Type 0} → Result RelationError A → Result (Raised RelationError) A
raise_of (ok a) = ok a
raise_of (err e) = err (raised e)

-- `_require_registered_entity_types`
unfoldable pub are_registered : Tables → List String → Bool
unfolding find_type
are_registered t names = all (λ n. is_some (find_type t n)) names

module _ (platform : Platform) where
  -- `_decode_type_constraints`
  unfoldable pub decode_constraints : String → Result RelationError (List String)
  unfolding constraints_of
  decode_constraints s = constraints_of (platform.loads s)

  -- the constraints of `relation_type` and of `relation`
  unfoldable pub relation_type_is_valid : Tables → RelationType → Bool
  unfolding has_length find_relation_type
  relation_type_is_valid t x =
      has_length 1 64 x.id
      && not (is_some (find_relation_type t x.id))
      && has_length 1 256 x.label
      && is_array (platform.loads x.from_types_json)
      && is_array (platform.loads x.to_types_json)
      && has_length 1 256 x.created_by

  unfoldable pub insert_relation_type : {E : Type 0} → RelationType → Rows E Unit
  unfolding relation_type_is_valid
  insert_relation_type x =
      insert (λ t. relation_type_is_valid t x)
        (λ t. record t { relation_types = t.relation_types ++ x ∷ [] })

  -- the block of `register_type`
  unfoldable pub register_relation_rows :
      RelationType → List String → List String → Rows RelationError RelationType
  unfolding insert_relation_type find_relation_type are_registered
  register_relation_rows x from_types to_types = do
    sources ← gets (λ t. are_registered t from_types)
    require sources (raised unregistered_source)
    targets ← gets (λ t. are_registered t to_types)
    require targets (raised unregistered_target)
    insert_relation_type x
    found ← gets (λ t. find_relation_type t x.id)
    row ← or_raise found (raised type_unreadable)
    append_audit x.created_at "RELATION_TYPE_REGISTERED"
        (("relation_type_id", text x.id) ∷ ("actor", text x.created_by) ∷ [])
    pure row

  -- `_relation_type_from_row`
  unfoldable pub read_relation_type : RelationType → Method RelationError RelationTypeView
  unfolding decode_constraints
  read_relation_type x = do
    from_types ← lift (raise_of (decode_constraints x.from_types_json))
    to_types ← lift (raise_of (decode_constraints x.to_types_json))
    pure (record { row = x; from_types = from_types; to_types = to_types })

  -- `RelationService.register_type`
  unfoldable pub register_relation_type :
      String
      → String
      → String
      → Option (List String)
      → Option (List String)
      → String
      → String
      → Method RelationError RelationTypeView
  unfolding register_relation_rows read_relation_type type_constraints is_type_id
  register_relation_type type label description from_types to_types actor now = do
    require (is_type_id type) (raised invalid_type_id)
    require (is_canonical_text 256 label) (raised invalid_label)
    require (is_stripped description) (raised invalid_description)
    sources ← lift (raise_of (type_constraints from_types))
    targets ← lift (raise_of (type_constraints to_types))
    require (is_canonical_text 256 actor) (raised invalid_actor)
    row ← atomic invalid_type (
        register_relation_rows
          (record {
            id = type;
            label = label;
            description = description;
            from_types_json = platform.canonical_json (json_list (names_json sources));
            to_types_json = platform.canonical_json (json_list (names_json targets));
            created_at = now;
            created_by = actor;
          })
          sources targets)
    read_relation_type row

  -- `_enforce_endpoint_constraint`
  unfoldable pub enforce : RelationError → String → String → Rows RelationError Unit
  unfolding decode_constraints allows
  enforce error raw type = do
    names ← lift (raise_of (decode_constraints raw))
    require (allows names type) (raised error)
