-- ===== src/Examples/Registry.antt =====
-- Two components and a relation between them.
use vera_mmu.Common.{
  ◌≡◌, refl, String, none, some, List, [], ◌∷◌, length, if◌then◌else◌, text_Eq, ◌==◌, all, contains,
}
use vera_mmu.Common.Text.{is_canonical_text, is_stripped, is_empty, len, has_code}
use vera_mmu.Common.Order.{order_by}
use vera_mmu.Store.{Store}
use vera_mmu.Gates.Declare.{has_duplicates}
use vera_mmu.Addressing.{
  is_address_of, make_address, is_project_id, has_identifier_form, is_traversing, quote,
}
use vera_mmu.Chain.Platform.{
  Platform, Json, json_null, json_bool, json_number, json_text, json_list, json_object, no_members,
}
use vera_mmu.Entities.{
  EntityCreateInput, is_type_id, find_type, find_entity, json_or_empty, type_is_valid,
  entity_is_valid, register_type, create_entity,
}
use vera_mmu.Entities.Batch.{create_batch, register_batch, create_all, prepare_all, read_entities}
use vera_mmu.Entities.Batches.{create_each, batch_refines_creations}
use vera_mmu.Relations.{
  names_json, type_constraints, allows, are_registered, find_relation_type, decode_constraints,
  relation_type_is_valid, register_relation_type,
}
use vera_mmu.Relations.Create.{find_relation, relation_is_valid, create_relation}
use vera_mmu.Relations.Typed.{IsTyped, registry-IsTyped}
use vera_mmu.Examples.{store_of, empty_tables, run}

abbrev text_of : Json → String
text_of (json_list _) = "L"
text_of (json_object _) = "{}"
text_of json_null = "null"
text_of (json_bool _) = "true"
text_of (json_number n) = n
text_of (json_text _) = "text"

abbrev platform : Platform
platform = record {
  canonical_json = text_of;
  dumps = text_of;
  loads = λ s.
      some (if s == "L" then json_list (names_json ("component" ∷ [])) else json_object no_members);
  sha256 = λ s. s;
  hmac_sha256 = λ k s. s;
}

-- opens a run of the registry services on concrete arguments
unfoldable run_registry : Unit {0}
unfolding run is_canonical_text is_stripped is_empty len has_code has_duplicates is_address_of
    make_address is_project_id has_identifier_form is_traversing quote is_type_id find_type
    find_entity json_or_empty type_is_valid entity_is_valid register_type create_entity create_batch
    register_batch create_all prepare_all read_entities type_constraints allows are_registered
    find_relation_type find_relation decode_constraints relation_type_is_valid relation_is_valid
    register_relation_type create_relation order_by all contains
run_registry = tt

abbrev entry : String → EntityCreateInput
entry id = record { identifier = id; title = id; description = ""; metadata = none }

abbrev entries : List EntityCreateInput
entries = entry "a" ∷ entry "b" ∷ []

abbrev start : Store
start = store_of empty_tables

abbrev typed : Store
typed = (register_type platform "component" "Component" "" none "system" "t1" start).1

abbrev filled : Store
filled = (create_batch platform "component" entries "system" "t2" typed).1

abbrev related : Store
related =
    (register_relation_type platform "uses" "Uses" "" (some ("component" ∷ []))
      (some ("component" ∷ [])) "system" "t3" filled).1

one_relation :
    (length filled.tables.entities ≡ 2)
    × (length
          (create_relation platform "r1" "uses" "a" "b" "system" "t4" related).1.tables.relations
        ≡ 1)
unfolding run_registry
one_relation = (refl, refl)

batch_refines_creations_example :
    filled.tables ≡ (create_each platform "component" "system" "t2" entries typed).tables
unfolding run_registry
batch_refines_creations_example =
    batch_refines_creations platform "component" entries "system" "t2" typed _ refl

start-IsTyped : IsTyped platform start.tables
start-IsTyped = (tt, tt)

filled-IsTyped : IsTyped platform filled.tables
filled-IsTyped =
    (registry-IsTyped platform "r" "component" "Component" "" "a" "b" "system" "t2" none (entry "a")
      entries none none typed
      (registry-IsTyped platform "r" "component" "Component" "" "a" "b" "system" "t1" none
        (entry "a") entries none none start start-IsTyped).0).2

registry-IsTyped_example :
    IsTyped platform (register_type platform "uses" "Uses" "" none "system" "t3" filled).1.tables
    × IsTyped platform (create_entity platform "uses" (entry "c") "system" "t3" filled).1.tables
    × IsTyped platform (create_batch platform "uses" entries "system" "t3" filled).1.tables
    × IsTyped platform
        (register_batch platform "uses" "Uses" entries "" none "system" "t3" filled).1.tables
    × IsTyped platform
        (register_relation_type platform "uses" "Uses" ""
          (some ("component" ∷ []))
          none
          "system"
          "t3"
          filled).1.tables
    × IsTyped platform (create_relation platform "r1" "uses" "a" "b" "system" "t3" filled).1.tables
registry-IsTyped_example =
    registry-IsTyped platform "r1" "uses" "Uses" "" "a" "b" "system" "t3" none (entry "c") entries
      (some ("component" ∷ [])) none filled filled-IsTyped
