-- ===== src/Calls/Frames/Registry.antt =====
-- What the writes to entities and relations of src/vera_mmu leave alone.
use vera_mmu.Common.{◌≡◌, refl, String, true, Option, List, [], ◌∷◌, ◌++◌}
use vera_mmu.Store.{Tables, Method}
use vera_mmu.Store.Rows.{AuditEvent, EntityType, Entity}
use vera_mmu.Store.Keeps.{Keeps}
use vera_mmu.Store.Frame.{Leaves, on_tables, leaves_rules}
use vera_mmu.Chain.Platform.{Platform, Members}
use vera_mmu.Entities.{EntityCreateInput, entity_is_valid, register_type, create_entity}
use vera_mmu.Entities.Batch.{create_batch, register_batch}
use vera_mmu.Entities.Writes.{
  register_type-Keeps, create_entity-Keeps, create_batch-Keeps, register_batch-Keeps,
}
use vera_mmu.Relations.{
  register_relation_type, register_relation_rows, insert_relation_type, read_relation_type, enforce,
}
use vera_mmu.Relations.Create.{
  create_relation, create_relation_rows, insert_relation, read_relation, require_id_of,
}
use vera_mmu.Calls.Views.{hide_registry, hide_registry-HidesAudit}

-- a method that keeps each value of a view leaves it alone
Keeps-Leaves :
    {E A : Type 0} (f : Tables → Tables) (m : Method E A)
    → ((x : Tables) → Keeps (λ t. f t ≡ x) m)
    → Leaves (on_tables f) m
unfolding on_tables
Keeps-Leaves f m h = record { at = λ s. (h (f s.tables)).at s refl }

Registry : Tables → Tables → Type 0
Registry x t = hide_registry t ≡ x

module _ (platform : Platform) (x : Tables) where
  audit_is_hidden :
      (t : Tables) (audit : List AuditEvent)
      → Registry x t
      → Registry x (record t { audit = audit })
  unfolding Registry hide_registry
  audit_is_hidden t audit h = h

  type_is_hidden :
      (y : EntityType) (t : Tables)
      → Registry x t
      → Registry x (record t { entity_types = t.entity_types ++ y ∷ [] })
  unfolding Registry hide_registry
  type_is_hidden y t h = h

  entity_is_hidden :
      (e : Entity) (t : Tables)
      → entity_is_valid platform t e ≡ true
      → Registry x t
      → Registry x (record t { entities = t.entities ++ e ∷ [] })
  unfolding Registry hide_registry
  entity_is_hidden e t fits h = h

pub register_type-Leaves :
    (p : Platform) (type label description : String) (schema : Option Members) (actor now : String)
    → Leaves (on_tables hide_registry) (register_type p type label description schema actor now)
unfolding Registry
register_type-Leaves p type label description schema actor now = Keeps-Leaves hide_registry _ λ x.
    register_type-Keeps p (Registry x) (audit_is_hidden p x) (type_is_hidden p x)
      (entity_is_hidden p x) type label description schema actor now

pub create_entity-Leaves :
    (p : Platform) (type : String) (new : EntityCreateInput) (actor now : String)
    → Leaves (on_tables hide_registry) (create_entity p type new actor now)
unfolding Registry
create_entity-Leaves p type new actor now = Keeps-Leaves hide_registry _ λ x.
    create_entity-Keeps p (Registry x) (audit_is_hidden p x) (type_is_hidden p x)
      (entity_is_hidden p x) type new actor now

pub create_batch-Leaves :
    (p : Platform) (type : String) (news : List EntityCreateInput) (actor now : String)
    → Leaves (on_tables hide_registry) (create_batch p type news actor now)
unfolding Registry
create_batch-Leaves p type news actor now = Keeps-Leaves hide_registry _ λ x.
    create_batch-Keeps p (Registry x) (audit_is_hidden p x) (type_is_hidden p x)
      (entity_is_hidden p x) type news actor now

pub register_batch-Leaves :
    (p : Platform) (type label : String) (news : List EntityCreateInput) (description : String)
    (schema : Option Members) (actor now : String)
    → Leaves
        (on_tables hide_registry)
        (register_batch p type label news description schema actor now)
unfolding Registry
register_batch-Leaves p type label news description schema actor now =
    Keeps-Leaves hide_registry _ λ x.
      register_batch-Keeps p (Registry x) (audit_is_hidden p x) (type_is_hidden p x)
        (entity_is_hidden p x) type label news description schema actor now

pub register_relation_type-Leaves :
    (p : Platform) (type label description : String) (from_types to_types : Option (List String))
    (actor now : String)
    → Leaves
        (on_tables hide_registry)
        (register_relation_type p type label description from_types to_types actor now)
unfolding register_relation_type register_relation_rows insert_relation_type read_relation_type
    hide_registry
register_relation_type-Leaves p type label description from_types to_types actor now =
    search (leaves_rules, hide_registry-HidesAudit) depth 60

pub create_relation-Leaves :
    (p : Platform) (id type from to actor now : String)
    → Leaves (on_tables hide_registry) (create_relation p id type from to actor now)
unfolding create_relation create_relation_rows enforce insert_relation read_relation require_id_of
    hide_registry
create_relation-Leaves p id type from to actor now =
    search (leaves_rules, hide_registry-HidesAudit) depth 60
