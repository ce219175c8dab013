-- ===== src/Entities/Writes.antt =====
-- What the services of src/vera_mmu/entities.py keep, for any property of the tables that a new type and a
-- new entity keep.
use vera_mmu.Common.{String, true, ◌≡◌, Option, none, some, List, [], ◌∷◌, ◌++◌}
use vera_mmu.Store.{Tables}
use vera_mmu.Store.Rows.{EntityType, Entity}
use vera_mmu.Store.Keeps.{Keeps, Keeps-pure, Keeps-bind, Keeps-choice}
use vera_mmu.Store.Preserves.{
  Preserves, ReadsNoAudit, preserves_rules, Preserves-insert_valid, Preserves-bind, Preserves-pure,
}
use vera_mmu.Chain.Platform.{Platform, Members}
use vera_mmu.Entities.{
  EntityCreateInput, entity_is_valid, insert_type, insert_entity, register_type_rows, create_one,
  create_entity_rows, read_object, read_type, read_entity, require_entity_id, json_or_empty,
  register_type, create_entity,
}
use vera_mmu.Entities.Batch.{
  create_all, create_batch_rows, register_batch_rows, read_entities, read_batch, prepare,
  prepare_all, prepare_batch, create_batch, register_batch,
}

module _ (platform : Platform) (P : Tables → Type 0) (reads : ReadsNoAudit P)
    (add_type : (x : EntityType) (t : Tables)
      → P t
      → P (record t { entity_types = t.entity_types ++ x ∷ [] }))
    (add_entity : (e : Entity) (t : Tables)
      → entity_is_valid platform t e ≡ true
      → P t
      → P (record t { entities = t.entities ++ e ∷ [] })) where
  insert_type-Preserves :
      {E : Type 0} (x : EntityType) → Preserves {E = E} P (insert_type platform x)
  unfolding insert_type
  insert_type-Preserves x = Preserves-insert_valid _ _ λ t fits h. add_type x t h

  insert_entity-Preserves :
      {E : Type 0} (e : Entity) → Preserves {E = E} P (insert_entity platform e)
  unfolding insert_entity
  insert_entity-Preserves e = Preserves-insert_valid _ _ λ t fits h. add_entity e t fits h

  create_one-Preserves : (e : Entity) → Preserves P (create_one platform e)
  unfolding create_one
  create_one-Preserves e = search (preserves_rules, insert_entity-Preserves, reads) depth 30

  create_all-Preserves : (es : List Entity) → Preserves P (create_all platform es)
  unfolding create_all
  create_all-Preserves [] = Preserves-pure []
  create_all-Preserves (e ∷ es) =
      Preserves-bind _ _ (create_one-Preserves e)
        λ row. Preserves-bind _ _ (create_all-Preserves es) λ rows. Preserves-pure (row ∷ rows)

  register_type_rows-Preserves : (x : EntityType) → Preserves P (register_type_rows platform x)
  unfolding register_type_rows
  register_type_rows-Preserves x = search (preserves_rules, insert_type-Preserves, reads) depth 30

  json_or_empty-Keeps : (ms : Option Members) → Keeps P (json_or_empty platform ms)
  unfolding json_or_empty
  json_or_empty-Keeps none = Keeps-pure _
  json_or_empty-Keeps (some ms) = Keeps-choice _ _

  prepare_all-Keeps :
      (type actor now : String) (news : List EntityCreateInput)
      → Keeps P (prepare_all platform type actor now news)
  unfolding prepare_all prepare require_entity_id
  prepare_all-Keeps type actor now [] = Keeps-pure []
  prepare_all-Keeps type actor now (new ∷ news) =
      Keeps-bind _ _ (search (preserves_rules, json_or_empty-Keeps) depth 30)
        λ e. Keeps-bind _ _ (prepare_all-Keeps type actor now news) λ es. Keeps-pure (e ∷ es)

  read_entity-Keeps : (e : Entity) → Keeps P (read_entity platform e)
  unfolding read_entity read_object
  read_entity-Keeps e = search preserves_rules depth 30

  read_entities-Keeps : (es : List Entity) → Keeps P (read_entities platform es)
  unfolding read_entities
  read_entities-Keeps [] = Keeps-pure []
  read_entities-Keeps (e ∷ es) =
      Keeps-bind _ _ (read_entity-Keeps e)
        λ view. Keeps-bind _ _ (read_entities-Keeps es) λ views. Keeps-pure (view ∷ views)

  prepare_batch-Keeps :
      (type actor now : String) (news : List EntityCreateInput)
      → Keeps P (prepare_batch platform type actor now news)
  unfolding prepare_batch
  prepare_batch-Keeps type actor now news = search (preserves_rules, prepare_all-Keeps) depth 30

  read_batch-Keeps : (r : EntityType × List Entity) → Keeps P (read_batch platform r)
  unfolding read_batch read_type read_object
  read_batch-Keeps (x, es) = search (preserves_rules, read_entities-Keeps) depth 30

  pub register_type-Keeps :
      (type label description : String) (schema : Option Members) (actor now : String)
      → Keeps P (register_type platform type label description schema actor now)
  unfolding register_type read_type read_object
  register_type-Keeps type label description schema actor now =
      search (preserves_rules, register_type_rows-Preserves, json_or_empty-Keeps) depth 60

  pub create_entity-Keeps :
      (type : String) (new : EntityCreateInput) (actor now : String)
      → Keeps P (create_entity platform type new actor now)
  unfolding create_entity create_entity_rows require_entity_id
  create_entity-Keeps type new actor now =
      search (preserves_rules, create_one-Preserves, json_or_empty-Keeps, read_entity-Keeps) depth
        60

  pub create_batch-Keeps :
      (type : String) (news : List EntityCreateInput) (actor now : String)
      → Keeps P (create_batch platform type news actor now)
  unfolding create_batch create_batch_rows
  create_batch-Keeps type news actor now =
      search (preserves_rules, create_all-Preserves, prepare_batch-Keeps, read_batch-Keeps) depth 60

  pub register_batch-Keeps :
      (type label : String) (news : List EntityCreateInput) (description : String)
      (schema : Option Members) (actor now : String)
      → Keeps P (register_batch platform type label news description schema actor now)
  unfolding register_batch register_batch_rows
  register_batch-Keeps type label news description schema actor now =
      search
        (
          preserves_rules, register_type_rows-Preserves, create_all-Preserves, prepare_batch-Keeps,
          read_batch-Keeps, json_or_empty-Keeps,
        )
        depth 60
