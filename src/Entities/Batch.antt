-- ===== src/Entities/Batch.antt =====
-- The two batches of `EntityService` of src/vera_mmu/entities.py: `create_batch_for_registered_type` and
-- `register_type_and_create_batch`.
use vera_mmu.Common.{
  String, ◌&&◌, text_Eq, leb, Option, List, [], ◌∷◌, map, is_some, length, pure, gets, require,
  refuse, or_raise, ◌>>=◌, ◌>>◌,
}
use vera_mmu.Common.Text.{is_canonical_text}
use vera_mmu.Store.{Method, Rows, raised, atomic}
use vera_mmu.Store.Rows.{EntityType, Entity}
use vera_mmu.Gates.Declare.{has_duplicates}
use vera_mmu.Chain.Platform.{Platform, Members}
use vera_mmu.Entities.{
  EntityCreateInput, EntityError, EntityView, TypeView, create_one, duplicate_identifiers,
  entity_row, find_type, invalid_actor, invalid_batch, invalid_batch_size, invalid_entity,
  invalid_label, invalid_title, invalid_type_id, is_type_id, json_or_empty, read_entity, read_type,
  register_type_rows, require_description, require_entity_id, type_exists, type_row, unknown_type,
}

-- `EntityBatchResult`
pub record EntityBatchResult : Type 0 where
  pub entity_type : TypeView
  pub entities : List EntityView

module _ (platform : Platform) where
  -- the loop over a batch
  unfoldable pub create_all : List Entity → Rows EntityError (List Entity)
  unfolding create_one
  create_all [] = pure []
  create_all (e ∷ es) = do row ← create_one platform e; rows ← create_all es; pure (row ∷ rows)

  -- the block of `create_batch_for_registered_type`
  unfoldable pub create_batch_rows :
      String → List Entity → Rows EntityError (EntityType × List Entity)
  unfolding create_all find_type
  create_batch_rows type es = do
    found ← gets (λ t. find_type t type)
    row ← or_raise found (raised unknown_type)
    rows ← create_all es
    pure (row, rows)

  -- the block of `register_type_and_create_batch`
  unfoldable pub register_batch_rows :
      EntityType → List Entity → Rows EntityError (EntityType × List Entity)
  unfolding create_all register_type_rows find_type
  register_batch_rows x es = do
    known ← gets (λ t. is_some (find_type t x.id))
    refuse known (raised type_exists)
    row ← register_type_rows platform x
    rows ← create_all es
    pure (row, rows)

  unfoldable pub read_entities : List Entity → Method EntityError (List EntityView)
  unfolding read_entity
  read_entities [] = pure []
  read_entities (e ∷ es) = do
    view ← read_entity platform e
    views ← read_entities es
    pure (view ∷ views)

  -- the tests on one entry of a batch, and the row of the entry
  unfoldable pub prepare : String → String → String → EntityCreateInput → Method EntityError Entity
  unfolding require_entity_id json_or_empty
  prepare type actor now new = do
    require_entity_id platform new.identifier
    require (is_canonical_text 1024 new.title) (raised invalid_title)
    require_description new.description
    metadata ← json_or_empty platform new.metadata
    pure (entity_row platform type new metadata actor now)

  unfoldable pub prepare_all :
      String → String → String → List EntityCreateInput → Method EntityError (List Entity)
  unfolding prepare
  prepare_all type actor now [] = pure []
  prepare_all type actor now (new ∷ news) = do
    e ← prepare type actor now new
    es ← prepare_all type actor now news
    pure (e ∷ es)

  -- the tests on a batch, after those on its type and its actor
  unfoldable pub prepare_batch :
      String → String → String → List EntityCreateInput → Method EntityError (List Entity)
  unfolding prepare_all has_duplicates
  prepare_batch type actor now news = do
    require (leb 1 (length news) && leb (length news) 100) (raised invalid_batch_size)
    es ← prepare_all type actor now news
    refuse (has_duplicates (map (λ e. e.id) es)) (raised duplicate_identifiers)
    pure es

  -- what both batches return
  unfoldable pub read_batch : EntityType × List Entity → Method EntityError EntityBatchResult
  unfolding read_type read_entities
  read_batch (x, es) = do
    type ← read_type platform x
    views ← read_entities es
    pure (record { entity_type = type; entities = views })

  -- `EntityService.create_batch_for_registered_type`
  unfoldable pub create_batch :
      String → List EntityCreateInput → String → String → Method EntityError EntityBatchResult
  unfolding create_batch_rows prepare_batch read_batch is_type_id
  create_batch type news actor now = do
    require (is_type_id type) (raised invalid_type_id)
    require (is_canonical_text 256 actor) (raised invalid_actor)
    es ← prepare_batch type actor now news
    rows ← atomic invalid_entity (create_batch_rows type es)
    read_batch rows

  -- `EntityService.register_type_and_create_batch`
  unfoldable pub register_batch :
      String
      → String
      → List EntityCreateInput
      → String
      → Option Members
      → String
      → String
      → Method EntityError EntityBatchResult
  unfolding register_batch_rows prepare_batch read_batch is_type_id json_or_empty
  register_batch type label news description schema actor now = do
    require (is_type_id type) (raised invalid_type_id)
    require (is_canonical_text 256 label) (raised invalid_label)
    require_description description
    decoded ← json_or_empty platform schema
    require (is_canonical_text 256 actor) (raised invalid_actor)
    es ← prepare_batch type actor now news
    rows ←
        atomic invalid_batch
          (register_batch_rows (type_row platform type label description decoded actor now) es)
    read_batch rows
