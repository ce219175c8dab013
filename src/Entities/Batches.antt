-- ===== src/Entities/Batches.antt =====
-- A batch of src/vera_mmu/entities.py that is accepted does what the creations of its entries do one by one.
use vera_mmu.Common.{
  String, true, ◌≡◌, refl, sym, ap, subst, ◌∙◌, Option, is_some, List, [], ◌∷◌, ok, ◌>>=◌, pure,
  gets, or_raise, arith,
}
use vera_mmu.Common.Sequence.{
  then_ok, first_ok, require_ok, or_raise_ok, by_require, by_step, goes_on,
}
use vera_mmu.Common.Text.{is_canonical_text}
use vera_mmu.Addressing.{is_address_of}
use vera_mmu.Store.{Store, Tables, Rows, raised, atomic}
use vera_mmu.Store.Rows.{EntityType, Entity}
use vera_mmu.Store.Keeps.{result-atomic, atomic-ok, atomic-project_id}
use vera_mmu.Store.Answers.{recover-eq-ok}
use vera_mmu.Store.Preserves.{Preserves, preserves_rules}
use vera_mmu.Chain.Platform.{Platform}
use vera_mmu.Entities.{
  EntityError, EntityCreateInput, invalid_entity, invalid_type_id, invalid_actor, unknown_type,
  find_type, is_type_id, entity_row, insert_entity, create_one, create_entity_rows, read_entity,
  require_entity_id, create_entity,
}
use vera_mmu.Entities.Batch.{
  EntityBatchResult, create_all, create_batch_rows, read_batch, prepare_batch, create_batch,
}
use vera_mmu.Entities.Prepared.{
  Prepared, AllPrepared, quiet_first, read_batch-Leaves, read_entity-Leaves, prepare_batch-Leaves,
  prepare_batch-Prepared,
}

module _ (platform : Platform) (type actor now : String) where
  -- the creations of the entries, one after the other
  unfoldable pub create_each : List EntityCreateInput → Store → Store
  create_each [] s = s
  create_each (new ∷ news) s = create_each news (create_entity platform type new actor now s).1

  require_entity_id_holds :
      (id : String) (s : Store)
      → is_address_of s.project_id "entity" id ≡ true
      → require_entity_id platform id s ≡ (ok tt, s)
  unfolding require_entity_id ◌>>=◌
  require_entity_id_holds id s h = ground arith

  module _ (typed : is_type_id type ≡ true) (named : is_canonical_text 256 actor ≡ true) where
    -- a creation whose entry passes the tests comes to its transaction
    create_entity_reaches :
        (new : EntityCreateInput) (e : Entity) (s : Store)
        → (p : Prepared platform type actor now s.project_id new e)
        → create_entity platform type new actor now s
          ≡ (atomic invalid_entity
                  (create_entity_rows platform (entity_row platform type new p.metadata actor now))
                >>= read_entity platform)
              s
    unfolding create_entity
    create_entity_reaches new e s p =
        by_step _ _ s tt _ (require_entity_id_holds new.identifier s p.formed) (
          by_require _ _ _ s _ typed (
            by_require _ _ _ s _ p.title (
              by_require _ _ _ s _ p.description
                (by_step _ _ s p.metadata _ (p.decoded s) (by_require _ _ _ s _ named refl)))))

    -- what the block of a creation leaves, the creation leaves
    create_entity-tables :
        (new : EntityCreateInput) (e : Entity) (s : Store) (row : Entity)
        → Prepared platform type actor now s.project_id new e
        → (create_entity_rows platform e s.tables).0 ≡ ok row
        → ((create_entity platform type new actor now s).1.tables
            ≡ (create_entity_rows platform e s.tables).1)
          × ((create_entity platform type new actor now s).1.project_id ≡ s.project_id)
    create_entity-tables new e s row p returned =
        let block =
          create_entity_rows platform (entity_row platform type new p.metadata actor now) in
        let done : (block s.tables).0 ≡ ok row =
          subst (λ x. (create_entity_rows platform x s.tables).0 ≡ ok row) p.row returned in
        let (told, left) =
          atomic-ok invalid_entity block s row (block s.tables).1
            (ap (λ r. (r, (block s.tables).1)) done) in
        let ends =
          create_entity_reaches new e s p
          ∙ then_ok (atomic invalid_entity block) (read_entity platform) s row told in
        let same : (create_entity platform type new actor now s).1
            ≡ (atomic invalid_entity block s).1 =
          ap (λ r. r.1) ends
          ∙ (read_entity-Leaves platform type actor now row).at (atomic invalid_entity block s).1 in
        (
          ap (λ (u : Store). u.tables) same
              ∙ left
              ∙ ap (λ x. (create_entity_rows platform x s.tables).1) (sym p.row),
          ap (λ (u : Store). u.project_id) same ∙ atomic-project_id invalid_entity block s,
        )

    Known : Tables → Type 0
    Known t = is_some (find_type t type) ≡ true

    create_one-Known : (e : Entity) → Preserves Known (create_one platform e)
    unfolding create_one insert_entity Known find_type
    create_one-Known e = search preserves_rules depth 30

    -- the block of a creation, of an entity whose type is known
    create_entity_rows-create_one :
        (e : Entity) (t : Tables)
        → is_some (find_type t e.type_id) ≡ true
        → create_entity_rows platform e t ≡ create_one platform e t
    unfolding create_entity_rows gets
    create_entity_rows-create_one e t known =
        by_step _ _ t _ _ refl (by_require _ _ _ t _ known refl)

    -- a loop that returns has written its first entity, and goes on from there
    create_all_ok :
        (e : Entity) (es : List Entity) (t : Tables) (rows : List Entity)
        → (create_all platform (e ∷ es) t).0 ≡ ok rows
        → (row : Entity) × ((create_one platform e t).0 ≡ ok row)
          × (others : List Entity) × ((create_all platform es (create_one platform e t).1).0
              ≡ ok others)
          × ((create_all platform (e ∷ es) t).1
              ≡ (create_all platform es (create_one platform e t).1).1)
    unfolding create_all pure
    create_all_ok e es t rows h =
        let (row, first) = first_ok (create_one platform e) _ t rows h in
        let at_1 = then_ok (create_one platform e) after t row first in
        let (others, rest) = first_ok (create_all platform es) _ _ rows (goes_on at_1 h) in
        let at_2 = then_ok (create_all platform es) (λ rows. pure (row ∷ rows)) _ others rest in
        (row, first, others, rest, ap (λ r. r.1) (at_1 ∙ at_2))
      where
        after : Entity → Rows EntityError (List Entity)
        after row = create_all platform es >>= λ rows. pure (row ∷ rows)

    -- the loop of a batch, against the creations
    each-tables :
        (news : List EntityCreateInput) (es : List Entity) (s : Store) (rows : List Entity)
        → AllPrepared platform type actor now s.project_id news es
        → Known s.tables
        → (create_all platform es s.tables).0 ≡ ok rows
        → (create_each news s).tables ≡ (create_all platform es s.tables).1
    unfolding create_each AllPrepared Known pure
    each-tables [] [] s rows prepared known h = unfold create_all in refl
    each-tables (new ∷ news) [] s rows prepared known h = absurd prepared
    each-tables [] (e ∷ es) s rows prepared known h = absurd prepared
    each-tables (new ∷ news) (e ∷ es) s rows (prepared, rest) known h =
        let (row, first, others, next, ends) = create_all_ok e es s.tables rows h in
        let block =
          create_entity_rows-create_one e s.tables
            (subst (λ x. is_some (find_type s.tables x.type_id) ≡ true) (sym prepared.row) known) in
        let (tables, project) =
          create_entity-tables new e s row prepared (ap (λ r. r.0) block ∙ first) in
        let left = tables ∙ ap (λ r. r.1) block in
        let u = (create_entity platform type new actor now s).1 in
        each-tables news es u others
          (subst (λ name. AllPrepared platform type actor now name news es) (sym project) rest)
          (subst (λ t. is_some (find_type t type) ≡ true) (sym left)
            ((create_one-Known e).at s.tables known))
          (subst (λ t. (create_all platform es t).0 ≡ ok others) (sym left) next)
        ∙ ap (λ t. (create_all platform es t).1) left
        ∙ sym ends

-- the block of a batch is its loop, where the type is registered
create_batch_rows_ok :
    (platform : Platform) (type : String) (es : List Entity) (t : Tables)
    (rows : EntityType × List Entity)
    → (create_batch_rows platform type es t).0 ≡ ok rows
    → (is_some (find_type t type) ≡ true)
      × (created : List Entity) × ((create_all platform es t).0 ≡ ok created)
      × ((create_batch_rows platform type es t).1 ≡ (create_all platform es t).1)
unfolding create_batch_rows gets pure
create_batch_rows_ok platform type es t rows h =
    let at_1 = then_ok (gets (λ u. find_type u type)) found t (find_type t type) refl in
    let (row, known, at_2) =
      or_raise_ok (find_type t type) (raised unknown_type) looped t rows (goes_on at_1 h) in
    let (created, loop) =
      first_ok (create_all platform es) (λ done. pure (row, done)) t rows
        (goes_on at_2 (goes_on at_1 h)) in
    let at_3 = then_ok (create_all platform es) (λ done. pure (row, done)) t created loop in
    (ap is_some known, created, loop, ap (λ r. r.1) (at_1 ∙ at_2 ∙ at_3))
  where
    looped : EntityType → Rows EntityError (EntityType × List Entity)
    looped row = create_all platform es >>= λ done. pure (row, done)

    found : Option EntityType → Rows EntityError (EntityType × List Entity)
    found o = or_raise o (raised unknown_type) >>= looped

-- A batch for a registered type that is accepted leaves the tables, its audit records included, that the
-- creations of its entries leave one after the other.
pub batch_refines_creations :
    (platform : Platform) (type : String) (news : List EntityCreateInput) (actor now : String)
    (s : Store) (result : EntityBatchResult)
    → (create_batch platform type news actor now s).0 ≡ ok result
    → (create_batch platform type news actor now s).1.tables
      ≡ (create_each platform type actor now news s).tables
unfolding create_batch Known
batch_refines_creations platform type news actor now s result h =
    let (typed, at_1) = require_ok _ (raised invalid_type_id) _ s result h in
    let h_1 = goes_on at_1 h in
    let (named, at_2) = require_ok _ (raised invalid_actor) _ s result h_1 in
    let h_2 = goes_on at_2 h_1 in
    let (es, prepared, at_3) =
      quiet_first platform type actor now (prepare_batch platform type actor now news) _ s result
        (prepare_batch-Leaves platform type actor now news) h_2 in
    let h_3 = goes_on at_3 h_2 in
    let (rows, told) =
      first_ok (atomic invalid_entity (create_batch_rows platform type es)) _ s result h_3 in
    let at_4 =
      then_ok (atomic invalid_entity (create_batch_rows platform type es)) (read_batch platform) s
        rows told in
    let block =
      recover-eq-ok invalid_entity (create_batch_rows platform type es s.tables).0 rows
        (sym (result-atomic invalid_entity (create_batch_rows platform type es) s) ∙ told) in
    let (known, created, loop, looped) =
      create_batch_rows_ok platform type es s.tables rows block in
    let batch =
      ap (λ r. r.1) (at_1 ∙ at_2 ∙ at_3 ∙ at_4)
      ∙ (read_batch-Leaves platform type actor now rows).at _ in
    let left =
      (atomic-ok invalid_entity (create_batch_rows platform type es) s rows
        (create_batch_rows platform type es s.tables).1
        (ap (λ r. (r, (create_batch_rows platform type es s.tables).1)) block)).1 in
    ap (λ (u : Store). u.tables) batch
    ∙ left
    ∙ looped
    ∙ sym (
        each-tables platform type actor now typed named news es s created
          (prepare_batch-Prepared platform type actor now news s es prepared) known loop)
