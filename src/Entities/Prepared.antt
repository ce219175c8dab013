-- ===== src/Entities/Prepared.antt =====
-- The tests of src/vera_mmu/entities.py on the entries of a batch: what they say of an accepted entry, and
-- that they write nothing.
use vera_mmu.Common.{
  String, true, ◌≡◌, sym, ap, subst, ◌∙◌, Option, none, some, List, [], ◌∷◌, Result, ok, ◌>>=◌,
  ◌>>◌, pure, or_raise, arith,
}
use vera_mmu.Common.Sequence.{then_ok, first_ok, require_ok, refuse_ok, goes_on}
use vera_mmu.Common.Text.{is_canonical_text, is_stripped}
use vera_mmu.Addressing.{is_address_of}
use vera_mmu.Store.{Store, Method, Raised, raised}
use vera_mmu.Store.Rows.{EntityType, Entity}
use vera_mmu.Store.Frame.{Leaves, leaves_rules, Leaves-bind, Leaves-pure}
use vera_mmu.Chain.Platform.{Platform, Members, Json}
use vera_mmu.Entities.{
  EntityError, EntityCreateInput, invalid_title, invalid_description, invalid_batch_size,
  duplicate_identifiers, entity_row, read_object, read_type, read_entity, require_entity_id,
  json_or_empty,
}
use vera_mmu.Entities.Batch.{read_entities, read_batch, prepare, prepare_all, prepare_batch}

module _ (platform : Platform) (type actor now : String) where
  -- an entry that passes the tests, and its row
  pub record Prepared (project : String) (new : EntityCreateInput) (e : Entity) : Type 0 where
    pub formed : is_address_of project "entity" new.identifier ≡ true
    pub title : is_canonical_text 1024 new.title ≡ true
    pub description : is_stripped new.description ≡ true
    pub metadata : Json
    pub decoded : (s : Store) → json_or_empty platform new.metadata s ≡ (ok metadata, s)
    pub row : e ≡ entity_row platform type new metadata actor now

  unfoldable pub AllPrepared : String → List EntityCreateInput → List Entity → Type 0
  AllPrepared project [] [] = Unit
  AllPrepared project (new ∷ news) (e ∷ es) = Prepared project new e × AllPrepared project news es
  AllPrepared project [] (e ∷ es) = ⊥
  AllPrepared project (new ∷ news) [] = ⊥

  json_ok :
      (ms : Option Members) (s : Store) (j : Json)
      → (json_or_empty platform ms s).0 ≡ ok j
      → (u : Store) → json_or_empty platform ms u ≡ (ok j, u)
  unfolding json_or_empty pure or_raise
  json_ok none s j h u = ap (λ r. (r, u)) h
  json_ok (some ms) s j h u = ground arith

  require_entity_id_ok :
      (id : String) (s : Store) (a : Unit {0})
      → (require_entity_id platform id s).0 ≡ ok a
      → (is_address_of s.project_id "entity" id ≡ true)
        × (require_entity_id platform id s ≡ (ok tt, s))
  unfolding require_entity_id ◌>>=◌
  require_entity_id_ok id s a h = ground arith

  json_first :
      {B : Type 0} (ms : Option Members) (k : Json → Method EntityError B) (s : Store) (b : B)
      → ((json_or_empty platform ms >>= k) s).0 ≡ ok b
      → (j : Json) × ((u : Store) → json_or_empty platform ms u ≡ (ok j, u))
        × ((json_or_empty platform ms >>= k) s ≡ k j s)
  json_first ms k s b h =
      let (j, read) = first_ok (json_or_empty platform ms) k s b h in
      let same = json_ok ms s j read in
      (
        j,
        same,
        then_ok _ k s j read
            ∙ ap (λ (r : Result (Raised EntityError) Json × Store). k j r.1) (same s),
      )

  id_first :
      {B : Type 0} (id : String) (k : Method EntityError B) (s : Store) (b : B)
      → ((require_entity_id platform id >> k) s).0 ≡ ok b
      → (is_address_of s.project_id "entity" id ≡ true)
        × ((require_entity_id platform id >> k) s ≡ k s)
  id_first id k s b h =
      let (a, passed) = first_ok (require_entity_id platform id) (λ u. k) s b h in
      let (formed, same) = require_entity_id_ok id s a passed in
      (
        formed,
        then_ok (require_entity_id platform id) (λ u. k) s a passed
            ∙ ap (λ (r : Result (Raised EntityError) Unit × Store). k r.1) same,
      )

  pure_ok :
      {A : Type 0} (a b : A) (s : Store) → (pure {E = Raised EntityError} a s).0 ≡ ok b → b ≡ a
  unfolding pure
  pure_ok a b s h = cc

  -- what an accepted test says of the entry; it writes nothing
  prepare-Prepared :
      (new : EntityCreateInput) (s : Store) (e : Entity)
      → (prepare platform type actor now new s).0 ≡ ok e
      → Prepared s.project_id new e
  unfolding prepare
  prepare-Prepared new s e h =
      let (formed, at_1) = id_first new.identifier _ s e h in
      let (title, at_2) = require_ok _ (raised invalid_title) _ s e (goes_on at_1 h) in
      let (description, at_3) =
        require_ok _ (raised invalid_description) _ s e (goes_on at_2 (goes_on at_1 h)) in
      let h_3 = goes_on at_3 (goes_on at_2 (goes_on at_1 h)) in
      let (metadata, decoded, at_4) = json_first new.metadata _ s e h_3 in
      record {
        formed = formed;
        title = title;
        description = description;
        metadata = metadata;
        decoded = decoded;
        row = pure_ok _ e s (goes_on at_4 h_3);
      }

  -- nothing is written before the transaction, nor after it
  json_or_empty-Leaves : (ms : Option Members) → Leaves (λ s. s) (json_or_empty platform ms)
  unfolding json_or_empty
  json_or_empty-Leaves none = Leaves-pure _
  json_or_empty-Leaves (some ms) = search leaves_rules depth 10

  prepare-Leaves : (new : EntityCreateInput) → Leaves (λ s. s) (prepare platform type actor now new)
  unfolding prepare require_entity_id
  prepare-Leaves new = search (leaves_rules, json_or_empty-Leaves) depth 30

  prepare_all-Leaves :
      (news : List EntityCreateInput) → Leaves (λ s. s) (prepare_all platform type actor now news)
  unfolding prepare_all
  prepare_all-Leaves [] = Leaves-pure []
  prepare_all-Leaves (new ∷ news) =
      Leaves-bind _ _ (prepare-Leaves new)
        λ e. Leaves-bind _ _ (prepare_all-Leaves news) λ es. Leaves-pure (e ∷ es)

  pub prepare_batch-Leaves :
      (news : List EntityCreateInput) → Leaves (λ s. s) (prepare_batch platform type actor now news)
  unfolding prepare_batch
  prepare_batch-Leaves news = search (leaves_rules, prepare_all-Leaves) depth 30

  pub read_entity-Leaves : (e : Entity) → Leaves (λ s. s) (read_entity platform e)
  unfolding read_entity read_object
  read_entity-Leaves e = search leaves_rules depth 30

  read_entities-Leaves : (es : List Entity) → Leaves (λ s. s) (read_entities platform es)
  unfolding read_entities
  read_entities-Leaves [] = Leaves-pure []
  read_entities-Leaves (e ∷ es) =
      Leaves-bind _ _ (read_entity-Leaves e)
        λ view. Leaves-bind _ _ (read_entities-Leaves es) λ views. Leaves-pure (view ∷ views)

  pub read_batch-Leaves : (r : EntityType × List Entity) → Leaves (λ s. s) (read_batch platform r)
  unfolding read_batch read_type read_object
  read_batch-Leaves (x, es) = search (leaves_rules, read_entities-Leaves) depth 30

  -- a step that writes nothing, and its rest
  pub quiet_first :
      {A B : Type 0} (m : Method EntityError A) (k : A → Method EntityError B) (s : Store) (b : B)
      → Leaves (λ s. s) m
      → ((m >>= k) s).0 ≡ ok b
      → (a : A) × ((m s).0 ≡ ok a) × ((m >>= k) s ≡ k a s)
  quiet_first m k s b quiet h =
      let (a, returned) = first_ok m k s b h in
      (a, returned, then_ok m k s a returned ∙ ap (k a) (quiet.at s))

  prepare_all-Prepared :
      (news : List EntityCreateInput) (s : Store) (es : List Entity)
      → (prepare_all platform type actor now news s).0 ≡ ok es
      → AllPrepared s.project_id news es
  unfolding prepare_all AllPrepared
  prepare_all-Prepared [] s es h = subst (AllPrepared s.project_id []) (sym (pure_ok [] es s h)) tt
  prepare_all-Prepared (new ∷ news) s es h =
      let (e, prepared, at_1) =
        quiet_first (prepare platform type actor now new) _ s es (prepare-Leaves new) h in
      let (rest, all_prepared, at_2) =
        quiet_first (prepare_all platform type actor now news) _ s es (prepare_all-Leaves news)
          (goes_on at_1 h) in
      subst (AllPrepared s.project_id (new ∷ news))
        (sym (pure_ok (e ∷ rest) es s (goes_on at_2 (goes_on at_1 h))))
        (prepare-Prepared new s e prepared, prepare_all-Prepared news s rest all_prepared)

  pub prepare_batch-Prepared :
      (news : List EntityCreateInput) (s : Store) (es : List Entity)
      → (prepare_batch platform type actor now news s).0 ≡ ok es
      → AllPrepared s.project_id news es
  unfolding prepare_batch
  prepare_batch-Prepared news s es h =
      let (fits, at_1) = require_ok _ (raised invalid_batch_size) _ s es h in
      let (rows, prepared, at_2) =
        quiet_first (prepare_all platform type actor now news) _ s es (prepare_all-Leaves news)
          (goes_on at_1 h) in
      let h_2 = goes_on at_2 (goes_on at_1 h) in
      let (unique, at_3) = refuse_ok _ (raised duplicate_identifiers) _ s es h_2 in
      subst (AllPrepared s.project_id news) (sym (pure_ok rows es s (goes_on at_3 h_2)))
        (prepare_all-Prepared news s rows prepared)
