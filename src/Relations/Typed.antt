-- ===== src/Relations/Typed.antt =====
-- Each entity is of a registered type, and each relation joins two entities whose types its own type allows
-- (src/vera_mmu/entities.py, src/vera_mmu/relations.py).
use vera_mmu.Common.{
  String, true, ◌==◌, text_Eq, Option, some, is_some, List, [], ◌∷◌, ◌++◌, find, find-append_some,
  All, All-map, All-append, ◌≡◌, refl, sym, subst, ◌∙◌, arith, Result, ok, err, pure,
}
use vera_mmu.Store.{Tables, Store}
use vera_mmu.Store.Rows.{EntityType, Entity, RelationType, Relation}
use vera_mmu.Store.Keeps.{Keeps, Commits}
use vera_mmu.Store.Returns.{
  Returns, Returns-ok, Returns-bind, Returns-gets, Returns-or_raise, Returns-insert, Returns-audit,
  Returns-lift, Returns-require_last, settle-Returns,
}
use vera_mmu.Store.Preserves.{Preserves, ReadsNoAudit, preserves_rules, Preserves-insert_valid}
use vera_mmu.Chain.Platform.{Platform, Members}
use vera_mmu.Entities.{
  EntityCreateInput, find_type, find_entity, entity_is_valid, register_type, create_entity,
}
use vera_mmu.Entities.Batch.{create_batch, register_batch}
use vera_mmu.Entities.Writes.{
  register_type-Keeps, create_entity-Keeps, create_batch-Keeps, register_batch-Keeps,
}
use vera_mmu.Relations.{
  raise_of, RelationError, find_relation_type, decode_constraints, allows, enforce,
  insert_relation_type, register_relation_rows, read_relation_type, register_relation_type,
}
use vera_mmu.Relations.Create.{
  insert_relation, create_relation_rows, create_relation, read_relation, require_id_of,
}

abbrev HasType : List EntityType → Entity → Type 0
HasType types e = is_some (find (λ x. x.id == e.type_id) types) ≡ true

-- the type of the relation is registered, its ends are entities, and it allows their types
pub record RelationIsTyped (platform : Platform) (types : List RelationType) (es : List Entity)
    (r : Relation) : Type 0 where
  pub type : RelationType
  pub registered : find (λ x. x.id == r.relation_type_id) types ≡ some type
  pub from : Entity
  pub source : find (λ e. e.id == r.from_entity_id) es ≡ some from
  pub to : Entity
  pub target : find (λ e. e.id == r.to_entity_id) es ≡ some to
  pub from_types : List String
  pub from_decoded : decode_constraints platform type.from_types_json ≡ ok from_types
  pub from_allowed : allows from_types from.type_id ≡ true
  pub to_types : List String
  pub to_decoded : decode_constraints platform type.to_types_json ≡ ok to_types
  pub to_allowed : allows to_types to.type_id ≡ true

abbrev pub IsTyped : Platform → Tables → Type 0
IsTyped platform t =
    All (HasType t.entity_types) t.entities
    × All (RelationIsTyped platform t.relation_types t.entities) t.relations

HasType-append :
    (types : List EntityType) (x : EntityType) (e : Entity)
    → HasType types e
    → HasType (types ++ x ∷ []) e
unfolding find
HasType-append [] x e h = cc
HasType-append (y ∷ types) x e h = ground (arith, HasType-append types x e)

RelationIsTyped-types :
    (platform : Platform) (types : List RelationType) (x : RelationType) (es : List Entity)
    (r : Relation)
    → RelationIsTyped platform types es r
    → RelationIsTyped platform (types ++ x ∷ []) es r
RelationIsTyped-types platform types x es r h = record {
  type = h.type;
  registered =
      find-append_some (λ (y : RelationType). y.id == r.relation_type_id) types (x ∷ []) h.type
        h.registered;
  from = h.from;
  source = h.source;
  to = h.to;
  target = h.target;
  from_types = h.from_types;
  from_decoded = h.from_decoded;
  from_allowed = h.from_allowed;
  to_types = h.to_types;
  to_decoded = h.to_decoded;
  to_allowed = h.to_allowed;
}

RelationIsTyped-entities :
    (platform : Platform) (types : List RelationType) (es : List Entity) (e : Entity) (r : Relation)
    → RelationIsTyped platform types es r
    → RelationIsTyped platform types (es ++ e ∷ []) r
RelationIsTyped-entities platform types es e r h = record {
  type = h.type;
  registered = h.registered;
  from = h.from;
  source = find-append_some (λ (d : Entity). d.id == r.from_entity_id) es (e ∷ []) h.from h.source;
  to = h.to;
  target = find-append_some (λ (d : Entity). d.id == r.to_entity_id) es (e ∷ []) h.to h.target;
  from_types = h.from_types;
  from_decoded = h.from_decoded;
  from_allowed = h.from_allowed;
  to_types = h.to_types;
  to_decoded = h.to_decoded;
  to_allowed = h.to_allowed;
}

raised_ok : {A : Type 0} (r : Result RelationError A) (a : A) → raise_of r ≡ ok a → r ≡ ok a
raised_ok (ok b) a h = cc
raised_ok (err e) a h = cc

module _ (platform : Platform) where
  add_relation-IsTyped :
      (t : Tables) (r : Relation)
      → IsTyped platform t
      → RelationIsTyped platform t.relation_types t.entities r
      → IsTyped platform (record t { relations = t.relations ++ r ∷ [] })
  add_relation-IsTyped t r h typed = (h.0, All-append _ t.relations (r ∷ []) h.1 (typed, tt))

  IsTyped-ReadsNoAudit : ReadsNoAudit (IsTyped platform)
  IsTyped-ReadsNoAudit t audit h = h

  add_type-IsTyped :
      (x : EntityType) (t : Tables)
      → IsTyped platform t
      → IsTyped platform (record t { entity_types = t.entity_types ++ x ∷ [] })
  add_type-IsTyped x t h =
      (All-map _ _ t.entities (λ e typed. HasType-append t.entity_types x e typed) h.0, h.1)

  insert_relation_type-Preserves :
      {E : Type 0} (x : RelationType)
      → Preserves {E = E} (IsTyped platform) (insert_relation_type platform x)
  unfolding insert_relation_type
  insert_relation_type-Preserves x = Preserves-insert_valid _ _ λ t fits h. (
    h.0,
    All-map _ _ t.relations
        (λ r typed. RelationIsTyped-types platform t.relation_types x t.entities r typed) h.1,
  )

  entity_fits :
      (t : Tables) (e : Entity) → entity_is_valid platform t e ≡ true → HasType t.entity_types e
  unfolding entity_is_valid find_type
  entity_fits t e h = ground arith

  add_entity-IsTyped :
      (e : Entity) (t : Tables)
      → entity_is_valid platform t e ≡ true
      → IsTyped platform t
      → IsTyped platform (record t { entities = t.entities ++ e ∷ [] })
  add_entity-IsTyped e t fits h = (
    All-append _ t.entities (e ∷ []) h.0 (entity_fits t e fits, tt),
    All-map _ _ t.relations
        (λ r typed. RelationIsTyped-entities platform t.relation_types t.entities e r typed) h.1,
  )

  -- what the test of an end lets through
  record Allowing (raw type : String) (t u : Tables) : Type 0 where
    names : List String
    decoded : decode_constraints platform raw ≡ ok names
    allowed : allows names type ≡ true
    same : u ≡ t

  enforce-Returns :
      (error : RelationError) (raw type : String) (t : Tables)
      → Returns (λ _ u. Allowing raw type t u) (enforce platform error raw type t)
  unfolding enforce
  enforce-Returns error raw type t = Returns-lift _ _ t λ names read.
      Returns-require_last _ _ t λ allowed. record {
        names = names;
        decoded = raised_ok _ _ read;
        allowed = allowed;
        same = refl;
      }

  create_relation_rows-Returns :
      (r : Relation) (t : Tables)
      → IsTyped platform t
      → Returns (λ _ u. IsTyped platform u) (create_relation_rows platform r t)
  unfolding create_relation_rows insert_relation find_relation_type find_entity pure
  create_relation_rows-Returns r t h = Returns-gets _ _ _ (
      Returns-or_raise _ _ _ _ λ type registered. Returns-gets _ _ _ (
        Returns-or_raise _ _ _ _ λ from source. Returns-gets _ _ _ (
          Returns-or_raise _ _ _ _ λ to target.
            Returns-bind _ _ _ (enforce-Returns _ _ _ t) λ done u a.
              Returns-bind _ _ _ (enforce-Returns _ _ _ u) λ done' v b.
                Returns-insert _ _ _ _ λ fits. Returns-gets _ _ _ (
                  Returns-or_raise _ _ _ _ λ row found. Returns-audit _ _ _ _ _ λ audit.
                    Returns-ok _ _ (
                      add_relation-IsTyped v r (subst (IsTyped platform) (sym (b.same ∙ a.same)) h)
                        (subst (λ w. RelationIsTyped platform w.relation_types w.entities r)
                          (sym (b.same ∙ a.same))
                          (record {
                            type = type;
                            registered = registered;
                            from = from;
                            source = source;
                            to = to;
                            target = target;
                            from_types = a.names;
                            from_decoded = a.decoded;
                            from_allowed = a.allowed;
                            to_types = b.names;
                            to_decoded = b.decoded;
                            to_allowed = b.allowed;
                          })))))))

  rows-Commits : (r : Relation) → Commits (IsTyped platform) (create_relation_rows platform r)
  rows-Commits r = record {
    at = λ t h.
        settle-Returns (IsTyped platform) t _ (create_relation_rows-Returns r t h) h (λ a u q. q);
  }

  pub create_relation-IsTyped :
      (id type from to actor now : String)
      → Keeps (IsTyped platform) (create_relation platform id type from to actor now)
  unfolding create_relation read_relation require_id_of
  create_relation-IsTyped id type from to actor now =
      search (preserves_rules, rows-Commits) depth 60

  pub register_type-IsTyped :
      (type label description : String) (schema : Option Members) (actor now : String)
      → Keeps (IsTyped platform) (register_type platform type label description schema actor now)
  register_type-IsTyped =
      register_type-Keeps platform (IsTyped platform) IsTyped-ReadsNoAudit add_type-IsTyped
        add_entity-IsTyped

  pub create_entity-IsTyped :
      (type : String) (new : EntityCreateInput) (actor now : String)
      → Keeps (IsTyped platform) (create_entity platform type new actor now)
  create_entity-IsTyped =
      create_entity-Keeps platform (IsTyped platform) IsTyped-ReadsNoAudit add_type-IsTyped
        add_entity-IsTyped

  pub create_batch-IsTyped :
      (type : String) (news : List EntityCreateInput) (actor now : String)
      → Keeps (IsTyped platform) (create_batch platform type news actor now)
  create_batch-IsTyped =
      create_batch-Keeps platform (IsTyped platform) IsTyped-ReadsNoAudit add_type-IsTyped
        add_entity-IsTyped

  pub register_batch-IsTyped :
      (type label : String) (news : List EntityCreateInput) (description : String)
      (schema : Option Members) (actor now : String)
      → Keeps
          (IsTyped platform)
          (register_batch platform type label news description schema actor now)
  register_batch-IsTyped =
      register_batch-Keeps platform (IsTyped platform) IsTyped-ReadsNoAudit add_type-IsTyped
        add_entity-IsTyped

  pub register_relation_type-IsTyped :
      (type label description : String) (from_types to_types : Option (List String))
      (actor now : String)
      → Keeps
          (IsTyped platform)
          (register_relation_type platform type label description from_types to_types actor now)
  unfolding register_relation_type register_relation_rows read_relation_type
  register_relation_type-IsTyped type label description from_types to_types actor now =
      search (preserves_rules, insert_relation_type-Preserves, IsTyped-ReadsNoAudit) depth 60

-- Whatever the services of entities and of relations do, each entity stays of a registered type, and each
-- relation joins two entities whose types its own type allows.
pub registry-IsTyped :
    (platform : Platform) (id type label description from to actor now : String)
    (schema : Option Members) (new : EntityCreateInput) (news : List EntityCreateInput)
    (from_types to_types : Option (List String)) (s : Store)
    → IsTyped platform s.tables
    → IsTyped platform (register_type platform type label description schema actor now s).1.tables
      × IsTyped platform (create_entity platform type new actor now s).1.tables
      × IsTyped platform (create_batch platform type news actor now s).1.tables
      × IsTyped platform
          (register_batch platform type label news description schema actor now s).1.tables
      × IsTyped platform
          (register_relation_type platform type label description from_types to_types actor now
            s).1.tables
      × IsTyped platform (create_relation platform id type from to actor now s).1.tables
registry-IsTyped platform id type label description from to actor now schema new news from_types
      to_types s h =
    (
      (register_type-IsTyped platform type label description schema actor now).at s h,
      (create_entity-IsTyped platform type new actor now).at s h,
      (create_batch-IsTyped platform type news actor now).at s h,
      (register_batch-IsTyped platform type label news description schema actor now).at s h,
      (register_relation_type-IsTyped platform type label description from_types to_types actor
            now).at
          s h,
      (create_relation-IsTyped platform id type from to actor now).at s h,
    )
