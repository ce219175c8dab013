-- ===== src/Supersession/Lines.antt =====
-- The successions of src/vera_mmu/supersession.py are disjoint lines: no cycle, no two successors of one
-- knowledge, no two predecessors.
use vera_mmu.Common.{
  String, false, ◌==◌, text_Eq, text_iff, ◌≡◌, ◌≢◌, refl, subst, sym, ◌∙◌, Option, none, some, List,
  [], ◌∷◌, ◌++◌, map, find, is_some, contains, All, All-map, All-append, arith, pure, ◌>>=◌,
  find-append_some, find-append_none,
}
use vera_mmu.Graph.{closure}
use vera_mmu.Graph.Acyclic.{IsAcyclic, append-IsAcyclic}
use vera_mmu.Store.{Tables, Store}
use vera_mmu.Store.Rows.{Supersession, AuditEvent}
use vera_mmu.Store.Keeps.{
  Commits, Keeps, Keeps-atomic, Keeps-require, Keeps-refuse, Keeps-bind, Keeps-pure, Keeps-unless,
}
use vera_mmu.Store.Returns.{
  Returns, Returns-ok, Returns-gets, Returns-require, Returns-refuse, Returns-or_raise,
  Returns-insert, Returns-audit, settle-Returns,
}
use vera_mmu.Supersession.{
  as_link, succession, supersede_rows, supersede, insert_link, successor_row, predecessor_row,
  read_link, require_knowledge_id,
}

-- Each row is the one that a query by its predecessor and a query by its successor find.
abbrev pub IsLine : Tables → Supersession → Type 0
IsLine t l =
    (successor_row t l.predecessor_id ≡ some l) × (predecessor_row t l.successor_id ≡ some l)

pub record HasLines (t : Tables) : Type 0 where
  pub acyclic : IsAcyclic (succession t)
  pub lines : All (IsLine t) t.supersessions

map-as_link :
    (ls : List Supersession) (l : Supersession)
    → map as_link (ls ++ l ∷ []) ≡ map as_link ls ++ as_link l ∷ []
map-as_link [] l = refl
map-as_link (x ∷ ls) l = cc (map-as_link ls l)

add_link-lines :
    (t : Tables) (l : Supersession) (audit : List AuditEvent)
    → successor_row t l.predecessor_id ≡ none
    → predecessor_row t l.successor_id ≡ none
    → All (IsLine t) t.supersessions
    → All
        (IsLine (record t { supersessions = t.supersessions ++ l ∷ []; audit = audit }))
        (t.supersessions ++ l ∷ [])
unfolding successor_row predecessor_row find
add_link-lines t l audit free free' h =
    All-append _ t.supersessions (l ∷ [])
      (All-map _ _ t.supersessions
        (λ m (forth, back). (
          find-append_some (λ (x : Supersession). x.predecessor_id == m.predecessor_id)
              t.supersessions (l ∷ []) m forth,
          find-append_some (λ (x : Supersession). x.successor_id == m.successor_id) t.supersessions
              (l ∷ []) m back,
        ))
        h)
      (
        (
          find-append_none (λ (x : Supersession). x.predecessor_id == l.predecessor_id)
                t.supersessions (l ∷ []) free
              ∙ ground (arith, text_iff l.predecessor_id l.predecessor_id),
          find-append_none (λ (x : Supersession). x.successor_id == l.successor_id) t.supersessions
                (l ∷ []) free'
              ∙ ground (arith, text_iff l.successor_id l.successor_id),
        ),
        tt,
      )

is_none : {A : Type 0} (o : Option A) → is_some o ≡ false → o ≡ none
is_none none h = refl
is_none (some a) h = cc

add_link-HasLines :
    (t : Tables) (l : Supersession) (audit : List AuditEvent)
    → l.predecessor_id ≢ l.successor_id
    → HasLines t
    → successor_row t l.predecessor_id ≡ none
    → predecessor_row t l.successor_id ≡ none
    → contains (closure (succession t) l.successor_id) l.predecessor_id ≡ false
    → HasLines (record t { supersessions = t.supersessions ++ l ∷ []; audit = audit })
unfolding succession
add_link-HasLines t l audit ne h free free' far = record {
  acyclic =
      subst IsAcyclic (sym (map-as_link t.supersessions l))
        (append-IsAcyclic _ l.predecessor_id l.successor_id h.acyclic ne far);
  lines = add_link-lines t l audit free free' h.lines;
}

supersede_rows-HasLines :
    (p n actor now : String) (t : Tables)
    → p ≢ n
    → HasLines t
    → Returns (λ _ u. HasLines u) (supersede_rows p n actor now t)
unfolding supersede_rows insert_link pure
supersede_rows-HasLines p n actor now t ne h = Returns-gets _ _ _ (
    Returns-require _ _ _ _ λ known. Returns-gets _ _ _ (
      Returns-require _ _ _ _ λ known'. Returns-gets _ _ _ (
        Returns-refuse _ _ _ _ λ free. Returns-gets _ _ _ (
          Returns-refuse _ _ _ _ λ free'. Returns-gets _ _ _ (
            Returns-refuse _ _ _ _ λ far. Returns-insert _ _ _ _ λ valid. Returns-gets _ _ _ (
              Returns-or_raise _ _ _ _ λ row found. Returns-audit _ _ _ _ _ λ audit.
                Returns-ok _ _
                  (add_link-HasLines t _ audit ne h (is_none _ free) (is_none _ free') far)))))))

supersede_rows-Commits :
    (p n actor now : String) → p ≢ n → Commits HasLines (supersede_rows p n actor now)
supersede_rows-Commits p n actor now ne = record {
  at = λ t h.
      settle-Returns HasLines t _ (supersede_rows-HasLines p n actor now t ne h) h (λ _ u q. q);
}

read_link-Keeps : (l : Supersession) → Keeps HasLines (read_link l)
unfolding read_link
read_link-Keeps l = Keeps-refuse _ _ _ (Keeps-require _ _ _ (Keeps-pure l))

require_knowledge_id-Keeps : (id : String) → Keeps HasLines (require_knowledge_id id)
unfolding require_knowledge_id ◌>>=◌
require_knowledge_id-Keeps id = record { at = λ s h. ground (arith, h) }

supersede-Keeps : (p n actor now : String) → Keeps HasLines (supersede p n actor now)
unfolding supersede
supersede-Keeps p n actor now = Keeps-bind _ _ (require_knowledge_id-Keeps p) λ _.
    Keeps-bind _ _ (require_knowledge_id-Keeps n) λ _. Keeps-require _ _ _ (
      Keeps-unless _ _ _ λ differ.
        Keeps-bind _ _
          (Keeps-atomic _ _
            (supersede_rows-Commits p n actor now (λ e. cc ((text_iff p n).1 e, differ))))
          read_link-Keeps)

-- A supersession, accepted or refused, keeps the successions disjoint lines: no knowledge replaces
-- itself by a walk of successors, and each row is the only one of its predecessor and of its
-- successor that a query finds.
pub supersede-HasLines :
    (p n actor now : String) (s : Store)
    → HasLines s.tables
    → HasLines (supersede p n actor now s).1.tables
supersede-HasLines p n actor now s h = (supersede-Keeps p n actor now).at s h
