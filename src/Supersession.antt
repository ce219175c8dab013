-- ===== src/Supersession.antt =====
-- `KnowledgeSupersessionService` of src/vera_mmu/supersession.py: which knowledge replaces which.
pub mod Lines
use vera_mmu.Common.{
  String, Bool, true, false, not, ◌&&◌, ◌||◌, ◌==◌, text_Eq, Option, none, some, List, [], ◌∷◌,
  ◌++◌, map, find, is_some, contains, if◌then◌else◌, pure, gets, require, or_raise, refuse, ◌>>=◌,
  ◌>>◌,
}
use vera_mmu.Common.Text.{is_canonical_text, is_empty}
use vera_mmu.Graph.{Edges, closure}
use vera_mmu.Addressing.{is_address_of}
use vera_mmu.Store.{Tables, Store, Method, Rows, raised, atomic, append_audit, insert, has_length}
use vera_mmu.Store.Rows.{Supersession, Value, text}

pub data SupersessionError : Type 0 where
  invalid_knowledge_id invalid_actor self_supersession unknown_predecessor unknown_successor :
      SupersessionError
  has_successor is_successor cycle unreadable invalid_supersession : SupersessionError
  no_successor no_predecessor incoherent : SupersessionError

abbrev pub as_link : Supersession → String × String
as_link l = (l.predecessor_id, l.successor_id)

-- the rows of `knowledge_supersession` as edges, from the predecessor to its successor
unfoldable pub succession : Tables → Edges String
succession t = map as_link t.supersessions

unfoldable pub successor_row : Tables → String → Option Supersession
successor_row t id = find (λ l. l.predecessor_id == id) t.supersessions

unfoldable pub predecessor_row : Tables → String → Option Supersession
predecessor_row t id = find (λ l. l.successor_id == id) t.supersessions

-- the constraints of `knowledge_supersession`
unfoldable pub link_is_valid : Tables → Supersession → Bool
unfolding has_length successor_row predecessor_row contains
link_is_valid t l =
    not (is_some (successor_row t l.predecessor_id))
    && not (is_some (predecessor_row t l.successor_id))
    && contains t.knowledge l.predecessor_id
    && contains t.knowledge l.successor_id
    && not (l.predecessor_id == l.successor_id)
    && has_length 1 256 l.created_by

unfoldable pub insert_link : {E : Type 0} → Supersession → Rows E Unit
insert_link l =
    insert (λ t. link_is_valid t l) (λ t. record t { supersessions = t.supersessions ++ l ∷ [] })

-- the block of `supersede`
unfoldable pub supersede_rows :
    String → String → String → String → Rows SupersessionError Supersession
unfolding insert_link contains successor_row predecessor_row
supersede_rows predecessor successor actor now = do
  known ← gets (λ t. contains t.knowledge predecessor)
  require known (raised unknown_predecessor)
  known' ← gets (λ t. contains t.knowledge successor)
  require known' (raised unknown_successor)
  replaced ← gets (λ t. is_some (successor_row t predecessor))
  refuse replaced (raised has_successor)
  replaces ← gets (λ t. is_some (predecessor_row t successor))
  refuse replaces (raised is_successor)
  chain ← gets (λ t. closure (succession t) successor)
  refuse (contains chain predecessor) (raised cycle)
  insert_link (record {
    predecessor_id = predecessor;
    successor_id = successor;
    created_at = now;
    created_by = actor;
  })
  found ← gets (λ t. successor_row t predecessor)
  row ← or_raise found (raised unreadable)
  append_audit now "KNOWLEDGE_SUPERSESSION_RECORDED" (
      ("predecessor_id", text predecessor)
      ∷ ("successor_id", text successor)
      ∷ ("actor", text actor)
      ∷ [])
  pure row

-- `_supersession_from_row`
unfoldable pub read_link : Supersession → Method SupersessionError Supersession
unfolding is_empty is_canonical_text
read_link l = do
  refuse
      (is_empty l.predecessor_id || is_empty l.successor_id || l.predecessor_id == l.successor_id)
      (raised incoherent)
  require (is_canonical_text 256 l.created_by) (raised invalid_actor)
  pure l

-- `_require_knowledge_identifier`
unfoldable pub require_knowledge_id : String → Method SupersessionError Unit
unfolding is_address_of
require_knowledge_id id = do
  formed ← gets (λ s. is_address_of s.project_id "knowledge" id)
  require formed (raised invalid_knowledge_id)

unfoldable pub supersede : String → String → String → String → Method SupersessionError Supersession
unfolding supersede_rows read_link require_knowledge_id
supersede predecessor successor actor now = do
  require_knowledge_id predecessor
  require_knowledge_id successor
  require (is_canonical_text 256 actor) (raised invalid_actor)
  refuse (predecessor == successor) (raised self_supersession)
  row ← atomic invalid_supersession (supersede_rows predecessor successor actor now)
  read_link row

unfoldable pub successor_of : String → Method SupersessionError Supersession
unfolding read_link require_knowledge_id
successor_of id = do
  require_knowledge_id id
  found ← gets (λ s. successor_row s.tables id)
  row ← or_raise found (raised no_successor)
  read_link row

unfoldable pub predecessor_of : String → Method SupersessionError Supersession
unfolding read_link require_knowledge_id
predecessor_of id = do
  require_knowledge_id id
  found ← gets (λ s. predecessor_row s.tables id)
  row ← or_raise found (raised no_predecessor)
  read_link row
