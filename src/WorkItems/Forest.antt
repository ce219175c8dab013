-- ===== src/WorkItems/Forest.antt =====
-- The parents of the items of src/vera_mmu/work_items.py form a forest, since an item is created after
-- its parent and never changes.
use mathlib.Core.List.{append-nil, append_assoc}
use vera_mmu.Common.{
  String, Bool, true, false, ◌==◌, text_Eq, ◌≡◌, subst, sym, Option, none, some, List, [], ◌∷◌,
  ◌++◌, find, is_some, arith, pure,
}
use vera_mmu.Store.{Tables, Store}
use vera_mmu.Store.Rows.{WorkItem}
use vera_mmu.Store.Keeps.{
  Commits, Keeps, Keeps-atomic, Keeps-require, Keeps-refuse, Keeps-or_raise, Keeps-bind, Keeps-pure,
  Keeps-gets, Keeps-require_last,
}
use vera_mmu.Store.Returns.{
  Returns, Returns-ok, Returns-gets, Returns-require, Returns-or_raise, Returns-insert,
  Returns-audit, settle-Returns,
}
use vera_mmu.WorkGraph.{has_work_item}
use vera_mmu.Chain.Platform.{Platform}
use vera_mmu.WorkItems.{
  NewItem, create, create_rows, insert_item, item_is_valid, read_item, require_item_id, find_item,
  parent_is_known,
}

abbrev pub has_row : List WorkItem → String → Bool
has_row ws id = is_some (find (λ (w : WorkItem). w.id == id) ws)

abbrev pub ParentIn : List WorkItem → Option String → Type 0
ParentIn seen none = Unit
ParentIn seen (some p) = has_row seen p ≡ true

-- after the items that were seen, each item is new and comes after its parent
abbrev pub GrowsFrom : List WorkItem → List WorkItem → Type 0
GrowsFrom seen [] = Unit
GrowsFrom seen (w ∷ ws) =
    (has_row seen w.id ≡ false) × ParentIn seen w.parent_id × GrowsFrom (seen ++ w ∷ []) ws

abbrev pub IsForest : Tables → Type 0
IsForest t = GrowsFrom [] t.work_items

GrowsFrom-append :
    (seen ws : List WorkItem) (w : WorkItem)
    → GrowsFrom seen ws
    → has_row (seen ++ ws) w.id ≡ false
    → ParentIn (seen ++ ws) w.parent_id
    → GrowsFrom seen (ws ++ w ∷ [])
GrowsFrom-append seen [] w h fresh parent =
    subst (λ l. (has_row l w.id ≡ false) × ParentIn l w.parent_id × Unit) (append-nil seen)
      (fresh, parent, tt)
GrowsFrom-append seen (x ∷ ws) w h fresh parent = (
  h.0,
  h.1,
  GrowsFrom-append (seen ++ x ∷ []) ws w h.2
      (subst (λ l. has_row l w.id ≡ false) (sym (append_assoc seen (x ∷ []) ws)) fresh)
      (subst (λ l. ParentIn l w.parent_id) (sym (append_assoc seen (x ∷ []) ws)) parent),
)

valid-fresh :
    (platform : Platform) (t : Tables) (w : WorkItem)
    → item_is_valid platform t w ≡ true
    → has_row t.work_items w.id ≡ false
unfolding item_is_valid find_item
valid-fresh platform t w h = ground arith

parent-ParentIn :
    (t : Tables) (p : Option String) → parent_is_known t p ≡ true → ParentIn t.work_items p
unfolding has_work_item
parent-ParentIn t none h = tt
parent-ParentIn t (some p) h = h

create_rows-IsForest :
    (platform : Platform) (w : WorkItem) (type_text : String) (t : Tables)
    → IsForest t
    → Returns (λ _ u. IsForest u) (create_rows platform w type_text t)
unfolding create_rows insert_item pure
create_rows-IsForest platform w type_text t h = Returns-gets _ _ _ (
    Returns-require _ _ _ _ λ known. Returns-insert _ _ _ _ λ valid. Returns-gets _ _ _ (
      Returns-or_raise _ _ _ _ λ row found. Returns-audit _ _ _ _ _ λ audit. Returns-ok _ _ (
        GrowsFrom-append [] t.work_items w h (valid-fresh platform t w valid)
          (parent-ParentIn t w.parent_id known))))

create_rows-Commits :
    (platform : Platform) (w : WorkItem) (type_text : String)
    → Commits IsForest (create_rows platform w type_text)
create_rows-Commits platform w type_text = record {
  at = λ t h.
      settle-Returns IsForest t _ (create_rows-IsForest platform w type_text t h) h (λ _ u q. q);
}

read_item-Keeps : (platform : Platform) (w : WorkItem) → Keeps IsForest (read_item platform w)
unfolding read_item
read_item-Keeps platform w =
    Keeps-or_raise _ _ _ λ metadata. Keeps-gets _ _ (λ address. Keeps-pure _)

require_item_id-Keeps :
    (platform : Platform) (id : String) → Keeps IsForest (require_item_id platform id)
unfolding require_item_id
require_item_id-Keeps platform id = Keeps-gets _ _ (λ formed. Keeps-require_last _ _)

create-Keeps :
    (platform : Platform) (new : NewItem) (actor now : String)
    → Keeps IsForest (create platform new actor now)
unfolding create
create-Keeps platform new actor now = Keeps-bind _ _ (require_item_id-Keeps platform new.id) λ _.
    Keeps-or_raise _ _ _ λ type. Keeps-require _ _ _ (
      Keeps-require _ _ _ (
        Keeps-require _ _ _ (
          Keeps-gets _ _ λ formed. Keeps-require _ _ _ (
            Keeps-refuse _ _ _ (
              Keeps-require _ _ _ (
                Keeps-or_raise _ _ _ λ metadata. Keeps-require _ _ _ (
                  Keeps-bind _ _ (Keeps-atomic _ _ (create_rows-Commits platform _ new.item_type))
                    (read_item-Keeps platform))))))))

-- Creating an item, accepted or refused, keeps the items a forest: in the order of the table each
-- identifier is new, and each parent is an earlier item, so that no item is its own ancestor.
pub create-IsForest :
    (platform : Platform) (new : NewItem) (actor now : String) (s : Store)
    → IsForest s.tables
    → IsForest (create platform new actor now s).1.tables
create-IsForest platform new actor now s h = (create-Keeps platform new actor now).at s h
