-- ===== src/WorkItems.antt =====
-- `WorkItemService` of src/vera_mmu/work_items.py: immutable planning records and their parents.
pub mod Forest
use vera_mmu.Common.{
  ℕ, String, Bool, true, false, not, ◌&&◌, ◌||◌, ◌==◌, text_Eq, ltb, leb, Option, none, some, List,
  [], ◌∷◌, ◌++◌, find, is_some, Result, ok, err, if◌then◌else◌, pure, gets, require, or_raise,
  refuse, ◌>>=◌, ◌>>◌,
}
use vera_mmu.Common.Text.{is_canonical_line, is_stripped, has_code, len}
use vera_mmu.Common.Int.{ℤ, pos, negsuc}
use vera_mmu.Addressing.{is_address_of, make_address, AddressError}
use vera_mmu.Store.{Tables, Store, Method, Rows, raised, atomic, append_audit, insert, has_length}
use vera_mmu.Store.Rows.{WorkItem, WorkItemType, work_item_type, Value, text}
use vera_mmu.WorkGraph.{has_work_item}
use vera_mmu.Chain.Platform.{Platform, Json, json_object, Members, object_of}

pub data WorkItemError : Type 0 where
  invalid_item_id unknown_type invalid_title invalid_description invalid_priority : WorkItemError
  invalid_parent_id own_parent invalid_assignee invalid_metadata invalid_actor : WorkItemError
  unknown_parent invalid_item item_unreadable item_not_found metadata_unreadable : WorkItemError

-- the record that the service returns; the status is PLANNED, and `updated_at` is `created_at`
pub record WorkItemView : Type 0 where
  pub row : WorkItem
  pub metadata : Members
  pub address : String

-- `_require_optional_text`
unfoldable pub is_optional_line : ℕ → String → Bool
unfolding is_stripped has_code len
is_optional_line maximum s = is_stripped s && leb (len s) maximum && not (has_code 0 s)

abbrev pub optional_line : ℕ → Option String → Bool
optional_line maximum none = true
optional_line maximum (some s) = is_optional_line maximum s

-- `_require_priority`: what SQLite's 64-bit integers hold
abbrev pub fits_priority : Option ℤ → Bool
fits_priority none = true
fits_priority (some (pos n)) = ltb n 9223372036854775808
fits_priority (some (negsuc n)) = ltb n 9223372036854775808

abbrev pub parent_is : String → Option String → Bool
parent_is id none = false
parent_is id (some p) = p == id

abbrev pub parent_is_known : Tables → Option String → Bool
parent_is_known t none = true
parent_is_known t (some p) = has_work_item t p

abbrev parent_is_address : String → Option String → Bool
parent_is_address project none = true
parent_is_address project (some p) = is_address_of project "work-item" p

unfoldable pub find_item : Tables → String → Option WorkItem
find_item t id = find (λ w. w.id == id) t.work_items

-- what the service is asked to create
pub record NewItem : Type 0 where
  pub id : String
  pub item_type : String
  pub title : String
  pub description : String
  pub priority : Option ℤ
  pub parent_id : Option String
  pub assignee : Option String
  pub metadata : Members

abbrev pub address_or_empty : Result AddressError String → String
address_or_empty (ok a) = a
address_or_empty (err e) = ""

module _ (platform : Platform) where
  -- the constraints of `work_item`
  unfoldable pub item_is_valid : Tables → WorkItem → Bool
  unfolding has_length find_item has_work_item
  item_is_valid t w =
      has_length 1 256 w.id
      && not (is_some (find_item t w.id))
      && has_length 1 1024 w.title
      && has_length 0 4096 w.description
      && parent_is_known t w.parent_id
      && is_some (platform.loads w.metadata_json)
      && has_length 1 256 w.created_by
      && not (parent_is w.id w.parent_id)

  unfoldable pub insert_item : {E : Type 0} → WorkItem → Rows E Unit
  unfolding item_is_valid
  insert_item w =
      insert (λ t. item_is_valid t w) (λ t. record t { work_items = t.work_items ++ w ∷ [] })

  -- the block of `create`
  unfoldable pub create_rows : WorkItem → String → Rows WorkItemError WorkItem
  unfolding insert_item find_item has_work_item
  create_rows w type_text = do
    known ← gets (λ t. parent_is_known t w.parent_id)
    require known (raised unknown_parent)
    insert_item w
    found ← gets (λ t. find_item t w.id)
    row ← or_raise found (raised item_unreadable)
    append_audit w.created_at "WORK_ITEM_CREATED"
        (("work_item_id", text w.id) ∷ ("type", text type_text) ∷ ("actor", text w.created_by) ∷ [])
    pure row

  -- `_work_item_from_row`; the identifier of a stored row has an address
  unfoldable pub read_item : WorkItem → Method WorkItemError WorkItemView
  unfolding make_address
  read_item w = do
    metadata ← or_raise (object_of (platform.loads w.metadata_json)) (raised metadata_unreadable)
    address ← gets (λ s. make_address s.project_id "work-item" w.id)
    pure (record { row = w; metadata = metadata; address = address_or_empty address })

  -- `_require_identifier`
  unfoldable pub require_item_id : String → Method WorkItemError Unit
  unfolding is_address_of
  require_item_id id = do
    formed ← gets (λ s. is_address_of s.project_id "work-item" id)
    require formed (raised invalid_item_id)

  abbrev pub item_row : NewItem → WorkItemType → Json → String → String → WorkItem
  item_row new type metadata actor now = record {
    id = new.id;
    item_type = type;
    title = new.title;
    description = new.description;
    priority = new.priority;
    parent_id = new.parent_id;
    assignee = new.assignee;
    metadata_json = platform.canonical_json metadata;
    created_at = now;
    created_by = actor;
  }

  -- `WorkItemService.create`
  unfoldable pub create : NewItem → String → String → Method WorkItemError WorkItemView
  unfolding create_rows read_item require_item_id is_optional_line
  create new actor now = do
    require_item_id new.id
    type ← or_raise (work_item_type new.item_type) (raised unknown_type)
    require (is_canonical_line 1024 new.title) (raised invalid_title)
    require (is_optional_line 4096 new.description) (raised invalid_description)
    require (fits_priority new.priority) (raised invalid_priority)
    formed ← gets (λ s. parent_is_address s.project_id new.parent_id)
    require formed (raised invalid_item_id)
    refuse (parent_is new.id new.parent_id) (raised own_parent)
    require (optional_line 256 new.assignee) (raised invalid_assignee)
    metadata ←
        or_raise (platform.loads (platform.canonical_json (json_object new.metadata)))
          (raised invalid_metadata)
    require (is_canonical_line 256 actor) (raised invalid_actor)
    row ← atomic invalid_item (create_rows (item_row new type metadata actor now) new.item_type)
    read_item row

  -- `WorkItemService.get`
  unfoldable pub get_item : String → Method WorkItemError WorkItemView
  unfolding read_item find_item require_item_id
  get_item id = do
    require_item_id id
    found ← gets (λ s. find_item s.tables id)
    row ← or_raise found (raised item_not_found)
    read_item row
