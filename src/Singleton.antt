-- ===== src/Singleton.antt =====
-- The singletons of packages/snjs/lib/Services/Singleton/SingletonManager.ts: items of which at most one
-- may exist, with what setItemsToBeDeleted of Services/Items/ItemManager.ts does to the items that are
-- decrypted. Items, their predicates and the collection's index of references belong to
-- @standardnotes/models and are a parameter. The items that are deleted at once (Promise.all) are
-- deleted one after the other.
pub mod Deletion
pub mod Resolution
pub mod Loop
pub mod Resolved
pub mod Creation
mod Examples
use snjs.Prelude.{
  ℕ, ◌+◌, String, Bool, true, false, not, ◌&&◌, ◌||◌, ◌≡◌, Option, none, some, List, [], ◌∷◌, ◌++◌,
  ◌==◌, map, find, filter, any, is_empty, if◌then◌else◌, ltb, leb, length, Result, ok, throw, ◌>>=◌,
}
use snjs.Prelude.Sort.{ℤ, pos, negsuc, sort}

pub data SyncEvent : Type 0 where
  download_first_sync_completed sync_completed_with_all_items_uploaded other_event : SyncEvent

pub record SingletonModels : Type 1 where
  pub Item : Type 0
  pub uuid : Item → ℕ
  pub content_type : Item → ℕ
  pub created_at : Item → ℕ
  pub is_singleton : Item → Bool
  -- `item.singletonStrategy === SingletonStrategy.KeepEarliest`
  pub keeps_earliest : Item → Bool
  -- `other.satisfiesPredicate(item.singletonPredicate())`
  pub satisfies : Item → Item → Bool
  -- `===` on the immutable items
  pub same_object : Item → Item → Bool
  pub uuids_that_reference : ℕ → List Item → List ℕ
  -- the change by mutator.removeItemAsRelationship(gone)
  pub remove_relationship : Item → Item → Item

module _ (m : SingletonModels) where
  open m use {
    Item, uuid, content_type, created_at, is_singleton, keeps_earliest, satisfies, same_object,
    uuids_that_reference, remove_relationship,
  }

  -- `items` are those of the item manager; `syncs` counts the requests.
  pub record SingletonManager : Type 0 where
    pub items : List Item
    pub resolve_queue : List Item
    pub syncs : ℕ

  unfoldable pub pop_resolve_queue : SingletonManager → List Item × SingletonManager
  pop_resolve_queue s = (s.resolve_queue, record s { resolve_queue = [] })

  -- The observer of items.
  unfoldable pub items_changed : List Item → List Item → SingletonManager → SingletonManager
  items_changed inserted unerrored s =
      let s' : SingletonManager =
        if not (is_empty unerrored)
        then record s { resolve_queue = s.resolve_queue ++ unerrored }
        else s in
      if not (is_empty inserted)
      then record s' { resolve_queue = s'.resolve_queue ++ inserted }
      else s'

  unfoldable pub items_matching_predicate : ℕ → (Item → Bool) → List Item → List Item
  items_matching_predicate type predicate items =
      filter (λ i. (content_type i == type) && predicate i) items

  -- What counts as the same singleton as an item.
  abbrev pub matches : Item → Item → Bool
  matches item other = (content_type other == content_type item) && satisfies item other

  -- The references to a deleted item go.
  abbrev pub change_item : Item → ℕ → List Item → List Item
  change_item gone id items =
      map (λ i. if uuid i == id then remove_relationship gone i else i) items

  abbrev pub change_items : Item → List ℕ → List Item → List Item
  change_items gone [] items = items
  change_items gone (id ∷ ids) items = change_items gone ids (change_item gone id items)

  abbrev pub delete_found : ℕ → Option Item → List Item → List Item
  delete_found u none items = items
  delete_found u (some gone) items =
      change_items gone (uuids_that_reference u items) (filter (λ i. not (uuid i == u)) items)

  unfoldable pub set_item_to_be_deleted : Item → List Item → List Item
  set_item_to_be_deleted item items =
      delete_found (uuid item) (find (λ i. uuid i == uuid item) items) items

  unfoldable pub set_items_to_be_deleted : List Item → List Item → List Item
  set_items_to_be_deleted [] items = items
  set_items_to_be_deleted (d ∷ ds) items =
      set_items_to_be_deleted ds (set_item_to_be_deleted d items)

  -- -1: a comes first, 1: b comes first
  abbrev pub compare_created : Item → Item → ℤ
  compare_created a b = if ltb (created_at a) (created_at b) then negsuc 0 else pos 1

  -- `arrayByRemovingFromIndex(items, 0)`
  abbrev pub all_but_first : List Item → List Item
  all_but_first [] = []
  all_but_first (x ∷ xs) = xs

  unfoldable pub handle_strategy : List Item → Bool → List Item → Result (List Item)
  handle_strategy matching keep_earliest items =
      if not keep_earliest
      then throw "Unhandled singleton strategy"
      else ok (set_items_to_be_deleted (all_but_first (sort compare_created matching)) items)

  -- One item of the loop; `handled` are those that were handled before it.
  unfoldable pub resolve_item : Item → List Item → List Item → Result (List Item × List Item)
  resolve_item item handled items =
      if any (same_object item) handled || not (is_singleton item)
      then ok (handled, items)
      else (let matching = items_matching_predicate (content_type item) (satisfies item) items in
          if leb (length matching) 1
          then ok (handled ++ matching, items)
          else handle_strategy matching (keeps_earliest item) items >>= λ items'.
              ok (handled ++ matching, items'))

  unfoldable pub resolve_loop : List Item → List Item → List Item → Result (List Item × List Item)
  resolve_loop [] handled items = ok (handled, items)
  resolve_loop (item ∷ queue) handled items =
      resolve_item item handled items >>= λ r. resolve_loop queue r.0 r.1

  abbrev pub is_all_uploaded : SyncEvent → Bool
  is_all_uploaded sync_completed_with_all_items_uploaded = true
  is_all_uploaded _ = false

  abbrev pub synced : Bool → SingletonManager → SingletonManager
  synced needs s = if needs then record s { syncs = s.syncs + 1 } else s

  unfoldable pub resolve_singletons_for_items :
      List Item → SyncEvent → SingletonManager → Result SingletonManager
  resolve_singletons_for_items [] event s = ok s
  resolve_singletons_for_items (item ∷ queue) event s =
      resolve_loop (item ∷ queue) [] s.items >>= λ r.
      ok (synced (not (is_empty r.0) && is_all_uploaded event) (record s { items = r.1 }))

  -- The observer of the sync service.
  unfoldable pub handle_sync_event : SyncEvent → SingletonManager → Result SingletonManager
  unfolding pop_resolve_queue
  handle_sync_event other_event s = ok s
  handle_sync_event event s =
      let (queue, s') = pop_resolve_queue s in resolve_singletons_for_items queue event s'

  unfoldable pub find_singleton : ℕ → (Item → Bool) → SingletonManager → Option Item
  unfolding items_matching_predicate
  find_singleton type predicate s = elim (items_matching_predicate type predicate s.items) [
    | [] ↦ none
    | x ∷ xs ↦ some x
  ]

  -- What the sync that findOrCreateContentTypeSingleton waits for brings: the items after it, and what
  -- its temporary observer was told of inserted items, in order.
  pub record Downloaded : Type 0 where
    pub items_after : List Item
    pub notifications : List (List Item)

  -- The items and the errored payloads, as uuids with their types.
  pub record Store : Type 0 where
    pub all_items : List Item
    pub errored_payloads : List (ℕ × ℕ)
    pub last_sync_date : Bool
    pub sync_requests : ℕ

  abbrev pub is_of_type : ℕ → Item → Bool
  is_of_type type i = content_type i == type

  abbrev pub first_match : Option Item → List Item → Option Item
  first_match matching_item [] = matching_item
  first_match matching_item (i ∷ is) = some i

  -- The temporary observer remembers the first that matches in the last notification with one.
  abbrev pub observe : ℕ → List (List Item) → Option Item → Option Item
  observe type [] matching_item = matching_item
  observe type (inserted ∷ rest) matching_item =
      observe type rest (first_match matching_item (filter (is_of_type type) inserted))

  -- `item` is the item of the new payload.
  unfoldable pub create_singleton : ℕ → Item → Store → Item × Store
  create_singleton type item s = (
    item,
    record s {
      all_items = s.all_items ++ item ∷ [];
      errored_payloads = filter (λ p. not (p.1 == type)) s.errored_payloads;
      sync_requests = s.sync_requests + 1;
    },
  )

  abbrev pub first_or : List Item → (Item × Store) → Store → Item × Store
  first_or [] created s = created
  first_or (i ∷ is) created s = (i, s)

  abbrev pub found_or : Option Item → (Item × Store) → Store → Item × Store
  found_or (some i) later s = (i, s)
  found_or none later s = later

  abbrev pub after_download : Downloaded → Store → Store
  after_download d s = record s { all_items = d.items_after; sync_requests = s.sync_requests + 1 }

  unfoldable pub find_or_create_content_type_singleton :
      ℕ → Downloaded → Item → Store → Item × Store
  unfolding create_singleton
  find_or_create_content_type_singleton type d item s =
      first_or (filter (is_of_type type) s.all_items)
        (if not s.last_sync_date
          then (let s' = after_download d s in
              found_or (observe type d.notifications none)
                (first_or (filter (is_of_type type) s'.all_items) (create_singleton type item s')
                  s')
                s')
          else create_singleton type item s)
        s
