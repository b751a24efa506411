-- ===== src/Items/Tags.antt =====
-- The tags of ItemManager.ts. Items, their mutators and the collection that holds them by uuid belong to
-- @standardnotes/models and are a parameter, with its laws in ItemLaws; an emitted item is one that
-- the payload manager has passed on to the collection. Uuids are numbers, as they are only
-- compared: a parent that is missing or empty is `none`. A loop that follows parents takes rounds,
-- and `none` means that they ran out.
use snjs.Prelude.{
  ℕ, suc, zero, String, Bool, true, false, not, ◌≡◌, Option, none, some, List, [], ◌∷◌, ◌==◌, find,
  if◌then◌else◌, Result, ok, throw,
}

pub record ItemModels : Type 1 where
  pub Item : Type 0
  pub uuid : Item → ℕ
  pub title : Item → String
  pub parent_id : Item → Option ℕ
  -- TagMutator on the item, with getResult
  pub make_child_of : Item → Item → Item
  pub unset_parent : Item → Item
  pub create_tag_payload : ℕ → String → Item
  pub Collection : Type 0
  pub find_decrypted : ℕ → Collection → Option Item
  pub emit_payload : Item → Collection → Collection
  pub displayable_tags : Collection → List Item
  pub tags_referencing : Item → Collection → List Item
  pub to_lower_case : String → String

module _ (m : ItemModels) where
  open m use {
    Item, uuid, title, parent_id, make_child_of, unset_parent, create_tag_payload, Collection,
    find_decrypted, emit_payload, displayable_tags, tags_referencing, to_lower_case,
  }

  -- What the code relies on of the models.
  pub record ItemLaws : Type 0 where
    pub find_same :
        (item : Item) (c : Collection)
        → find_decrypted (uuid item) (emit_payload item c) ≡ some item
    pub find_other :
        (item : Item) (c : Collection) (u : ℕ)
        → (uuid item == u) ≡ false
        → find_decrypted u (emit_payload item c) ≡ find_decrypted u c
    pub find_uuid :
        (c : Collection) (u : ℕ) (item : Item) → find_decrypted u c ≡ some item → uuid item ≡ u
    pub uuid_child : (item parent : Item) → uuid (make_child_of item parent) ≡ uuid item
    pub parent_child :
        (item parent : Item) → parent_id (make_child_of item parent) ≡ some (uuid parent)
    pub uuid_unset : (item : Item) → uuid (unset_parent item) ≡ uuid item
    pub parent_unset : (item : Item) → parent_id (unset_parent item) ≡ none
    pub uuid_created : (u : ℕ) (name : String) → uuid (create_tag_payload u name) ≡ u
    pub parent_created : (u : ℕ) (name : String) → parent_id (create_tag_payload u name) ≡ none

  pub record ItemManager : Type 0 where
    pub collection : Collection
    pub system_smart_views : List Item

  abbrev pub or_some : Option Item → Option Item → Option Item
  or_some none other = other
  or_some (some item) other = some item

  unfoldable pub find_system_smart_view : ℕ → ItemManager → Option Item
  find_system_smart_view u s = find (λ view. uuid view == u) s.system_smart_views

  unfoldable pub find_item : ℕ → ItemManager → Option Item
  unfolding find_system_smart_view
  find_item u s = or_some (find_decrypted u s.collection) (find_system_smart_view u s)

  abbrev pub emit : Item → ItemManager → ItemManager
  emit item s = record s { collection = emit_payload item s.collection }

  abbrev pub parent_of : Option Item → Option ℕ
  parent_of none = none
  parent_of (some item) = parent_id item

  -- The item that a parent is, where it has one that is there.
  abbrev pub find_parent : Option ℕ → ItemManager → Option Item
  find_parent none s = none
  find_parent (some u) s = find_item u s

  unfoldable pub get_tag_parent : Item → ItemManager → Option Item
  get_tag_parent item s = find_parent (parent_of (find_item (uuid item) s)) s

  -- The loop of `getTagParentChain`; `chain.unshift`.
  unfoldable pub chain_from : ℕ → Option ℕ → List Item → ItemManager → Option (List Item)
  chain_from zero parent chain s = none
  chain_from (suc rounds) none chain s = some chain
  chain_from (suc rounds) (some u) chain s = elim (find_item u s) [
    | none ↦ some chain
    | some parent ↦ chain_from rounds (parent_id parent) (parent ∷ chain) s
  ]

  unfoldable pub get_tag_parent_chain : ℕ → Item → ItemManager → Option (List Item)
  unfolding chain_from
  get_tag_parent_chain rounds item s = elim (find_item (uuid item) s) [
    | none ↦ some []
    | some tag ↦ chain_from rounds (parent_id tag) [] s
  ]

  -- The loop of `isTagAncestor`
  unfoldable pub is_ancestor_from : ℕ → ℕ → Option ℕ → ItemManager → Option Bool
  is_ancestor_from zero ancestor parent s = none
  is_ancestor_from (suc rounds) ancestor none s = some false
  is_ancestor_from (suc rounds) ancestor (some u) s =
      if u == ancestor then some true else elim (find_item u s) [
        | none ↦ some false
        | some parent ↦ is_ancestor_from rounds ancestor (parent_id parent) s
      ]

  unfoldable pub is_tag_ancestor : ℕ → Item → Item → ItemManager → Option Bool
  unfolding is_ancestor_from
  is_tag_ancestor rounds tag child s = elim (find_item (uuid child) s) [
    | none ↦ some false
    | some item ↦ is_ancestor_from rounds (uuid tag) (parent_id item) s
  ]

  unfoldable pub is_valid_tag_parent : ℕ → Item → Item → ItemManager → Option Bool
  unfolding is_tag_ancestor
  is_valid_tag_parent rounds parent child s =
      if uuid parent == uuid child
      then some false
      else elim (is_tag_ancestor rounds child parent s) [
        | none ↦ none
        | some is_ancestor ↦ some (not is_ancestor)
      ]

  -- The state that a call leaves, and what it returns or throws.
  abbrev pub Change : Type 0
  Change = ItemManager × Result (Option Item)

  abbrev pub change_found : Option Item → ℕ → (Item → Item) → ItemManager → Change
  change_found none u mutate s = (s, throw "Attempting to change non-existant tag")
  change_found (some tag) u mutate s = let s' = emit (mutate tag) s in (s', ok (find_item u s'))

  unfoldable pub change_tag : Item → (Item → Item) → ItemManager → Change
  unfolding find_item
  change_tag item mutate s = change_found (find_item (uuid item) s) (uuid item) mutate s

  -- What `setTagParent` does once it knows whether the child is an ancestor.
  abbrev pub set_unless : Option Bool → Item → Item → ItemManager → Option Change
  set_unless none parent child s = none
  set_unless (some true) parent child s = some (s, throw "Can not set a tag ancestor of itself")
  set_unless (some false) parent child s =
      some (change_tag child (λ tag. make_child_of tag parent) s)

  unfoldable pub set_tag_parent : ℕ → Item → Item → ItemManager → Option Change
  unfolding is_tag_ancestor change_tag
  set_tag_parent rounds parent child s =
      if uuid parent == uuid child
      then some (s, throw "Can not set a tag parent of itself")
      else set_unless (is_tag_ancestor rounds child parent s) parent child s

  unfoldable pub unset_tag_parent : Item → ItemManager → Change
  unfolding get_tag_parent change_tag
  unset_tag_parent child s = elim (get_tag_parent child s) [
    | none ↦ (s, ok (some child))
    | some parent ↦ change_tag child unset_parent s
  ]

  -- `createTag`, with the uuid that was generated for it. Where the parent is missing the new tag stays.
  abbrev pub create_under : Option Item → Item → ItemManager → Change
  create_under none tag s = (s, throw "Invalid parent tag")
  create_under (some parent) tag s = change_tag tag (λ t. make_child_of t parent) s

  unfoldable pub create_tag : ℕ → String → Option Item → ItemManager → Change
  unfolding change_tag
  create_tag u name parent s =
      let tag = create_tag_payload u name in
      let s' = emit tag s in
      elim parent [
        | none ↦ (s', ok (find_item u s'))
        | some item ↦ create_under (find_item (uuid item) s') tag s'
      ]
