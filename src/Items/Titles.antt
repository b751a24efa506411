-- ===== src/Items/Titles.antt =====
-- Finding tags by their titles in ItemManager.ts, and creating those of a whole hierarchy. The lists that
-- the collection gives belong to @standardnotes/models, with their laws in ListLaws.
use snjs.Prelude.{
  ℕ, String, Bool, true, false, ◌≡◌, Option, none, some, List, [], ◌∷◌, ◌++◌, ◌==◌, filter, find,
  str_eq, ok, throw, map,
}
use snjs.Items.Tags.{ItemModels, ItemManager, Change, find_item, get_tag_parent_chain, create_tag}

module _ (m : ItemModels) where
  open m use {
    Item, uuid, title, parent_id, make_child_of, create_tag_payload, Collection, find_decrypted,
    displayable_tags, tags_referencing, to_lower_case,
  }

  -- What is listed is in the collection under its uuid; titles are kept.
  pub record ListLaws : Type 0 where
    pub displayed :
        (test : Item → Bool) (c : Collection) (t : Item)
        → find test (displayable_tags c) ≡ some t
        → find_decrypted (uuid t) c ≡ some t
    pub referencing :
        (test : Item → Bool) (item : Item) (c : Collection) (t : Item)
        → find test (tags_referencing item c) ≡ some t
        → find_decrypted (uuid t) c ≡ some t
    pub title_created : (u : ℕ) (name : String) → title (create_tag_payload u name) ≡ name
    pub title_child : (item parent : Item) → title (make_child_of item parent) ≡ title item

  abbrev pub is_root : Item → Bool
  is_root tag = elim (parent_id tag) [ none ↦ true | some u ↦ false ]

  abbrev pub is_child_of : Item → Item → Bool
  is_child_of item tag = elim (parent_id tag) [ none ↦ false | some u ↦ u == uuid item ]

  unfoldable pub get_root_tags : ItemManager m → List Item
  get_root_tags s = filter is_root (displayable_tags s.collection)

  unfoldable pub get_tag_children : Item → ItemManager m → List Item
  get_tag_children item s = elim (find_item m (uuid item) s) [
    | none ↦ []
    | some tag ↦ filter (is_child_of item) (tags_referencing tag s.collection)
  ]

  abbrev pub has_title : String → Item → Bool
  has_title name tag = str_eq (to_lower_case (title tag)) (to_lower_case name)

  unfoldable pub find_tag_by_title : String → ItemManager m → Option Item
  find_tag_by_title name s = find (has_title name) (displayable_tags s.collection)

  unfoldable pub find_tag_by_title_and_parent : String → Option Item → ItemManager m → Option Item
  unfolding get_root_tags get_tag_children
  find_tag_by_title_and_parent name none s = find (has_title name) (get_root_tags s)
  find_tag_by_title_and_parent name (some parent) s =
      find (has_title name) (get_tag_children parent s)

  unfoldable pub find_or_create_tag_by_title : ℕ → String → Option Item → ItemManager m → Change m
  unfolding find_tag_by_title_and_parent create_tag
  find_or_create_tag_by_title u name parent s = elim (find_tag_by_title_and_parent name parent s) [
    | none ↦ create_tag m u name parent s
    | some tag ↦ (s, ok (some tag))
  ]

  -- The loop of `findOrCreateTagParentChain`; each title comes with the uuid that a tag gets if it is
  -- created.
  unfoldable pub parent_chain_from : List (ℕ × String) → Option Item → ItemManager m → Change m
  unfolding find_or_create_tag_by_title
  parent_chain_from [] current s = (s, ok current)
  parent_chain_from ((u, name) ∷ titles) current s =
      let (s', result) = find_or_create_tag_by_title u name current s in
      elim result [ throw e ↦ (s', throw e) | ok current' ↦ parent_chain_from titles current' s' ]

  abbrev pub ensure_current : Change m → Change m
  ensure_current (s, throw e) = (s, throw e)
  ensure_current (s, ok none) = (s, throw "Invalid tag hierarchy")
  ensure_current (s, ok (some tag)) = (s, ok (some tag))

  unfoldable pub find_or_create_tag_parent_chain : List (ℕ × String) → ItemManager m → Change m
  unfolding parent_chain_from
  find_or_create_tag_parent_chain titles s = ensure_current (parent_chain_from titles none s)

  -- `getTagLongTitle` before the titles are joined by "/".
  unfoldable pub get_tag_long_title : ℕ → Item → ItemManager m → Option (List String)
  unfolding get_tag_parent_chain
  get_tag_long_title rounds tag s = elim (get_tag_parent_chain m rounds tag s) [
    | none ↦ none
    | some hierarchy ↦ some (map title (hierarchy ++ tag ∷ []))
  ]
