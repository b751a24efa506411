-- ===== src/Items/Hierarchy.antt =====
-- A hierarchy of tags that was found or created has the titles that were asked for.
use snjs.Prelude.{
  ℕ, ◌≤◌, ◌≡◌, refl, ◌∙◌, ap, sym, subst, String, false, Option, none, some, List, [], ◌∷◌, ◌++◌,
  append-nil, append_assoc, ◌==◌, All, ok, throw, map, arith,
}
use snjs.Items.Tags.{ItemModels, ItemLaws, ItemManager, Change, find_item}
use snjs.Items.Titles.{
  ListLaws, find_or_create_tag_by_title, parent_chain_from, ensure_current,
  find_or_create_tag_parent_chain, get_tag_long_title,
}
use snjs.Items.Named.{Named, OnlyAt, long_lem}
use snjs.Items.FindOrCreate.{step_lem}

module _ (m : ItemModels) where
  open m use {
    Item, uuid, title, parent_id, make_child_of, create_tag_payload, to_lower_case,
    displayable_tags, tags_referencing,
  }

  module _ (laws : ItemLaws m) (lists : ListLaws m) where
    -- The uuids are new, and each is given once.
    abbrev pub AreNew : List (ℕ × String) → ItemManager m → Type 0
    AreNew [] s = Unit {0}
    AreNew ((u, name) ∷ titles) s =
        (find_item m u s ≡ none) × All (λ t. (u == t.0) ≡ false) titles × AreNew titles s

    only-AreNew :
        (u : ℕ) (titles : List (ℕ × String)) (s s' : ItemManager m)
        → OnlyAt m u s s'
        → All (λ t. (u == t.0) ≡ false) titles
        → AreNew titles s
        → AreNew titles s'
    only-AreNew u [] s s' only apart new = tt
    only-AreNew u ((v, name) ∷ titles) s s' only apart new =
        (only v apart.0 ∙ new.0, new.1, only-AreNew u titles s s' only apart.1 new.2)

    -- What the loop leaves.
    record IsDone (names : List String) (change : Change m) : Type 0 where
      current : Option Item
      result : change.1 ≡ ok current
      named : Named m change.0 names current

    next_lem :
        (u : ℕ) (name : String) (titles : List (ℕ × String)) (current : Option Item) (tag : Item)
        (s : ItemManager m)
        → (find_or_create_tag_by_title m u name current s).1 ≡ ok (some tag)
        → parent_chain_from m ((u, name) ∷ titles) current s
          ≡ parent_chain_from m titles (some tag) (find_or_create_tag_by_title m u name current s).0
    unfolding parent_chain_from
    next_lem u name titles current tag s returned = rw (parent_chain_from, returned) refl

    loop_lem :
        (titles : List (ℕ × String)) (names : List String) (current : Option Item)
        (s : ItemManager m)
        → Named m s names current
        → AreNew titles s
        → IsDone (names ++ map (λ t. t.1) titles) (parent_chain_from m titles current s)
    unfolding parent_chain_from
    loop_lem [] names current s named new = record {
      current = current;
      result = refl;
      named = rw append-nil named;
    }
    loop_lem ((u, name) ∷ titles) names current s named new =
        let step = step_lem m laws lists names name u current s named new.0 in
        let s' = (find_or_create_tag_by_title m u name current s).0 in
        subst (IsDone (names ++ map (λ t. t.1) ((u, name) ∷ titles)))
          (sym (next_lem u name titles current step.tag s step.returned))
          (subst (λ ns. IsDone ns (parent_chain_from m titles (some step.tag) s'))
            (append_assoc names (name ∷ []) (map (λ t. t.1) titles))
            (loop_lem titles (names ++ name ∷ []) (some step.tag) s' step.named
              (only-AreNew u titles s s' step.only new.1 new.2)))

    none_lem :
        (s : ItemManager m) (names : List String) (current : Option Item)
        → Named m s names current
        → current ≡ none
        → names ≡ []
    none_lem s names current Named.root is_none = refl
    none_lem s names current (Named.down name t above there parent low) is_none = ground arith

    current_lem :
        (name : String) (names : List String) (change : Change m) (current : Option Item)
        → change.1 ≡ ok current
        → Named m change.0 (name ∷ names) current
        → (tag : Item) × (change.1 ≡ ok (some tag)) × Named m change.0 (name ∷ names) (some tag)
    current_lem name names change none result named =
        ground (arith, none_lem change.0 (name ∷ names) none named refl)
    current_lem name names change (some tag) result named = (tag, result, named)

    ensure_lem :
        (change : Change m) (tag : Item)
        → change.1 ≡ ok (some tag)
        → ensure_current m change ≡ (change.0, ok (some tag))
    ensure_lem (s, throw e) tag result = ground arith
    ensure_lem (s, ok none) tag result = ground arith
    ensure_lem (s, ok (some t)) tag result = ap (λ r. (s, r)) result

    -- Where the laws of the collection hold: for a hierarchy of at least one title, with uuids for
    -- the tags to create that no item has and that differ from each other, the call returns a tag,
    -- whose long title then ends with enough rounds and is the titles that were given, in their
    -- order, up to upper and lower case; whether each tag was found or created.
    pub find_or_create-titles :
        (u : ℕ) (name : String) (titles : List (ℕ × String)) (s : ItemManager m)
        → AreNew ((u, name) ∷ titles) s
        → (s' : ItemManager m) × (tag : Item) × (find_or_create_tag_parent_chain m
              ((u, name) ∷ titles)
              s
            ≡ (s', ok (some tag)))
          × (rounds : ℕ) × (long : List String) × ((n : ℕ)
              → rounds ≤ n
              → get_tag_long_title m n tag s' ≡ some long)
          × (map to_lower_case long ≡ map to_lower_case (name ∷ map (λ t. t.1) titles))
    unfolding find_or_create_tag_parent_chain
    find_or_create-titles u name titles s new =
        let change = parent_chain_from m ((u, name) ∷ titles) none s in
        let done = loop_lem ((u, name) ∷ titles) [] none s Named.root new in
        let (tag, result, named) =
          current_lem name (map (λ t. t.1) titles) change done.current done.result done.named in
        let (rounds, long, ends, same) = long_lem m _ tag change.0 named in
        (change.0, tag, ensure_lem change tag result, rounds, long, ends, same)
