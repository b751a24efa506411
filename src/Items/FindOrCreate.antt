-- ===== src/Items/FindOrCreate.antt =====
-- Finding a tag by its title and parent, or creating it, one step down a hierarchy.
use snjs.Prelude.{
  ℕ, ◌≡◌, refl, ◌∙◌, ap, sym, subst, String, Bool, true, ◌&&◌, Option, none, some, List, [], ◌∷◌,
  ==_iff, filter, find, eq_iff, ok, arith, Option-cases, inl, inr,
}
use snjs.Items.Tags.{
  ItemModels, ItemLaws, ItemManager, find_item, or_some, find_system_smart_view, emit, change_found,
  change_tag, create_under, create_tag,
}
use snjs.Items.Rooted.{find_item-same, find_item-other}
use snjs.Items.Titles.{
  ListLaws, is_root, is_child_of, get_root_tags, get_tag_children, has_title,
  find_tag_by_title_and_parent, find_or_create_tag_by_title,
}
use snjs.Items.Named.{Named, uuid_of, low_title, extend-Named, OnlyAt, only-Extends, Step}

find_filter_lem {ℓ} :
    {A : Type ℓ} (test kept : A → Bool) (xs : List A) (x : A)
    → find test (filter kept xs) ≡ some x
    → (test x ≡ true) × (kept x ≡ true)
find_filter_lem test kept [] x found = ground arith
find_filter_lem test kept (y ∷ ys) x found = ground (arith, find_filter_lem test kept ys x)

-- A test after a filter is one test.
pub find_both_lem {ℓ} :
    {A : Type ℓ} (test kept : A → Bool) (xs : List A)
    → find test (filter kept xs) ≡ find (λ x. kept x && test x) xs
find_both_lem test kept [] = refl
find_both_lem test kept (y ∷ ys) = ground (arith, find_both_lem test kept ys)

module _ (m : ItemModels) where
  open m use {
    Item, uuid, title, parent_id, make_child_of, create_tag_payload, to_lower_case,
    displayable_tags, tags_referencing,
  }

  module _ (laws : ItemLaws m) (lists : ListLaws m) where
    open laws use {uuid_child, parent_child, uuid_created, parent_created}
    open lists use {displayed, referencing, title_created, title_child}

    named_lem :
        (names : List String) (p : Item) (s : ItemManager m)
        → Named m s names (some p)
        → find_item m (uuid p) s ≡ some p
    named_lem names p s (Named.down name t above there parent low) = there

    root_lem : (t : Item) → is_root m t ≡ true → parent_id t ≡ none
    root_lem t is_root = ground arith

    child_lem : (p t : Item) → is_child_of m p t ≡ true → parent_id t ≡ some (uuid p)
    child_lem p t is_child = elim (Option-cases (parent_id t)) [
      | inl no_parent ↦ ground arith
      | inr (u, has) ↦ ground (arith, ==_iff u (uuid p))
    ]

    -- A tag found among those that a list of the collection keeps.
    listed_lem :
        (name : String) (kept : Item → Bool) (xs : List Item) (t : Item) (s : ItemManager m)
        → ((test : Item → Bool)
            → find test xs ≡ some t
            → m.find_decrypted (uuid t) s.collection ≡ some t)
        → find (has_title m name) (filter kept xs) ≡ some t
        → (find_item m (uuid t) s ≡ some t) × (kept t ≡ true) × (low_title m t ≡ to_lower_case name)
    unfolding find_item
    listed_lem name kept xs t s law found =
        let (titled, is_kept) = find_filter_lem (has_title m name) kept xs t found in
        let there = law _ (sym (find_both_lem (has_title m name) kept xs) ∙ found) in
        (
          ap (λ o. or_some m o (find_system_smart_view m (uuid t) s)) there,
          is_kept,
          (eq_iff (low_title m t) (to_lower_case name)).0 titled,
        )

    children_lem :
        (p : Item) (s : ItemManager m)
        → find_item m (uuid p) s ≡ some p
        → get_tag_children m p s ≡ filter (is_child_of m p) (tags_referencing p s.collection)
    unfolding get_tag_children
    children_lem p s there = ground arith

    found_at :
        (name : String) (parent : Option Item) (names : List String) (s : ItemManager m) (t : Item)
        → Named m s names parent
        → find_tag_by_title_and_parent m name parent s ≡ some t
        → (find_item m (uuid t) s ≡ some t)
          × (parent_id t ≡ uuid_of m parent)
          × (low_title m t ≡ to_lower_case name)
    unfolding find_tag_by_title_and_parent get_root_tags
    found_at name none names s t named found =
        let (there, kept, low) =
          listed_lem name (is_root m) _ t s (λ test. displayed test s.collection t) found in
        (there, root_lem t kept, low)
    found_at name (some p) names s t named found =
        let (there, kept, low) =
          listed_lem name (is_child_of m p) _ t s (λ test. referencing test p s.collection t)
            (sym (ap (find (has_title m name)) (children_lem p s (named_lem names p s named)))
              ∙ found) in
        (there, child_lem p t kept, low)

    found-Step :
        (names : List String) (name : String) (u : ℕ) (parent : Option Item) (s : ItemManager m)
        (t : Item)
        → Named m s names parent
        → find_tag_by_title_and_parent m name parent s ≡ some t
        → Step m names name u s (s, ok (some t))
    found-Step names name u parent s t named found =
        let (there, has_parent, low) = found_at name parent names s t named found in
        record {
          tag = t;
          returned = refl;
          only = λ v other. refl;
          named = Named.down name t named there has_parent low;
        }

    -- A new item with the uuid, below what is named.
    emitted-Step :
        (names : List String) (name : String) (u : ℕ) (parent : Option Item) (item : Item)
        (s s' : ItemManager m)
        → Named m s names parent
        → find_item m u s ≡ none
        → uuid item ≡ u
        → OnlyAt m u s s'
        → find_item m (uuid item) s' ≡ some item
        → parent_id item ≡ uuid_of m parent
        → low_title m item ≡ to_lower_case name
        → Step m names name u s (s', ok (find_item m u s'))
    emitted-Step names name u parent item s s' named unused at only there has_parent low = record {
      tag = item;
      returned = ap ok (ap (λ v. find_item m v s') (sym at) ∙ there);
      only = only;
      named =
          Named.down name item
            (extend-Named m s s' (only-Extends m u s s' unused only) names parent named) there
            has_parent low;
    }

    emit-OnlyAt :
        (u : ℕ) (item : Item) (s : ItemManager m) → uuid item ≡ u → OnlyAt m u s (emit m item s)
    emit-OnlyAt u item s at v other = find_item-other m laws item v s (rw at other)

    -- What `createTag` leaves under a parent that is there.
    under_lem :
        (u : ℕ) (name : String) (p : Item) (s : ItemManager m)
        → find_item m (uuid p) s ≡ some p
        → find_item m u s ≡ none
        → (let tag = create_tag_payload u name in
            let s' = emit m (make_child_of tag p) (emit m tag s) in
            create_tag m u name (some p) s ≡ (s', ok (find_item m u s')))
    unfolding create_tag change_tag
    under_lem u name p s there unused =
        let tag = create_tag_payload u name in
        let s' = emit m tag s in
        let s'' = emit m (make_child_of tag p) s' in
        let at = uuid_created u name in
        let there' = only-Extends m u s s' unused (emit-OnlyAt u tag s at) (uuid p) p there in
        ap (λ o. create_under m o tag s') there'
        ∙ ap (λ o. change_found m o (uuid tag) (λ t. make_child_of t p) s')
            (find_item-same m laws tag s)
        ∙ ap (λ v. (s'', ok (find_item m v s''))) at

    create-Step :
        (names : List String) (name : String) (u : ℕ) (parent : Option Item) (s : ItemManager m)
        → Named m s names parent
        → find_item m u s ≡ none
        → Step m names name u s (create_tag m u name parent s)
    unfolding create_tag
    create-Step names name u none s named unused =
        let tag = create_tag_payload u name in
        emitted-Step names name u none tag s (emit m tag s) named unused (uuid_created u name)
          (emit-OnlyAt u tag s (uuid_created u name)) (find_item-same m laws tag s)
          (parent_created u name) (ap to_lower_case (title_created u name))
    create-Step names name u (some p) s named unused =
        let tag = create_tag_payload u name in
        let child = make_child_of tag p in
        let s' = emit m tag s in
        let at = uuid_child tag p ∙ uuid_created u name in
        subst (Step m names name u s)
          (sym (under_lem u name p s (named_lem names p s named) unused))
          (emitted-Step names name u (some p) child s (emit m child s') named unused at
            (λ v other.
              emit-OnlyAt u child s' at v other ∙ emit-OnlyAt u tag s (uuid_created u name) v other)
            (find_item-same m laws child s') (parent_child tag p)
            (ap to_lower_case (title_child tag p ∙ title_created u name)))

    pub step_lem :
        (names : List String) (name : String) (u : ℕ) (parent : Option Item) (s : ItemManager m)
        → Named m s names parent
        → find_item m u s ≡ none
        → Step m names name u s (find_or_create_tag_by_title m u name parent s)
    unfolding find_or_create_tag_by_title
    step_lem names name u parent s named unused =
        elim (Option-cases (find_tag_by_title_and_parent m name parent s)) [
          | inl nothing ↦
              rw (find_or_create_tag_by_title, nothing)
                (create-Step names name u parent s named unused)
          | inr (t, found) ↦
              rw (find_or_create_tag_by_title, found)
                (found-Step names name u parent s t named found)
        ]
