-- ===== src/Items/Changes.antt =====
-- Setting a parent, taking it away and creating a tag keep a hierarchy of tags without cycles.
use snjs.Prelude.{
  ℕ, Bool, true, false, ◌≡◌, ◌≢◌, refl, ◌∙◌, ap, sym, subst, String, Option, none, some, ◌==◌,
  ==_iff, arith, Option-cases, Bool-cases, inl, inr,
}
use snjs.Items.Tags.{
  ItemModels, ItemLaws, ItemManager, Change, find_item, emit, change_tag, is_ancestor_from,
  is_tag_ancestor, set_unless, set_tag_parent, get_tag_parent, unset_tag_parent, create_tag,
}
use snjs.Items.Rooted.{
  Rooted, IsForest, find_item-same, find_item-other, find_item-uuid, clear-Rooted, emit-Rooted,
}
use snjs.Items.Ancestors.{rooted_lem}

module _ (m : ItemModels) where
  open m use {Item, uuid, parent_id, make_child_of, unset_parent, create_tag_payload}

  module _ (laws : ItemLaws m) where
    open laws use {uuid_child, parent_child, uuid_unset, parent_unset, uuid_created, parent_created}

    emit-IsForest :
        (item : Item) (s : ItemManager m)
        → IsForest m s
        → Rooted m (emit m item s) (parent_id item)
        → IsForest m (emit m item s)
    emit-IsForest item s forest ends u = emit-Rooted m laws item s (some u) ends (forest u)

    change_tag-IsForest :
        (item : Item) (f : Item → Item) (s : ItemManager m)
        → IsForest m s
        → ((tag : Item) → find_item m (uuid item) s ≡ some tag → IsForest m (emit m (f tag) s))
        → IsForest m (change_tag m item f s).0
    unfolding change_tag
    change_tag-IsForest item f s forest kept = elim (Option-cases (find_item m (uuid item) s)) [
      | inl gone ↦ rw gone forest
      | inr (tag, found) ↦ rw found (kept tag found)
    ]

    -- A parent that does not follow from the tag itself can become its parent.
    child-IsForest :
        (rounds : ℕ) (parent tag : Item) (s : ItemManager m)
        → IsForest m s
        → (uuid tag == uuid parent) ≡ false
        → ((p : Item)
            → find_item m (uuid parent) s ≡ some p
            → is_ancestor_from m rounds (uuid tag) (parent_id p) s ≡ some false)
        → IsForest m (emit m (make_child_of tag parent) s)
    child-IsForest rounds parent tag s forest differs clear =
        let item = make_child_of tag parent in
        let other : (uuid item == uuid parent) ≡ false = rw (uuid_child tag parent) differs in
        emit-IsForest item s forest (
          rw (parent_child tag parent) (elim (Option-cases (find_item m (uuid parent) s)) [
            | inl gone ↦
                Rooted.missing (uuid parent) refl
                  (find_item-other m laws item (uuid parent) s other ∙ gone)
            | inr (p, found) ↦
                Rooted.under (uuid parent) p refl
                  (find_item-other m laws item (uuid parent) s other ∙ found)
                  (clear-Rooted m laws rounds (parent_id p) item s (
                    ap (λ u. is_ancestor_from m rounds u (parent_id p) s) (uuid_child tag parent)
                    ∙ clear p found))
          ]))

    clear_lem :
        (rounds : ℕ) (child parent p : Item) (s : ItemManager m)
        → is_tag_ancestor m rounds child parent s ≡ some false
        → find_item m (uuid parent) s ≡ some p
        → is_ancestor_from m rounds (uuid child) (parent_id p) s ≡ some false
    unfolding is_tag_ancestor
    clear_lem rounds child parent p s clear found = ground arith

    set_found-IsForest :
        (rounds : ℕ) (parent child : Item) (s : ItemManager m)
        → IsForest m s
        → (uuid parent == uuid child) ≡ false
        → is_tag_ancestor m rounds child parent s ≡ some false
        → IsForest m (change_tag m child (λ tag. make_child_of tag parent) s).0
    set_found-IsForest rounds parent child s forest differs clear =
        change_tag-IsForest child (λ tag. make_child_of tag parent) s forest
          (λ tag found.
            let same = find_item-uuid m laws (uuid child) tag s found in
            child-IsForest rounds parent tag s forest
              (rw same (
                ground
                  (arith, ==_iff (uuid child) (uuid parent), ==_iff (uuid parent) (uuid child))))
              (λ p there. rw same (clear_lem rounds child parent p s clear there)))

    -- A call that ran out of rounds leaves nothing.
    abbrev pub Kept : Option (Change m) → Type 0
    Kept none = Unit {0}
    Kept (some change) = IsForest m change.0

    set_unless-IsForest :
        (rounds : ℕ) (parent child : Item) (s : ItemManager m) (o : Option Bool)
        → IsForest m s
        → (uuid parent == uuid child) ≡ false
        → is_tag_ancestor m rounds child parent s ≡ o
        → Kept (set_unless m o parent child s)
    set_unless-IsForest rounds parent child s none forest differs clear = tt
    set_unless-IsForest rounds parent child s (some true) forest differs clear = forest
    set_unless-IsForest rounds parent child s (some false) forest differs clear =
        set_found-IsForest rounds parent child s forest differs clear

    pub set_tag_parent-IsForest :
        (rounds : ℕ) (parent child : Item) (s : ItemManager m)
        → IsForest m s
        → Kept (set_tag_parent m rounds parent child s)
    unfolding set_tag_parent
    set_tag_parent-IsForest rounds parent child s forest =
        elim (Bool-cases (uuid parent == uuid child)) [
          | inl same ↦ rw same forest
          | inr differs ↦
              rw differs (set_unless-IsForest rounds parent child s _ forest differs refl)
        ]

    pub unset-IsForest :
        (child : Item) (s : ItemManager m)
        → IsForest m s
        → IsForest m (unset_tag_parent m child s).0
    unfolding unset_tag_parent
    unset-IsForest child s forest = elim (Option-cases (get_tag_parent m child s)) [
      | inl nothing ↦ rw (unset_tag_parent, nothing) forest
      | inr (parent, there) ↦
          rw (unset_tag_parent, there)
            (change_tag-IsForest child unset_parent s forest (λ tag found.
              emit-IsForest (unset_parent tag) s forest (Rooted.top (parent_unset tag))))
    ]

    -- No item has the uuid for its parent.
    abbrev pub HasNoChild : ℕ → ItemManager m → Type 0
    HasNoChild u s = (v : ℕ) (item : Item) → find_item m v s ≡ some item → parent_id item ≢ some u

    apart_lem : (u v : ℕ) (o : Option ℕ) → o ≢ some u → o ≡ some v → (u == v) ≡ false
    apart_lem u v o differs here = ground (arith, ==_iff u v)

    -- Where no item has a tag for its parent, what happens to the tag changes no other's parents.
    avoid-Rooted :
        (item : Item) (s : ItemManager m)
        → HasNoChild (uuid item) s
        → (parent : Option ℕ) → Rooted m s parent
        → parent ≢ some (uuid item)
        → Rooted m (emit m item s) parent
    avoid-Rooted item s childless parent (Rooted.top none_left) differs = Rooted.top none_left
    avoid-Rooted item s childless parent (Rooted.missing v here gone) differs =
        Rooted.missing v here
          (find_item-other m laws item v s (apart_lem (uuid item) v parent differs here) ∙ gone)
    avoid-Rooted item s childless parent (Rooted.under v t here found rest) differs =
        Rooted.under v t here
          (find_item-other m laws item v s (apart_lem (uuid item) v parent differs here) ∙ found)
          (avoid-Rooted item s childless (parent_id t) rest (childless v t found))

    created-HasNoChild :
        (u : ℕ) (name : String) (s : ItemManager m)
        → HasNoChild u s
        → HasNoChild u (emit m (create_tag_payload u name) s)
    created-HasNoChild u name s childless v item found = λ is_parent. ground (
      arith,
      find_item-same m laws (create_tag_payload u name) s,
      find_item-other m laws (create_tag_payload u name) v s,
      uuid_created u name,
      parent_created u name,
      ==_iff u v,
      childless v item,
    )

    under_created :
        (u : ℕ) (p : Item) (s : ItemManager m)
        → IsForest m s
        → HasNoChild u s
        → find_item m (uuid p) s ≡ some p
        → uuid p ≢ u
        → (tag : Item) → uuid tag ≡ u
        → IsForest m (emit m (make_child_of tag p) s)
    under_created u p s forest childless found differs tag same =
        let item = make_child_of tag p in
        let at : uuid item ≡ u = uuid_child tag p ∙ same in
        let other : (uuid item == uuid p) ≡ false = ground (arith, ==_iff (uuid item) (uuid p)) in
        emit-IsForest item s forest (
          rw (parent_child tag p) (
            Rooted.under (uuid p) p refl (find_item-other m laws item (uuid p) s other ∙ found) (
              avoid-Rooted item s (subst (λ w. HasNoChild w s) (sym at) childless) (parent_id p)
                (rooted_lem m s forest (parent_id p))
                (λ is_parent. childless (uuid p) p found (is_parent ∙ ap some at)))))

    pub create-IsForest :
        (u : ℕ) (name : String) (parent : Option Item) (s : ItemManager m)
        → IsForest m s
        → HasNoChild u s
        → ((item : Item) → parent ≡ some item → uuid item ≢ u)
        → IsForest m (create_tag m u name parent s).0
    unfolding create_tag
    create-IsForest u name none s forest childless other =
        emit-IsForest (create_tag_payload u name) s forest (Rooted.top (parent_created u name))
    create-IsForest u name (some item) s forest childless other =
        let tag = create_tag_payload u name in
        let s' = emit m tag s in
        let forest' = emit-IsForest tag s forest (Rooted.top (parent_created u name)) in
        elim (Option-cases (find_item m (uuid item) s')) [
          | inl gone ↦ rw gone forest'
          | inr (p, found) ↦
              let same = find_item-uuid m laws (uuid item) p s' found in
              rw found (
                change_tag-IsForest tag (λ t. make_child_of t p) s' forest'
                  (λ t there.
                    under_created u p s' forest' (created-HasNoChild u name s childless)
                      (ap (λ v. find_item m v s') same ∙ found)
                      (λ e. other item refl (sym same ∙ e)) t
                      (find_item-uuid m laws (uuid tag) t s' there ∙ uuid_created u name)))
        ]
