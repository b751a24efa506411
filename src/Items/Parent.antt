-- ===== src/Items/Parent.antt =====
-- Setting the parent of a tag, against `isValidTagParent` and `getTagParent`.
use snjs.Prelude.{
  ℕ, ◌≤◌, Bool, true, false, not, ◌≡◌, refl, ◌∙◌, ap, sym, subst, String, Option, none, some, ◌==◌,
  ==_iff, if◌then◌else◌, arith, Bool-cases, inl, inr, ok, throw,
}
use snjs.Items.Tags.{
  ItemModels, ItemLaws, ItemManager, Change, find_item, emit, parent_of, find_parent, change_found,
  change_tag, is_tag_ancestor, is_valid_tag_parent, set_unless, set_tag_parent, get_tag_parent,
}
use snjs.Items.Rooted.{IsForest, find_item-same, find_item-other, find_item-uuid}
use snjs.Items.Ancestors.{is_tag_ancestor-ends}

module _ (m : ItemModels) where
  open m use {Item, uuid, parent_id, make_child_of}

  -- A tag became the child of another.
  pub record IsChild (parent child tag : Item) (s s' : ItemManager m) : Type 0 where
    pub has_parent : get_tag_parent m child s' ≡ find_item m (uuid parent) s
    pub changed : find_item m (uuid child) s' ≡ some (make_child_of tag parent)
    pub others : (u : ℕ) → (uuid child == u) ≡ false → find_item m u s' ≡ find_item m u s

  -- What setting a parent does: nothing but an error, or the tag is its child.
  abbrev pub IsOutcome : Bool → Item → Item → Item → ItemManager m → Option (Change m) → Type 0
  IsOutcome valid parent child tag s none = ⊥
  IsOutcome false parent child tag s (some (s', result)) =
      (s' ≡ s) × (e : String) × (result ≡ throw e)
  IsOutcome true parent child tag s (some (s', result)) =
      (result ≡ ok (some (make_child_of tag parent))) × IsChild parent child tag s s'

  module _ (laws : ItemLaws m) where
    open laws use {uuid_child, parent_child}

    make_child_of-IsChild :
        (parent child tag : Item) (s : ItemManager m)
        → find_item m (uuid child) s ≡ some tag
        → (uuid parent == uuid child) ≡ false
        → IsChild parent child tag s (emit m (make_child_of tag parent) s)
    unfolding get_tag_parent
    make_child_of-IsChild parent child tag s found differs =
        let item = make_child_of tag parent in
        let same : uuid item ≡ uuid child =
          uuid_child tag parent ∙ find_item-uuid m laws (uuid child) tag s found in
        let at : find_item m (uuid child) (emit m item s) ≡ some item =
          subst (λ u. find_item m u (emit m item s) ≡ some item) same
            (find_item-same m laws item s) in
        record {
          has_parent =
              ap (λ o. find_parent m (parent_of m o) (emit m item s)) at
              ∙ ap (λ o. find_parent m o (emit m item s)) (parent_child tag parent)
              ∙ find_item-other m laws item (uuid parent) s (
                  rw same (
                    ground (
                      arith,
                      ==_iff (uuid child) (uuid parent),
                      ==_iff (uuid parent) (uuid child),
                    )));
          changed = at;
          others = λ u other. find_item-other m laws item u s (rw same other);
        }

    set_found :
        (parent child tag : Item) (s : ItemManager m)
        → find_item m (uuid child) s ≡ some tag
        → (uuid parent == uuid child) ≡ false
        → IsOutcome true parent child tag s
            (some (change_tag m child (λ t. make_child_of t parent) s))
    unfolding change_tag
    set_found parent child tag s found differs =
        subst
          (λ o.
            IsOutcome true parent child tag s
              (some (change_found m o (uuid child) (λ t. make_child_of t parent) s)))
          (sym found)
          (let is_child = make_child_of-IsChild parent child tag s found differs in
            (ap ok is_child.changed, is_child))

    set_unless-IsOutcome :
        (above : Bool) (parent child tag : Item) (s : ItemManager m)
        → find_item m (uuid child) s ≡ some tag
        → (uuid parent == uuid child) ≡ false
        → IsOutcome (not above) parent child tag s (set_unless m (some above) parent child s)
    set_unless-IsOutcome true parent child tag s found differs = (refl, _, refl)
    set_unless-IsOutcome false parent child tag s found differs =
        set_found parent child tag s found differs

    valid_lem :
        (n : ℕ) (above : Bool) (parent child tag : Item) (s : ItemManager m)
        → find_item m (uuid child) s ≡ some tag
        → is_tag_ancestor m n child parent s ≡ some above
        → (let valid = if uuid parent == uuid child then false else not above in
            (is_valid_tag_parent m n parent child s ≡ some valid)
            × IsOutcome valid parent child tag s (set_tag_parent m n parent child s))
    unfolding is_valid_tag_parent set_tag_parent
    valid_lem n above parent child tag s found answer =
        elim (Bool-cases (uuid parent == uuid child)) [
          | inl same ↦ rw same (refl, (refl, _, refl))
          | inr differs ↦
              rw (differs, answer)
                (refl, set_unless-IsOutcome above parent child tag s found differs)
        ]

    -- In a hierarchy without cycles, for two tags of which the child is there: with enough rounds
    -- `isValidTagParent` gives an answer, the same for every larger number, and with as many
    -- `setTagParent` ends. If the answer is no it throws and nothing changes. If it is yes, the
    -- parent that `getTagParent` then finds is the one that was set, and no other item changed.
    pub set_tag_parent-IsOutcome :
        (s : ItemManager m) (parent child tag : Item)
        → IsForest m s
        → find_item m (uuid child) s ≡ some tag
        → (rounds : ℕ) × (valid : Bool) × ((n : ℕ)
            → rounds ≤ n
            → (is_valid_tag_parent m n parent child s ≡ some valid)
              × IsOutcome valid parent child tag s (set_tag_parent m n parent child s))
    set_tag_parent-IsOutcome s parent child tag forest found =
        let (rounds, above, ends, _) = is_tag_ancestor-ends m s forest child parent in
        (
          rounds,
          if uuid parent == uuid child then false else not above,
          λ n enough. valid_lem n above parent child tag s found (ends n enough),
        )
