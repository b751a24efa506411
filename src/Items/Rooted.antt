-- ===== src/Items/Rooted.antt =====
-- Following the parents of a tag, as the loops of ItemManager.ts do.
use snjs.Prelude.{
  find_lem, ℕ, suc, zero, ◌≤◌, Bool, true, false, ◌||◌, ◌≡◌, refl, ◌∙◌, ap, sym, subst, Option,
  none, some, ◌==◌, ==_iff, if◌then◌else◌, arith, Option-cases, Bool-cases, inl, inr, ◌⊎◌,
}
use snjs.Items.Tags.{
  ItemModels, ItemLaws, ItemManager, find_system_smart_view, find_item, emit, is_ancestor_from,
}

module _ (m : ItemModels) where
  open m use {Item, uuid, parent_id, find_decrypted, emit_payload}

  -- From a parent on, the parents end: at an item without one, or at one that is not there.
  pub data Rooted (s : ItemManager m) : Option ℕ → Type 0 where
    top : {parent : Option ℕ} → parent ≡ none → Rooted s parent
    missing :
        {parent : Option ℕ} (u : ℕ) → parent ≡ some u → find_item m u s ≡ none → Rooted s parent
    under :
        {parent : Option ℕ} (u : ℕ) (item : Item)
        → parent ≡ some u
        → find_item m u s ≡ some item
        → Rooted s (parent_id item)
        → Rooted s parent

  -- The hierarchy of the tags: from every uuid on the parents end.
  abbrev pub IsForest : ItemManager m → Type 0
  IsForest s = (u : ℕ) → Rooted s (some u)

  -- An item is among the parents that follow from one on.
  pub data Above (s : ItemManager m) (ancestor : ℕ) : Option ℕ → Type 0 where
    next : {parent : Option ℕ} → parent ≡ some ancestor → Above s ancestor parent
    further :
        {parent : Option ℕ} (u : ℕ) (item : Item)
        → parent ≡ some u
        → find_item m u s ≡ some item
        → Above s ancestor (parent_id item)
        → Above s ancestor parent

  module _ (laws : ItemLaws m) where
    open laws use {find_same, find_other, find_uuid}

    pub find_item-same :
        (item : Item) (s : ItemManager m) → find_item m (uuid item) (emit m item s) ≡ some item
    unfolding find_item find_system_smart_view
    find_item-same item s = ground (arith, find_same item s.collection)

    pub find_item-other :
        (item : Item) (u : ℕ) (s : ItemManager m)
        → (uuid item == u) ≡ false
        → find_item m u (emit m item s) ≡ find_item m u s
    unfolding find_item find_system_smart_view
    find_item-other item u s other = ground (arith, find_other item s.collection u)

    pub find_item-uuid :
        (u : ℕ) (item : Item) (s : ItemManager m) → find_item m u s ≡ some item → uuid item ≡ u
    unfolding find_item find_system_smart_view
    find_item-uuid u item s found = ground (
      arith,
      find_uuid s.collection u item,
      find_lem (λ view. uuid view == u) s.system_smart_views item,
      ==_iff (uuid item) u,
    )

    find_at :
        (item : Item) (u : ℕ) (s : ItemManager m)
        → (uuid item == u) ≡ true
        → find_item m u (emit m item s) ≡ some item
    find_at item u s same =
        subst (λ v. find_item m v (emit m item s) ≡ some item) ((==_iff (uuid item) u).0 same)
          (find_item-same item s)

    clear_lem :
        (rounds u : ℕ) (item : Item) (s : ItemManager m)
        → is_ancestor_from m (suc rounds) (uuid item) (some u) s ≡ some false
        → ((uuid item == u) ≡ false)
          × ((t : Item)
              → find_item m u s ≡ some t
              → is_ancestor_from m rounds (uuid item) (parent_id t) s ≡ some false)
    unfolding is_ancestor_from
    clear_lem rounds u item s clear = (
      ground (arith, ==_iff u (uuid item), ==_iff (uuid item) u),
      λ t found. ground (arith, ==_iff u (uuid item), ==_iff (uuid item) u),
    )

    -- Where an item other than the one that changed is not above, the parents still end.
    pub clear-Rooted :
        (rounds : ℕ) (parent : Option ℕ) (item : Item) (s : ItemManager m)
        → is_ancestor_from m rounds (uuid item) parent s ≡ some false
        → Rooted (emit m item s) parent
    unfolding is_ancestor_from
    clear-Rooted zero parent item s clear = ground arith
    clear-Rooted (suc rounds) none item s clear = Rooted.top refl
    clear-Rooted (suc rounds) (some u) item s clear =
        let (other, rest) = clear_lem rounds u item s clear in
        elim (Option-cases (find_item m u s)) [
          | inl gone ↦ Rooted.missing u refl (find_item-other item u s other ∙ gone)
          | inr (t, found) ↦
              Rooted.under u t refl (find_item-other item u s other ∙ found)
                (clear-Rooted rounds (parent_id t) item s (rest t found))
        ]

    -- An item that changed keeps all parents ending where its own new ones do.
    pub emit-Rooted :
        (item : Item) (s : ItemManager m) (parent : Option ℕ)
        → Rooted (emit m item s) (parent_id item)
        → Rooted s parent
        → Rooted (emit m item s) parent
    emit-Rooted item s parent ends (Rooted.top none_left) = Rooted.top none_left
    emit-Rooted item s parent ends (Rooted.missing u here gone) =
        elim (Bool-cases (uuid item == u)) [
          | inl same ↦ Rooted.under u item here (find_at item u s same) ends
          | inr other ↦ Rooted.missing u here (find_item-other item u s other ∙ gone)
        ]
    emit-Rooted item s parent ends (Rooted.under u t here found rest) =
        elim (Bool-cases (uuid item == u)) [
          | inl same ↦ Rooted.under u item here (find_at item u s same) ends
          | inr other ↦
              Rooted.under u t here (find_item-other item u s other ∙ found)
                (emit-Rooted item s (parent_id t) ends rest)
        ]

  loop_top :
      (rounds ancestor : ℕ) (parent : Option ℕ) (s : ItemManager m)
      → parent ≡ none
      → is_ancestor_from m (suc rounds) ancestor parent s ≡ some false
  unfolding is_ancestor_from
  loop_top rounds ancestor none s here = refl
  loop_top rounds ancestor (some u) s here = ground arith

  loop_missing :
      (rounds ancestor u : ℕ) (s : ItemManager m)
      → find_item m u s ≡ none
      → is_ancestor_from m (suc rounds) ancestor (some u) s ≡ some (u == ancestor)
  unfolding is_ancestor_from
  loop_missing rounds ancestor u s gone = ground arith

  loop_found :
      (rounds ancestor u : ℕ) (t : Item) (s : ItemManager m)
      → find_item m u s ≡ some t
      → is_ancestor_from m (suc rounds) ancestor (some u) s
        ≡ (if u == ancestor then some true else is_ancestor_from m rounds ancestor (parent_id t) s)
  unfolding is_ancestor_from
  loop_found rounds ancestor u t s found = ground arith

  if_lem :
      (b answer : Bool) (o : Option Bool)
      → o ≡ some answer
      → (if b then some true else o) ≡ some (b || answer)
  if_lem b answer o h = ground arith

  decided_lem :
      (b answer : Bool) (o : Option Bool)
      → (if b then some true else o) ≡ some answer
      → (answer ≡ true) ⊎ (o ≡ some answer)
  decided_lem true answer o h = inl (ground arith)
  decided_lem false answer o h = inr h

  -- With so many rounds or more, the loop gives the answer.
  abbrev pub Answers : ℕ → ℕ → Bool → ItemManager m → Option ℕ → Type 0
  Answers rounds ancestor answer s parent =
      (n : ℕ) → rounds ≤ n → is_ancestor_from m n ancestor parent s ≡ some answer

  top_ends :
      (ancestor : ℕ) (parent : Option ℕ) (s : ItemManager m)
      → parent ≡ none
      → Answers 1 ancestor false s parent
  top_ends ancestor parent s here zero enough = ground arith
  top_ends ancestor parent s here (suc n) enough = loop_top n ancestor parent s here

  missing_ends :
      (ancestor u : ℕ) (s : ItemManager m)
      → find_item m u s ≡ none
      → Answers 1 ancestor (u == ancestor) s (some u)
  missing_ends ancestor u s gone zero enough = ground arith
  missing_ends ancestor u s gone (suc n) enough = loop_missing n ancestor u s gone

  under_ends :
      (rounds ancestor u : ℕ) (t : Item) (answer : Bool) (s : ItemManager m)
      → find_item m u s ≡ some t
      → Answers rounds ancestor answer s (parent_id t)
      → Answers (suc rounds) ancestor ((u == ancestor) || answer) s (some u)
  under_ends rounds ancestor u t answer s found ends zero enough = ground arith
  under_ends rounds ancestor u t answer s found ends (suc n) enough =
      loop_found n ancestor u t s found ∙ if_lem (u == ancestor) answer _ (ends n (omega arith))

  -- Where the parents end, some number of rounds is enough, and the loop tells whether the item is
  -- among them.
  pub ends_lem :
      (ancestor : ℕ) (s : ItemManager m) (parent : Option ℕ)
      → Rooted s parent
      → (rounds : ℕ) × (answer : Bool) × Answers rounds ancestor answer s parent
        × (answer ≡ true → Above s ancestor parent)
  ends_lem ancestor s parent (Rooted.top none_left) =
      (1, false, top_ends ancestor parent s none_left, λ holds. ground arith)
  ends_lem ancestor s parent (Rooted.missing u here gone) = (
    1,
    u == ancestor,
    subst (Answers 1 ancestor (u == ancestor) s) (sym here) (missing_ends ancestor u s gone),
    λ holds. Above.next (here ∙ ap some ((==_iff u ancestor).0 holds)),
  )
  ends_lem ancestor s parent (Rooted.under u t here found rest) =
      let (rounds, answer, ends, holds) = ends_lem ancestor s (parent_id t) rest in
      (
        suc rounds,
        (u == ancestor) || answer,
        subst (Answers (suc rounds) ancestor ((u == ancestor) || answer) s) (sym here)
            (under_ends rounds ancestor u t answer s found ends),
        λ is_above. elim (Bool-cases (u == ancestor)) [
          | inl same ↦ Above.next (here ∙ ap some ((==_iff u ancestor).0 same))
          | inr other ↦
              Above.further u t here found (holds (subst (λ b. b || answer ≡ true) other is_above))
        ],
      )

  loop_same :
      (rounds ancestor : ℕ) (parent : Option ℕ) (s : ItemManager m)
      → parent ≡ some ancestor
      → is_ancestor_from m (suc rounds) ancestor parent s ≡ some true
  unfolding is_ancestor_from
  loop_same rounds ancestor none s here = ground arith
  loop_same rounds ancestor (some u) s here = ground (arith, ==_iff u ancestor)

  pub above_lem :
      (rounds ancestor : ℕ) (parent : Option ℕ) (s : ItemManager m) (answer : Bool)
      → is_ancestor_from m rounds ancestor parent s ≡ some answer
      → Above s ancestor parent
      → answer ≡ true
  unfolding is_ancestor_from
  above_lem zero ancestor parent s answer ends above = ground arith
  above_lem (suc rounds) ancestor parent s answer ends (Above.next here) =
      ground (arith, loop_same rounds ancestor parent s here)
  above_lem (suc rounds) ancestor parent s answer ends (Above.further u t here found above) =
      let ends' =
        sym (
          ap (λ o. is_ancestor_from m (suc rounds) ancestor o s) here
          ∙ loop_found rounds ancestor u t s found)
        ∙ ends in
      elim (decided_lem (u == ancestor) answer _ ends') [
        | inl same ↦ same
        | inr ends'' ↦ above_lem rounds ancestor (parent_id t) s answer ends'' above
      ]
