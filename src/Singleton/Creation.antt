-- ===== src/Singleton/Creation.antt =====
-- Finding the one item of a type, or creating it.
use snjs.Prelude.{
  ℕ, Bool, true, not, ◌≡◌, ◌⊎◌, refl, ap, sym, subst, Option, none, some, List, [], ◌∷◌, filter,
  filter-append, length, length-append, if◌then◌else◌, arith, if_intro, inl, inr,
}
use snjs.Singleton.{
  SingletonModels, Downloaded, Store, is_of_type, observe, first_match, create_singleton, first_or,
  found_or, after_download, find_or_create_content_type_singleton,
}
use snjs.Prelude.Counts.{count, Mem-passes}
use mathlib.Core.List.{Memᴰ}

module _ (m : SingletonModels) (type : ℕ) where
  open m use {Item, content_type}

  abbrev pub test : Item → Bool
  test = is_of_type m type

  -- Where the item that is returned comes from, and what there is after it.
  pub data IsFound (d : Downloaded m) (new : Item) (s : Store m) (i : Item) (s' : Store m)
      : Type 0 where
    existing : Memᴰ i s.all_items → s' ≡ s → IsFound d new s i s'
    downloaded :
        count test s.all_items ≡ 0
        → Memᴰ i d.items_after
        → s' ≡ after_download m d s
        → IsFound d new s i s'
    notified :
        (inserted : List Item)
        → count test s.all_items ≡ 0
        → Memᴰ inserted d.notifications
        → Memᴰ i inserted
        → s' ≡ after_download m d s
        → IsFound d new s i s'
    created :
        count test s.all_items ≡ 0 → i ≡ new → count test s'.all_items ≡ 1 → IsFound d new s i s'

  created_one :
      (new : Item) (s : Store m)
      → test new ≡ true
      → count test s.all_items ≡ 0
      → count test (create_singleton m type new s).1.all_items ≡ 1
  unfolding create_singleton count
  created_one new s passes absent = ground (
    arith,
    ap length (filter-append test s.all_items (new ∷ [])),
    length-append (filter test s.all_items) (new ∷ []),
  )

  first_lem :
      (inserted l : List Item) (before : Option Item) (i : Item)
      → ((x : Item) → Memᴰ x l → Memᴰ x inserted × (test x ≡ true))
      → first_match m before l ≡ some i
      → (before ≡ some i) ⊎ (Memᴰ i inserted × (test i ≡ true))
  first_lem inserted [] before i inside h = inl h
  first_lem inserted (x ∷ xs) before i inside h =
      inr
        (subst (λ y. Memᴰ y inserted × (test y ≡ true)) (ground arith) (inside x (Memᴰ.head refl)))

  -- The observer remembers an item of the type that it was told of.
  observed :
      (ns : List (List Item)) (before : Option Item) (i : Item)
      → observe m type ns before ≡ some i
      → (before ≡ some i)
        ⊎ ((inserted : List Item) × Memᴰ inserted ns × (Memᴰ i inserted × (test i ≡ true)))
  observed [] before i h = inl h
  observed (inserted ∷ ns) before i h =
      elim (observed ns (first_match m before (filter test inserted)) i h) [
        | inl now ↦
            elim (first_lem inserted (filter test inserted) before i
              (λ x. Mem-passes test x inserted) now) [
                | inl old ↦ inl old
                | inr (k, passes) ↦ inr (inserted, Memᴰ.head refl, (k, passes))
              ]
        | inr (later, k, rest) ↦ inr (later, Memᴰ.tail k, rest)
      ]

  -- `i` is found or created, and is of the type.
  Found : Downloaded m → Item → Store m → Item × Store m → Type 0
  Found d new s r = IsFound d new s r.0 r.1 × (test r.0 ≡ true)

  module _ (d : Downloaded m) (new : Item) (s : Store m) (passes : test new ≡ true) where
    create_case :
        (s' : Store m)
        → count test s.all_items ≡ 0
        → count test s'.all_items ≡ 0
        → Found d new s (create_singleton m type new s')
    unfolding Found create_singleton
    create_case s' absent still =
        (IsFound.created absent refl (created_one new s' passes still), passes)

    refreshed :
        (l : List Item)
        → filter test d.items_after ≡ l
        → count test s.all_items ≡ 0
        → Found d new s (
            first_or m l
              (create_singleton m type new (after_download m d s))
              (after_download m d s))
    unfolding Found count
    refreshed [] eq absent = create_case (after_download m d s) absent (ap length eq)
    refreshed (x ∷ xs) eq absent =
        let (k, p) = Mem-passes test x d.items_after (subst (Memᴰ x) (sym eq) (Memᴰ.head refl)) in
        (IsFound.downloaded absent k refl, p)

    after_sync :
        (o : Option Item)
        → observe m type d.notifications none ≡ o
        → count test s.all_items ≡ 0
        → Found d new s (
            found_or m o
              (first_or m
                (filter test d.items_after)
                (create_singleton m type new (after_download m d s))
                (after_download m d s))
              (after_download m d s))
    unfolding Found
    after_sync none eq absent = refreshed (filter test d.items_after) refl absent
    after_sync (some i) eq absent = elim (observed d.notifications none i eq) [
      | inl bad ↦ absurd (ground (arith, bad))
      | inr (inserted, k, (l, p)) ↦ (IsFound.notified inserted absent k l refl, p)
    ]

    search_all :
        (l : List Item)
        → filter test s.all_items ≡ l
        → Found d new s (
            first_or m l
              (if not s.last_sync_date
                then found_or m
                    (observe m type d.notifications none)
                    (first_or m
                      (filter test d.items_after)
                      (create_singleton m type new (after_download m d s))
                      (after_download m d s))
                    (after_download m d s)
                else create_singleton m type new s)
              s)
    unfolding Found count
    search_all [] eq =
        if_intro (Found d new s) (not s.last_sync_date) _ _ (λ _. after_sync _ refl (ap length eq))
          (λ _. create_case s (ap length eq) (ap length eq))
    search_all (x ∷ xs) eq =
        let (k, p) = Mem-passes test x s.all_items (subst (Memᴰ x) (sym eq) (Memᴰ.head refl)) in
        (IsFound.existing k refl, p)

    -- Where the new payload is of the type, so is the item that is returned: it is one that there was,
    -- and nothing changes; or one that the sync brought, or that its observer was told of; or, only where
    -- there is none before and after the sync, the new one, which is then the only one of the type.
    pub find_or_create-IsFound :
        (let (i, s') = find_or_create_content_type_singleton m type d new s in
          IsFound d new s i s' × (test i ≡ true))
    unfolding find_or_create_content_type_singleton Found
    find_or_create-IsFound = search_all (filter test s.all_items) refl
