-- ===== src/Singleton/Loop.antt =====
-- The loop over the items whose singletons are resolved.
use snjs.Prelude.{
  ◌≤◌, Bool, true, false, not, ◌||◌, ◌≡◌, refl, sym, ◌∙◌, subst, ◌⊎◌, List, [], ◌∷◌, ◌++◌, filter,
  any, length, leb, if_intro, arith, Bool-cases, inl, inr, Result, ok, ◌>>=◌, leb→le,
}
use snjs.Prelude.Sort.{sort, IsSorted}
use snjs.Singleton.{
  SingletonModels, matches, set_items_to_be_deleted, compare_created, all_but_first,
  handle_strategy, resolve_item, items_matching_predicate,
}
use snjs.Prelude.Counts.{
  count, count-sort, count_none, count_ext, Mem-filter, Mem-passes, Mem-sort, Mem-sort_back,
  any_found,
}
use snjs.Singleton.Deletion.{Same, Same-refl, Same-trans, SingletonLaws}
use snjs.Singleton.Resolution.{
  Unique, IsHeir, IsReduced, created-IsSorted, All-Mem, one_left, deletion-IsReduced,
}
use mathlib.Core.List.{Memᴰ}
use mathlib.Core.List.Memᴰ

module _ (m : SingletonModels) (laws : SingletonLaws m) where
  open m use {Item, uuid, created_at}

  pub IsReduced-refl : (items : List Item) → Unique m items → IsReduced m items items
  IsReduced-refl items unique = record {
    unique = unique;
    fewer = λ z. omega arith;
    heirs = λ x k. (x, k, record { no_younger = omega arith; kind = inl (Same-refl m x) });
  }

  IsHeir-trans : (x y z : Item) → IsHeir m x y → IsHeir m y z → IsHeir m x z
  IsHeir-trans x y z a b = record {
    no_younger = omega (arith, a.no_younger, b.no_younger);
    kind = join a.kind b.kind;
  }
    where
      join :
          Same m x y ⊎ (matches m x y ≡ true)
          → Same m y z ⊎ (matches m y z ≡ true)
          → Same m x z ⊎ (matches m x z ≡ true)
      join (inl e) (inl f) = inl (Same-trans m x y z e f)
      join (inl e) (inr f) =
          inr (laws.matches_sym z x (sym (e.same_matches z) ∙ laws.matches_sym y z f))
      join (inr e) (inl f) = inr (f.same_matches x ∙ e)
      join (inr e) (inr f) = inr (laws.matches_trans x y z e f)

  pub IsReduced-trans : (a b c : List Item) → IsReduced m a b → IsReduced m b c → IsReduced m a c
  IsReduced-trans a b c p q = record {
    unique = q.unique;
    fewer = λ z. omega (arith, p.fewer z, q.fewer z);
    heirs = λ x k.
        (let (y, l, h) = p.heirs x k in
          let (z, n, i) = q.heirs y l in (z, n, IsHeir-trans x y z h i));
  }

  -- What matches an item matches the same items.
  count_class :
      (q h : Item) (xs : List Item)
      → matches m q h ≡ true
      → count (matches m h) xs ≡ count (matches m q) xs
  count_class q h xs e = count_ext (matches m h) (matches m q) same xs
    where
      same : (z : Item) → matches m h z ≡ matches m q z
      same z = elim (Bool-cases (matches m q z)) [
        | inl yes_q ↦ laws.matches_trans h q z (laws.matches_sym q h e) yes_q ∙ sym yes_q
        | inr no_q ↦ elim (Bool-cases (matches m h z)) [
          | inl yes_h ↦ yes_h ∙ sym (laws.matches_trans q h z e yes_h)
          | inr no_h ↦ no_h ∙ sym no_q
        ]
      ]

  -- Deleting all but the first of the items `l` of a singleton, oldest first.
  deletion_lem :
      (q : Item) (items l : List Item)
      → Unique m items
      → ((test : Item → Bool) → count test l ≡ count test (filter (matches m q) items))
      → ((x : Item) → Memᴰ x l → Memᴰ x items × (matches m q x ≡ true))
      → ((x : Item) → Memᴰ x items → matches m q x ≡ true → Memᴰ x l)
      → IsSorted (compare_created m) (λ x y. created_at x ≤ created_at y) l
      → (let items' = set_items_to_be_deleted m (all_but_first m l) items in
          IsReduced m items items' × (count (matches m q) items' ≤ 1))
  unfolding set_items_to_be_deleted
  deletion_lem q items [] unique counts inside back sorted = (
    IsReduced-refl items unique,
    omega (arith, count_none (matches m q) items (λ x k. none_matches x k)),
  )
    where
      none_matches : (x : Item) → Memᴰ x items → matches m q x ≡ false
      none_matches x k = elim (Bool-cases (matches m q x)) [
        | inl hit ↦ elim (back x k hit) [ ]
        | inr miss ↦ miss
      ]
  deletion_lem q items (e ∷ ds) unique counts inside back sorted = (
    deletion-IsReduced m laws q e ds items unique counts inside oldest,
    one_left m laws q e ds items unique counts inside oldest,
  )
    where
      oldest : (x : Item) → Memᴰ x items → matches m q x ≡ true → created_at e ≤ created_at x
      oldest x k matched = go (back x k matched)
        where
          go : Memᴰ x (e ∷ ds) → created_at e ≤ created_at x
          go (Memᴰ.head p) = rw p (omega arith)
          go (Memᴰ.tail j) = All-Mem m (λ y. created_at e ≤ created_at y) x ds sorted.0 j

  -- The items after one step of the loop, at `q`.
  pub record IsHandled (q : Item) (items handled' items' : List Item) : Type 0 where
    pub reduced : IsReduced m items items'
    pub each_single : (h : Item) → Memᴰ h handled' → count (matches m h) items' ≤ 1
    pub single : m.is_singleton q ≡ true → count (matches m q) items' ≤ 1

  -- What was handled before and what matches `q` has at most one item each.
  handled_lem :
      (q : Item) (handled items items' : List Item)
      → ((h : Item) → Memᴰ h handled → count (matches m h) items' ≤ 1)
      → count (matches m q) items' ≤ 1
      → (h : Item) → Memᴰ h (handled ++ filter (matches m q) items)
      → count (matches m h) items' ≤ 1
  handled_lem q handled items items' before one h k = elim (Memᴰ.append_cases handled k) [
    | inl old ↦ before h old
    | inr new ↦ omega (arith, one, count_class q h items' (Mem-passes (matches m q) h items new).1)
  ]

  strategy_lem :
      (matching items : List Item)
      → handle_strategy m matching true items
        ≡ ok (set_items_to_be_deleted m (all_but_first m (sort (compare_created m) matching)) items)
  unfolding handle_strategy
  strategy_lem matching items = refl

  sorted_lem :
      (q : Item) (items : List Item)
      → Unique m items
      → (let items' =
            set_items_to_be_deleted m
              (all_but_first m (sort (compare_created m) (filter (matches m q) items)))
              items in
          IsReduced m items items' × (count (matches m q) items' ≤ 1))
  sorted_lem q items unique =
      deletion_lem q items (sort (compare_created m) matching) unique
        (λ test. count-sort (compare_created m) test matching)
        (λ x k. Mem-passes (matches m q) x items (Mem-sort_back (compare_created m) x matching k))
        (λ x k matched.
          Mem-sort (compare_created m) x matching (Mem-filter (matches m q) x items k matched))
        (created-IsSorted m matching)
    where
      matching : List Item
      matching = filter (matches m q) items

  pub resolve_item-IsHandled :
      (q : Item) (handled items : List Item)
      → m.keeps_earliest q ≡ true
      → Unique m items
      → ((h : Item) → Memᴰ h handled → count (matches m h) items ≤ 1)
      → (r : List Item × List Item) × (resolve_item m q handled items ≡ ok r)
        × IsHandled q items r.0 r.1
  unfolding resolve_item items_matching_predicate count
  resolve_item-IsHandled q handled items keeps unique before =
      if_intro P (any (m.same_object q) handled || not (m.is_singleton q)) _ _ skip
        (λ _. if_intro P (leb (length matching) 1) _ _ few (λ _. many))
    where
      P : Result (List Item × List Item) → Type 0
      P res = (r : List Item × List Item) × (res ≡ ok r) × IsHandled q items r.0 r.1

      matching : List Item
      matching = filter (matches m q) items

      skip :
          any (m.same_object q) handled || not (m.is_singleton q) ≡ true → P (ok (handled, items))
      skip h = (
        (handled, items),
        refl,
        record {
          reduced = IsReduced-refl items unique;
          each_single = before;
          single = λ s.
              (let (x, k, e) = any_found (m.same_object q) handled (ground (arith, h)) in
                subst (λ z. count (matches m z) items ≤ 1) (sym (laws.same_object_eq q x e))
                  (before x k));
        },
      )

      few : leb (length matching) 1 ≡ true → P (ok (handled ++ matching, items))
      few h = (
        (handled ++ matching, items),
        refl,
        record {
          reduced = IsReduced-refl items unique;
          each_single = handled_lem q handled items items before (leb→le _ _ h);
          single = λ _. leb→le _ _ h;
        },
      )

      many : P (
          handle_strategy m matching (m.keeps_earliest q) items >>= λ items'.
          ok (handled ++ matching, items'))
      many =
          rw (keeps, strategy_lem matching items)
            (let (reduced, one) = sorted_lem q items unique in
              (
                (handled ++ matching, _),
                refl,
                record {
                  reduced = reduced;
                  each_single =
                      handled_lem q handled items _
                        (λ h k. omega (arith, before h k, reduced.fewer h)) one;
                  single = λ _. one;
                },
              ))
