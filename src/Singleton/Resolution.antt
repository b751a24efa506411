-- ===== src/Singleton/Resolution.antt =====
-- What resolving the singletons leaves.
use snjs.Prelude.{
  ℕ, ◌≤◌, Bool, true, false, not, ◌≡◌, refl, sym, ap, ◌∙◌, subst, ◌⊎◌, List, [], ◌∷◌, ◌==◌, filter,
  any, length, arith, Bool-cases, inl, inr, All,
}
use snjs.Prelude.Sort.{sort, IsSorted, sort-IsSorted}
use snjs.Singleton.{SingletonModels, matches, set_items_to_be_deleted, compare_created}
use snjs.Prelude.Counts.{
  count, filter-filter, count-filter-le, Mem-filter, Mem-unique, Mem-any, any-false, any_found,
  count_none,
}
use snjs.Singleton.Deletion.{
  Same, SingletonLaws, deletion-Alike, count-Alike, Mem-Alike, is_kept, Respects,
}
use mathlib.Core.List.{Memᴰ}

module _ (m : SingletonModels) where
  open m use {Item, uuid, created_at}

  -- No two items have the same uuid.
  abbrev pub Unique : List Item → Type 0
  Unique items = (u : ℕ) → count (λ i. u == uuid i) items ≤ 1

  -- An item that stands for another: the same, or one of the same singleton that is no younger.
  pub record IsHeir (x y : Item) : Type 0 where
    pub no_younger : created_at y ≤ created_at x
    pub kind : Same m x y ⊎ (matches m x y ≡ true)

  pub record IsReduced (items items' : List Item) : Type 0 where
    pub unique : Unique items'
    pub fewer : (z : Item) → count (matches m z) items' ≤ count (matches m z) items
    pub heirs : (x : Item) → Memᴰ x items → (y : Item) × Memᴰ y items' × IsHeir x y

  pub created-IsSorted :
      (xs : List Item)
      → IsSorted
          (compare_created m)
          (λ x y. created_at x ≤ created_at y)
          (sort (compare_created m) xs)
  created-IsSorted xs =
      sort-IsSorted (compare_created m) (λ x y. created_at x ≤ created_at y) (λ x y h. ground arith)
        (λ x y h. ground arith) (λ x y z h k. omega arith) xs

  pub All-Mem : (P : Item → Type 0) (x : Item) (xs : List Item) → All P xs → Memᴰ x xs → P x
  All-Mem P x [] h k = elim k [ ]
  All-Mem P x (y ∷ ys) h (Memᴰ.head p) = subst P (sym p) h.0
  All-Mem P x (y ∷ ys) h (Memᴰ.tail k) = All-Mem P x ys h.1 k

  module _ (laws : SingletonLaws m) where
    uuid-Respects : (u : ℕ) → Respects m (λ i. u == uuid i)
    uuid-Respects u x y e = ap (λ v. u == v) e.same_uuid

    matches-Respects : (z : Item) → Respects m (matches m z)
    matches-Respects z x y e = e.same_matches z

    -- A test counts after a deletion what it counts among the items that are kept.
    count-deletion :
        (test : Item → Bool)
        → Respects m test
        → (ds items : List Item)
        → count test (set_items_to_be_deleted m ds items)
          ≡ count test (filter (is_kept m laws ds) items)
    count-deletion test r ds items = count-Alike m test r _ _ (deletion-Alike m laws ds items)

    deletion-fewer :
        (test : Item → Bool)
        → Respects m test
        → (ds items : List Item)
        → count test (set_items_to_be_deleted m ds items) ≤ count test items
    deletion-fewer test r ds items =
        omega
          (arith, count-deletion test r ds items, count-filter-le test (is_kept m laws ds) items)

    deleted_none : (ds : List Item) → count (is_kept m laws ds) ds ≡ 0
    deleted_none ds =
        count_none (is_kept m laws ds) ds
          (λ x k. ap not (Mem-any (λ d. uuid x == uuid d) x ds k (ground arith)))

    -- `q` is the singleton, `e ∷ ds` its items, the oldest first.
    module _ (q e : Item) (ds items : List Item) (unique : Unique items)
        (counts : (test : Item → Bool)
          → count test (e ∷ ds) ≡ count test (filter (matches m q) items))
        (inside : (x : Item) → Memᴰ x (e ∷ ds) → Memᴰ x items × (matches m q x ≡ true))
        (oldest : (x : Item)
          → Memᴰ x items
          → matches m q x ≡ true
          → created_at e ≤ created_at x) where
      crossed :
          count (matches m q) (filter (is_kept m laws ds) items)
          ≡ count (is_kept m laws ds) (filter (matches m q) items)
      unfolding count
      crossed = ap length (filter-filter (matches m q) (is_kept m laws ds) items)

      first_only : count (is_kept m laws ds) (e ∷ ds) ≤ 1
      unfolding count
      first_only = ground (arith, deleted_none ds)

      pub one_left : count (matches m q) (set_items_to_be_deleted m ds items) ≤ 1
      one_left = omega (
        arith,
        count-deletion (matches m q) (matches-Respects q) ds items,
        crossed,
        counts (is_kept m laws ds),
        first_only,
      )

      none_left : count (λ d. uuid e == uuid d) ds ≡ 0
      unfolding count
      none_left = ground (
        arith,
        counts (λ d. uuid e == uuid d),
        count-filter-le (λ d. uuid e == uuid d) (matches m q) items,
        unique (uuid e),
      )

      first_kept : is_kept m laws ds e ≡ true
      first_kept = ap not (any-false (λ d. uuid e == uuid d) ds none_left)

      other_kept : (x : Item) → Memᴰ x items → matches m q x ≡ false → is_kept m laws ds x ≡ true
      other_kept x k other = elim (Bool-cases (any (λ d. uuid x == uuid d) ds)) [
        | inl found ↦
            let (d, among, same) = any_found (λ d. uuid x == uuid d) ds found in
            let (member, matched) = inside d (Memᴰ.tail among) in
            let eq =
              Mem-unique (λ i. uuid x == uuid i) x d items k member (ground arith) same
                (unique (uuid x)) in
            absurd (ground (arith, ap (matches m q) eq))
        | inr missing ↦ ap not missing
      ]

      survivor :
          (x y : Item)
          → Memᴰ y items
          → is_kept m laws ds y ≡ true
          → ((z : Item) → Same m y z → IsHeir x z)
          → (z : Item) × Memᴰ z (set_items_to_be_deleted m ds items) × IsHeir x z
      survivor x y k kept h =
          let (z, member, same) =
            Mem-Alike m _ _ y (deletion-Alike m laws ds items)
              (Mem-filter (is_kept m laws ds) y items k kept) in
          (z, member, h z same)

      heir_lem :
          (x : Item)
          → Memᴰ x items
          → (y : Item) × Memᴰ y (set_items_to_be_deleted m ds items) × IsHeir x y
      heir_lem x k = elim (Bool-cases (matches m q x)) [
        | inl matched ↦
            let (member, first) = inside e (Memᴰ.head refl) in
            survivor x e member first_kept (λ z same. record {
              no_younger =
                  subst (λ c. c ≤ created_at x) (sym same.same_created) (oldest x k matched);
              kind = inr (
                  same.same_matches x
                  ∙ laws.matches_trans x q e (laws.matches_sym q x matched) first);
            })
        | inr other ↦
            survivor x x k (other_kept x k other)
              (λ z same. record { no_younger = omega (arith, same.same_created); kind = inl same })
      ]

      pub deletion-IsReduced : IsReduced items (set_items_to_be_deleted m ds items)
      deletion-IsReduced = record {
        unique = λ u.
            omega (arith, deletion-fewer (λ i. u == uuid i) (uuid-Respects u) ds items, unique u);
        fewer = λ z. deletion-fewer (matches m z) (matches-Respects z) ds items;
        heirs = heir_lem;
      }
