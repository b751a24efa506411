-- ===== src/Prelude/Counts.antt =====
-- How many elements pass a test, and which elements a list has, under sorting and filtering.
use snjs.Prelude.{
  ℕ, ◌+◌, ◌≤◌, Bool, true, false, ◌≡◌, refl, ap, ◌∙◌, List, [], ◌∷◌, filter, length, arith, ◌⊎◌,
  sym, if_intro, any, Bool-cases, inl, inr,
}
use snjs.Prelude.Sort.{ℤ, is_negative, sort, sort_into, insert}
use mathlib.Core.List.{Memᴰ}

module _ {A : Type 0} where
  unfoldable pub count : (A → Bool) → List A → ℕ
  count test xs = length (filter test xs)

  pub count-filter-le :
      (test keep : A → Bool) (xs : List A) → count test (filter keep xs) ≤ count test xs
  unfolding count
  count-filter-le test keep [] = omega arith
  count-filter-le test keep (x ∷ xs) = ground (arith, count-filter-le test keep xs)

  -- The items outside a test, and those inside.
  pub filter-filter :
      (test keep : A → Bool) (xs : List A)
      → filter test (filter keep xs) ≡ filter keep (filter test xs)
  filter-filter test keep [] = refl
  filter-filter test keep (x ∷ xs) = ground (arith, filter-filter test keep xs)

  module _ (compare : A → A → ℤ) (test : A → Bool) where
    count-insert : (x : A) (xs : List A) → count test (insert compare x xs) ≡ count test (x ∷ xs)
    unfolding count insert
    count-insert x [] = refl
    count-insert x (y ∷ ys) = ground (arith, count-insert x ys)

    count-sort_into :
        (sorted xs : List A)
        → count test (sort_into compare sorted xs) ≡ count test sorted + count test xs
    unfolding count sort_into
    count-sort_into sorted [] = ground arith
    count-sort_into sorted (x ∷ xs) =
        ground (arith, count-sort_into (insert compare x sorted) xs, count-insert x sorted)

    pub count-sort : (xs : List A) → count test (sort compare xs) ≡ count test xs
    unfolding sort count
    count-sort xs = ground (arith, count-sort_into [] xs)

  pub Mem-filter :
      (test : A → Bool) (x : A) (xs : List A) → Memᴰ x xs → test x ≡ true → Memᴰ x (filter test xs)
  Mem-filter test x [] h passes = elim h [ ]
  Mem-filter test x (y ∷ ys) (Memᴰ.head e) passes = rw (← e, passes) (Memᴰ.head refl)
  Mem-filter test x (y ∷ ys) (Memᴰ.tail h) passes =
      if_intro (Memᴰ x) (test y) _ _ (λ _. Memᴰ.tail (Mem-filter test x ys h passes))
        (λ _. Mem-filter test x ys h passes)

  pub Mem-passes :
      (test : A → Bool) (x : A) (xs : List A)
      → Memᴰ x (filter test xs)
      → Memᴰ x xs × (test x ≡ true)
  Mem-passes test x [] h = elim h [ ]
  Mem-passes test x (y ∷ ys) h =
      if_intro (λ l. Memᴰ x l → Memᴰ x (y ∷ ys) × (test x ≡ true)) (test y) _ _
        (λ passes. kept passes (Mem-passes test x ys))
        (λ _ k. (let rest = Mem-passes test x ys k in (Memᴰ.tail rest.0, rest.1))) h
    where
      kept :
          test y ≡ true
          → (Memᴰ x (filter test ys) → Memᴰ x ys × (test x ≡ true))
          → Memᴰ x (y ∷ filter test ys)
          → Memᴰ x (y ∷ ys) × (test x ≡ true)
      kept passes next (Memᴰ.head e) = (Memᴰ.head e, ap test e ∙ passes)
      kept passes next (Memᴰ.tail k) = let rest = next k in (Memᴰ.tail rest.0, rest.1)

  pub Mem-count :
      (test : A → Bool) (x : A) (xs : List A) → Memᴰ x xs → test x ≡ true → 1 ≤ count test xs
  unfolding count
  Mem-count test x [] h passes = elim h [ ]
  Mem-count test x (y ∷ ys) (Memᴰ.head e) h = ground (arith, ap test e)
  Mem-count test x (y ∷ ys) (Memᴰ.tail e) h = ground (arith, Mem-count test x ys e h)

  -- Where at most one element passes, there is only one.
  pub Mem-unique :
      (test : A → Bool) (x y : A) (xs : List A)
      → Memᴰ x xs
      → Memᴰ y xs
      → test x ≡ true
      → test y ≡ true
      → count test xs ≤ 1
      → x ≡ y
  unfolding count
  Mem-unique test x y [] hx hy px py one = elim hx [ ]
  Mem-unique test x y (z ∷ zs) (Memᴰ.head ex) (Memᴰ.head ey) px py one = ex ∙ sym ey
  Mem-unique test x y (z ∷ zs) (Memᴰ.head ex) (Memᴰ.tail hy) px py one =
      absurd (ground (arith, Mem-count test y zs hy py, ap test ex))
  Mem-unique test x y (z ∷ zs) (Memᴰ.tail hx) (Memᴰ.head ey) px py one =
      absurd (ground (arith, Mem-count test x zs hx px, ap test ey))
  Mem-unique test x y (z ∷ zs) (Memᴰ.tail hx) (Memᴰ.tail hy) px py one =
      Mem-unique test x y zs hx hy px py (ground arith)

  -- An element that only one could pass for is not found again after it.
  pub any-false : (test : A → Bool) (xs : List A) → count test xs ≡ 0 → any test xs ≡ false
  unfolding count
  any-false test [] h = refl
  any-false test (x ∷ xs) h = ground (arith, any-false test xs)

  pub any_found :
      (test : A → Bool) (xs : List A) → any test xs ≡ true → (x : A) × Memᴰ x xs × (test x ≡ true)
  any_found test [] h = absurd (ground arith)
  any_found test (x ∷ xs) h = elim (Bool-cases (test x)) [
    | inl found ↦ (x, Memᴰ.head refl, found)
    | inr other ↦ let rest = any_found test xs (ground arith) in (rest.0, Memᴰ.tail rest.1, rest.2)
  ]

  pub Mem-any :
      (test : A → Bool) (x : A) (xs : List A) → Memᴰ x xs → test x ≡ true → any test xs ≡ true
  Mem-any test x [] h passes = elim h [ ]
  Mem-any test x (y ∷ ys) (Memᴰ.head e) passes = ground (arith, ap test e)
  Mem-any test x (y ∷ ys) (Memᴰ.tail h) passes = ground (arith, Mem-any test x ys h passes)

  pub count_none :
      (test : A → Bool) (xs : List A) → ((x : A) → Memᴰ x xs → test x ≡ false) → count test xs ≡ 0
  unfolding count
  count_none test [] h = refl
  count_none test (x ∷ xs) h =
      ground (arith, h x (Memᴰ.head refl), count_none test xs (λ y k. h y (Memᴰ.tail k)))

  module _ (compare : A → A → ℤ) where
    Mem-insert : (x y : A) (xs : List A) → Memᴰ x (y ∷ xs) → Memᴰ x (insert compare y xs)
    unfolding insert
    Mem-insert x y [] h = h
    Mem-insert x y (z ∷ zs) h =
        if_intro (Memᴰ x) (is_negative (compare y z)) _ _ (λ _. h)
          (λ _. later (Mem-insert x y zs) h)
      where
        later :
            (Memᴰ x (y ∷ zs) → Memᴰ x (insert compare y zs))
            → Memᴰ x (y ∷ z ∷ zs)
            → Memᴰ x (z ∷ insert compare y zs)
        later next (Memᴰ.head e) = Memᴰ.tail (next (Memᴰ.head e))
        later next (Memᴰ.tail (Memᴰ.head e)) = Memᴰ.head e
        later next (Memᴰ.tail (Memᴰ.tail k)) = Memᴰ.tail (next (Memᴰ.tail k))

    Mem-insert_back : (x y : A) (xs : List A) → Memᴰ x (insert compare y xs) → Memᴰ x (y ∷ xs)
    unfolding insert
    Mem-insert_back x y [] h = h
    Mem-insert_back x y (z ∷ zs) h =
        if_intro (λ l. Memᴰ x l → Memᴰ x (y ∷ z ∷ zs)) (is_negative (compare y z)) _ _ (λ _ k. k)
          (λ _ k. later (Mem-insert_back x y zs) k) h
      where
        swap : Memᴰ x (y ∷ zs) → Memᴰ x (y ∷ z ∷ zs)
        swap (Memᴰ.head e) = Memᴰ.head e
        swap (Memᴰ.tail k) = Memᴰ.tail (Memᴰ.tail k)

        later :
            (Memᴰ x (insert compare y zs) → Memᴰ x (y ∷ zs))
            → Memᴰ x (z ∷ insert compare y zs)
            → Memᴰ x (y ∷ z ∷ zs)
        later back (Memᴰ.head e) = Memᴰ.tail (Memᴰ.head e)
        later back (Memᴰ.tail k) = swap (back k)

    Mem-sort_into :
        (x : A) (sorted xs : List A)
        → Memᴰ x sorted ⊎ Memᴰ x xs
        → Memᴰ x (sort_into compare sorted xs)
    unfolding sort_into
    Mem-sort_into x sorted [] (inl h) = h
    Mem-sort_into x sorted [] (inr h) = elim h [ ]
    Mem-sort_into x sorted (y ∷ ys) (inl h) =
        Mem-sort_into x (insert compare y sorted) ys (inl (Mem-insert x y sorted (Memᴰ.tail h)))
    Mem-sort_into x sorted (y ∷ ys) (inr (Memᴰ.head e)) =
        Mem-sort_into x (insert compare y sorted) ys (inl (Mem-insert x y sorted (Memᴰ.head e)))
    Mem-sort_into x sorted (y ∷ ys) (inr (Memᴰ.tail h)) =
        Mem-sort_into x (insert compare y sorted) ys (inr h)

    Mem-sort_into_back :
        (x : A) (sorted xs : List A)
        → Memᴰ x (sort_into compare sorted xs)
        → Memᴰ x sorted ⊎ Memᴰ x xs
    unfolding sort_into
    Mem-sort_into_back x sorted [] h = inl h
    Mem-sort_into_back x sorted (y ∷ ys) h =
        elim (Mem-sort_into_back x (insert compare y sorted) ys h) [
          | inl k ↦ back (Mem-insert_back x y sorted k)
          | inr k ↦ inr (Memᴰ.tail k)
        ]
      where
        back : Memᴰ x (y ∷ sorted) → Memᴰ x sorted ⊎ Memᴰ x (y ∷ ys)
        back (Memᴰ.head e) = inr (Memᴰ.head e)
        back (Memᴰ.tail k) = inl k

    pub Mem-sort : (x : A) (xs : List A) → Memᴰ x xs → Memᴰ x (sort compare xs)
    unfolding sort
    Mem-sort x xs h = Mem-sort_into x [] xs (inr h)

    pub Mem-sort_back : (x : A) (xs : List A) → Memᴰ x (sort compare xs) → Memᴰ x xs
    unfolding sort
    Mem-sort_back x xs h = elim (Mem-sort_into_back x [] xs h) [ inl k ↦ elim k [ ] | inr k ↦ k ]

  pub count_ext :
      (test other : A → Bool)
      → ((x : A) → test x ≡ other x)
      → (xs : List A) → count test xs ≡ count other xs
  unfolding count
  count_ext test other same [] = refl
  count_ext test other same (x ∷ xs) = ground (arith, same x, count_ext test other same xs)
