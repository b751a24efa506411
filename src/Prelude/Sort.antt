-- ===== src/Prelude/Sort.antt =====
-- `array.sort(compare)`: a stable insertion sort that reads only the sign of the comparison. An
-- element is moved before an earlier one only where the comparison is negative.
use Prim.Native.Nat.{ℕ, ◌-◌}
use mathlib.Core.Path.{◌≡◌}
use mathlib.Core.Bool.{Bool, true, false}
use mathlib.Core.List.{List, [], ◌∷◌, ◌++◌, Perm, perm_middle, append-nil}
use mathlib.Core.List.Perm
use mathlib.Core.Logic.{inl, inr}
use snjs.Prelude.Tests.{leb, if◌then◌else◌, Bool-cases}
use snjs.Prelude.Lists.{All}

-- `negsuc n` is -(n + 1).
pub data ℤ : Type 0 where
  pos : ℕ → ℤ
  negsuc : ℕ → ℤ

-- a - b, as an integer.
abbrev pub sub_ℕ : ℕ → ℕ → ℤ
sub_ℕ a b = if leb b a then pos (a - b) else negsuc (b - a - 1)

abbrev pub is_negative : ℤ → Bool
is_negative (pos _) = false
is_negative (negsuc _) = true

module _ {ℓ} {A : Type ℓ} (compare : A → A → ℤ) where
  unfoldable pub insert : A → List A → List A
  insert x [] = x ∷ []
  insert x (y ∷ ys) = if is_negative (compare x y) then x ∷ y ∷ ys else y ∷ insert x ys

  unfoldable pub sort_into : List A → List A → List A
  sort_into sorted [] = sorted
  sort_into sorted (x ∷ xs) = sort_into (insert x sorted) xs

  unfoldable pub sort : List A → List A
  unfolding sort_into insert
  sort xs = sort_into [] xs

  pub insert-perm : (x : A) (xs : List A) → Perm (insert x xs) (x ∷ xs)
  unfolding insert
  insert-perm x [] = Perm.refl (x ∷ [])
  insert-perm x (y ∷ ys) = elim (Bool-cases (is_negative (compare x y))) [
    | inl before ↦ rw before (Perm.refl (x ∷ y ∷ ys))
    | inr after ↦ rw after (Perm.trans (Perm.cons y (insert-perm x ys)) (Perm.swap x y ys))
  ]

  sort_into-perm : (sorted xs : List A) → Perm (sort_into sorted xs) (sorted ++ xs)
  unfolding sort_into
  sort_into-perm sorted [] = rw append-nil (Perm.refl sorted)
  sort_into-perm sorted (x ∷ xs) = Perm.trans (sort_into-perm (insert x sorted) xs) (
      Perm.trans (Perm.append (insert-perm x sorted) (Perm.refl xs))
        (Perm.symm (perm_middle sorted xs)))

  -- Sorting keeps the elements, each as often.
  pub sort-perm : (xs : List A) → Perm (sort xs) xs
  unfolding sort
  sort-perm xs = sort_into-perm [] xs

  module _ {κ} (R : A → A → Type κ) where
    -- Each element stands in the relation to all later ones.
    abbrev pub IsSorted : List A → Type (ℓ ⊔ κ)
    IsSorted [] = Unit
    IsSorted (x ∷ xs) = All (R x) xs × IsSorted xs

    All-insert : (z x : A) (xs : List A) → R z x → All (R z) xs → All (R z) (insert x xs)
    unfolding insert
    All-insert z x [] h hs = (h, tt)
    All-insert z x (y ∷ ys) h hs = elim (Bool-cases (is_negative (compare x y))) [
      | inl before ↦ rw before (h, (hs.0, hs.1))
      | inr after ↦ rw after (hs.0, All-insert z x ys h hs.1)
    ]

    All-weaken :
        (trans : (x y z : A) → R x y → R y z → R x z) (x y : A)
        → R x y
        → (xs : List A) → All (R y) xs
        → All (R x) xs
    All-weaken trans x y h [] hs = tt
    All-weaken trans x y h (z ∷ zs) hs = (trans x y z h hs.0, All-weaken trans x y h zs hs.1)

    module _ (before : (x y : A) → is_negative (compare x y) ≡ true → R x y)
        (after : (x y : A) → is_negative (compare x y) ≡ false → R y x)
        (trans : (x y z : A) → R x y → R y z → R x z) where
      insert-IsSorted : (x : A) (xs : List A) → IsSorted xs → IsSorted (insert x xs)
      unfolding insert
      insert-IsSorted x [] h = (tt, tt)
      insert-IsSorted x (y ∷ ys) h = elim (Bool-cases (is_negative (compare x y))) [
        | inl e ↦ rw e ((before x y e, All-weaken trans x y (before x y e) ys h.0), h)
        | inr e ↦ rw e (All-insert y x ys (after x y e) h.0, insert-IsSorted x ys h.1)
      ]

      sort_into-IsSorted : (sorted xs : List A) → IsSorted sorted → IsSorted (sort_into sorted xs)
      unfolding sort_into
      sort_into-IsSorted sorted [] h = h
      sort_into-IsSorted sorted (x ∷ xs) h =
          sort_into-IsSorted (insert x sorted) xs (insert-IsSorted x sorted h)

      -- A comparison that follows a transitive relation sorts by it.
      pub sort-IsSorted : (xs : List A) → IsSorted (sort xs)
      unfolding sort
      sort-IsSorted xs = sort_into-IsSorted [] xs tt
