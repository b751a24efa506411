-- ===== src/Prelude/Perms.antt =====
-- `array.filter` keeps permutations.
use mathlib.Core.Path.{◌≡◌, refl}
use mathlib.Core.Bool.{Bool, true, Bool-discrete}
use mathlib.Core.List as CoreList
use mathlib.Core.List.{List, [], ◌∷◌, Perm}
use mathlib.Core.List.Perm
use snjs.Prelude.Lists.{filter}
use native.Mathlib.Omega.{arith}

module _ {ℓ} {A : Type ℓ} (test : A → Bool) where
  passes : (a : A) → Dec (test a ≡ true)
  passes a = Bool-discrete (test a) true

  filter_lem : (xs : List A) → CoreList.filter passes xs ≡ filter test xs
  filter_lem [] = refl
  filter_lem (x ∷ xs) = ground (arith, filter_lem xs)

  pub filter-perm : (xs ys : List A) → Perm xs ys → Perm (filter test xs) (filter test ys)
  filter-perm xs ys p = rw (← filter_lem xs, ← filter_lem ys) (Perm.filter passes p)
