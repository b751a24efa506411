-- ===== src/Migrations/Required.antt =====
-- The required migrations are the newer ones, oldest first.
use mathlib.Core.List.{Perm}
use snjs.Prelude.{
  ◌≡◌, refl, String, Bool, true, false, not, ◌&&◌, List, [], ◌∷◌, filter, str_eq, All, arith,
  Bool-cases, inl, inr,
}
use snjs.Prelude.Sort.{sort, sort-perm, IsSorted, sort-IsSorted}
use snjs.Prelude.Perms.{filter-perm}
use snjs.Migrations.{
  MigrationClass, compare_sem_versions, is_right_version_greater_than_left, newer_classes,
  compare_classes, get_required_migrations,
}

module _ (eq gt : String → String → Bool) where
  -- Semver's comparisons come from one order of the versions.
  pub record IsSemver : Type 0 where
    pub equal_not_greater : (a b : String) → eq a b ≡ true → gt b a ≡ false
    pub greater_not_less : (a b : String) → gt a b ≡ true → gt b a ≡ false
    pub not_greater_trans : (a b c : String) → gt a b ≡ false → gt b c ≡ false → gt a c ≡ false

  abbrev pub IsBefore : MigrationClass → MigrationClass → Type 0
  IsBefore a b = gt a.version b.version ≡ false

  abbrev pub is_newer : String → MigrationClass → Bool
  is_newer stored c =
      not (str_eq c.version stored) && (not (eq stored c.version) && not (gt stored c.version))

  newer_lem :
      (stored : String) (cs : List MigrationClass)
      → newer_classes eq gt stored cs ≡ filter (is_newer stored) cs
  unfolding newer_classes is_right_version_greater_than_left compare_sem_versions
  newer_lem stored [] = refl
  newer_lem stored (c ∷ cs) = ground (arith, newer_lem stored cs)

  sorted_lem :
      IsSemver
      → (cs : List MigrationClass)
      → IsSorted (compare_classes eq gt) IsBefore (sort (compare_classes eq gt) cs)
  unfolding compare_sem_versions
  sorted_lem laws =
      sort-IsSorted (compare_classes eq gt) IsBefore (λ x y before. ground arith)
        (λ x y after. ground (
          arith,
          laws.equal_not_greater x.version y.version,
          laws.greater_not_less x.version y.version,
        ))
        (λ x y z. laws.not_greater_trans x.version y.version z.version)

  module _ (test : MigrationClass → Bool) where
    All-filter :
        (c : MigrationClass) (cs : List MigrationClass)
        → All (IsBefore c) cs
        → All (IsBefore c) (filter test cs)
    All-filter c [] h = tt
    All-filter c (d ∷ cs) h = elim (Bool-cases (test d)) [
      | inl kept ↦ rw kept (h.0, All-filter c cs h.1)
      | inr dropped ↦ rw dropped (All-filter c cs h.1)
    ]

    filter-IsSorted :
        (cs : List MigrationClass)
        → IsSorted (compare_classes eq gt) IsBefore cs
        → IsSorted (compare_classes eq gt) IsBefore (filter test cs)
    filter-IsSorted [] h = tt
    filter-IsSorted (c ∷ cs) h = elim (Bool-cases (test c)) [
      | inl kept ↦ rw kept (All-filter c cs h.0, filter-IsSorted cs h.1)
      | inr dropped ↦ rw dropped (filter-IsSorted cs h.1)
    ]

  -- The required migrations are sorted by version, none after one that is newer; and they are, each
  -- once, the classes whose version is neither the stored one nor older than it nor equal to it in
  -- semver.
  pub required-IsSorted :
      IsSemver
      → (classes : List MigrationClass) (stored : String)
      → IsSorted (compare_classes eq gt) IsBefore (get_required_migrations eq gt classes stored)
        × Perm (get_required_migrations eq gt classes stored) (filter (is_newer stored) classes)
  unfolding get_required_migrations
  required-IsSorted laws classes stored =
      let sorted = sort (compare_classes eq gt) classes in
      rw (newer_lem stored sorted) (
        filter-IsSorted (is_newer stored) sorted (sorted_lem laws classes),
        filter-perm (is_newer stored) sorted classes (sort-perm (compare_classes eq gt) classes),
      )
