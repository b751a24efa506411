-- ===== src/Migrations/Examples.antt =====
-- The migrations of the source with versions compared by their minor number.
use snjs.Prelude.{
  ℕ, ◌≡◌, refl, String, Bool, true, false, ◌||◌, none, some, List, [], ◌∷◌, ◌==◌, ltb, str_eq,
  is_empty, eq_iff, if◌then◌else◌, arith, ok,
}
use snjs.Migrations.{
  MigrationClass, MigrationService, get_required_migrations, initialize, handle_stages,
}
use snjs.Migrations.Required.{IsSemver}
use snjs.Migrations.Progress.{last_marks_any, stored_version-stages}

-- Semver on the versions of the source: `other` is older than all of them.
abbrev rank : String → ℕ
rank v =
    if str_eq v "2.7.0"
    then 7
    else if str_eq v "2.20.0"
    then 20
    else if str_eq v "2.42.0"
    then 42
    else 0

abbrev eq : String → String → Bool
eq a b = rank a == rank b

abbrev gt : String → String → Bool
gt a b = ltb (rank b) (rank a)

equal_lem : (i j : ℕ) → (i == j) ≡ true → ltb i j ≡ false
equal_lem i j h = ground arith

greater_lem : (i j : ℕ) → ltb j i ≡ true → ltb i j ≡ false
greater_lem i j h = ground arith

rank_laws : (i j k : ℕ) → (ltb j i ≡ false) → (ltb k j ≡ false) → ltb k i ≡ false
rank_laws i j k h l = ground arith

gt-IsSemver : IsSemver eq gt
gt-IsSemver = record {
  equal_not_greater = λ a b h. equal_lem (rank a) (rank b) h;
  greater_not_less = λ a b h. greater_lem (rank a) (rank b) h;
  not_greater_trans = λ a b c h k. rank_laws (rank a) (rank b) (rank c) h k;
}

abbrev at_full_sync : String → MigrationClass
at_full_sync v = record {
  version = v;
  stage_handlers = λ stage. if stage == 13 then some true else none;
}

abbrev at_loaded_database : String → MigrationClass
at_loaded_database v = record {
  version = v;
  stage_handlers = λ stage. if stage == 12 then some true else none;
}

abbrev classes : List MigrationClass
classes = at_full_sync "2.42.0" ∷ at_loaded_database "2.20.0" ∷ at_full_sync "2.7.0" ∷ []

abbrev service : MigrationService
service = record { stored_version = some "2.7.0"; active_migrations = none; handled = [] }

stored_version-stages_example :
    (let required = get_required_migrations eq gt classes "2.7.0" in
      (s' s'' : MigrationService) × (initialize eq gt classes "2.100.0" service ≡ ok s')
      × (handle_stages "2.100.0" (12 ∷ 13 ∷ []) s' ≡ ok s'')
      × (s''.stored_version ≡ (
          if is_empty required || last_marks_any required (12 ∷ 13 ∷ [])
          then some "2.100.0"
          else some "2.7.0")))
stored_version-stages_example =
    stored_version-stages "2.100.0" eq gt classes (12 ∷ 13 ∷ []) "2.7.0" service refl
      (λ same. cc ((eq_iff "2.7.0" "").1 same))
