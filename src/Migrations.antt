-- ===== src/Migrations.antt =====
-- Which migrations run, and when the stored version moves on (packages/snjs/lib/Version.ts, lib/
-- Migrations/Migration.ts and lib/Services/Migration/MigrationService.ts). The comparisons of semver are
-- parameters. A migration is known by its version and by the stages that it handles, with whether the
-- handler ends in `markDone`; what handlers do besides is left out. The base migration, which repairs
-- the keychain, is left out too.
pub mod Required
pub mod Progress
mod Examples
use snjs.Prelude.{
  ℕ, String, Bool, true, false, not, ◌&&◌, Option, none, some, List, [], ◌∷◌, ◌++◌, map,
  if◌then◌else◌, str_eq, Result, ok, throw, ◌>>=◌, is_empty,
}
use snjs.Prelude.Sort.{ℤ, pos, negsuc, is_negative, sort}

-- A class of migrations: its version, and for each stage whether its handler marks it as done.
pub record MigrationClass : Type 0 where
  pub version : String
  pub stage_handlers : ℕ → Option Bool

-- An instance; `on_done` tells whether its handler for the end is set.
pub record Migration : Type 0 where
  pub migration_class : MigrationClass
  pub on_done_handler : Bool

-- The device holds the stored version; `handled` are the handlers that ran.
pub record MigrationService : Type 0 where
  pub stored_version : Option String
  pub active_migrations : Option (List Migration)
  pub handled : List (String × ℕ)

-- `getStoredSnjsVersion`: the empty text is missing too.
unfoldable pub get_stored_snjs_version : MigrationService → Result String
get_stored_snjs_version s = elim s.stored_version [
  | none ↦ throw "Snjs version missing from storage, run base migration."
  | some v ↦
      if str_eq v "" then throw "Snjs version missing from storage, run base migration." else ok v
]

-- The instances; only the last one gets a handler for its end.
unfoldable pub instantiate : Bool → List MigrationClass → List Migration
instantiate on_done [] = []
instantiate on_done (c ∷ []) = record { migration_class = c; on_done_handler = on_done } ∷ []
instantiate on_done (c ∷ d ∷ cs) =
    record { migration_class = c; on_done_handler = false } ∷ instantiate on_done (d ∷ cs)

module _ (eq gt : String → String → Bool) where
  unfoldable pub compare_sem_versions : String → String → ℤ
  compare_sem_versions left right =
      if eq left right then pos 0 else if gt left right then pos 1 else negsuc 0

  unfoldable pub is_right_version_greater_than_left : String → String → Bool
  unfolding compare_sem_versions
  is_right_version_greater_than_left left right = is_negative (compare_sem_versions left right)

  -- The loop over the sorted classes.
  unfoldable pub newer_classes : String → List MigrationClass → List MigrationClass
  unfolding is_right_version_greater_than_left
  newer_classes stored [] = []
  newer_classes stored (c ∷ cs) =
      let rest = newer_classes stored cs in
      if str_eq c.version stored
      then rest
      else if is_right_version_greater_than_left stored c.version
      then c ∷ rest
      else rest

  abbrev pub compare_classes : MigrationClass → MigrationClass → ℤ
  compare_classes a b = compare_sem_versions a.version b.version

  unfoldable pub get_required_migrations : List MigrationClass → String → List MigrationClass
  unfolding newer_classes compare_sem_versions
  get_required_migrations classes stored = newer_classes stored (sort compare_classes classes)

  unfoldable pub initialize :
      List MigrationClass → String → MigrationService → Result MigrationService
  unfolding get_required_migrations get_stored_snjs_version instantiate
  initialize classes snjs_version s = do
    stored ← get_stored_snjs_version s
    let required = get_required_migrations classes stored
    ok (record s {
      active_migrations = some (instantiate true required);
      stored_version = if is_empty required then some snjs_version else s.stored_version;
    })

module _ (snjs_version : String) where
  -- `markDone`, with what the service put in for the end.
  unfoldable pub mark_done : Migration → MigrationService → Migration × MigrationService
  mark_done a s = (
    record a { on_done_handler = false },
    if a.on_done_handler then record s { stored_version = some snjs_version } else s,
  )

  -- `handleStage` of a migration
  unfoldable pub handle_migration : ℕ → Migration → MigrationService → Migration × MigrationService
  unfolding mark_done
  handle_migration stage a s = elim (a.migration_class.stage_handlers stage) [
    | none ↦ (a, s)
    | some marks ↦
        let s' : MigrationService = record s {
          handled = s.handled ++ (a.migration_class.version, stage) ∷ [];
        } in
        if marks then mark_done a s' else (a, s')
  ]

  unfoldable pub handle_migrations :
      ℕ → List Migration → MigrationService → List Migration × MigrationService
  unfolding handle_migration
  handle_migrations stage [] s = ([], s)
  handle_migrations stage (a ∷ others) s =
      let (a', s') = handle_migration stage a s in
      let (others', s'') = handle_migrations stage others s' in (a' ∷ others', s'')

  -- `handleStage` of the service, for its active migrations
  unfoldable pub handle_active :
      ℕ → Option (List Migration) → MigrationService → Result MigrationService
  unfolding handle_migrations
  handle_active stage none s = throw "Invalid active migrations"
  handle_active stage (some active) s =
      let (active', s') = handle_migrations stage active s in
      ok (record s' { active_migrations = some active' })

  unfoldable pub handle_stage : ℕ → MigrationService → Result MigrationService
  unfolding handle_active
  handle_stage stage s = handle_active stage s.active_migrations s

  unfoldable pub handle_stages : List ℕ → MigrationService → Result MigrationService
  unfolding handle_stage
  handle_stages [] s = ok s
  handle_stages (stage ∷ stages) s = do s' ← handle_stage stage s; handle_stages stages s'
