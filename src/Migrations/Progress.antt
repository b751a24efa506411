-- ===== src/Migrations/Progress.antt =====
-- The stored version moves on when the last required migration is done, and at no other stage.
use snjs.Prelude.{
  ℕ, ◌≡◌, ◌≢◌, refl, ◌∙◌, ap, String, Bool, true, false, not, ◌&&◌, ◌||◌, Option, none, some, List,
  [], ◌∷◌, any, arith, if◌then◌else◌, ok, is_empty, eq_iff,
}
use snjs.Migrations.{
  get_required_migrations, initialize, get_stored_snjs_version, MigrationClass, Migration,
  MigrationService, instantiate, mark_done, handle_migration, handle_migrations, handle_active,
  handle_stage, handle_stages,
}

abbrev pub marks : MigrationClass → ℕ → Bool
marks c stage = elim (c.stage_handlers stage) [ none ↦ false | some m ↦ m ]

-- Whether the last class of some marks itself as done at a stage.
abbrev pub last_marks : List MigrationClass → ℕ → Bool
last_marks [] stage = false
last_marks (c ∷ []) stage = marks c stage
last_marks (c ∷ d ∷ cs) stage = last_marks (d ∷ cs) stage

abbrev pub last_marks_any : List MigrationClass → List ℕ → Bool
last_marks_any cs stages = any (last_marks cs) stages

module _ (snjs_version : String) where
  abbrev moved : Bool → Option String → Option String
  moved b stored = if b then some snjs_version else stored

  single_lem :
      (stage : ℕ) (a : Migration) (s : MigrationService)
      → ((handle_migration snjs_version stage a s).0.migration_class ≡ a.migration_class)
        × ((handle_migration snjs_version stage a s).0.on_done_handler
            ≡ (a.on_done_handler && not (marks a.migration_class stage)))
        × ((handle_migration snjs_version stage a s).1.stored_version
            ≡ moved (a.on_done_handler && marks a.migration_class stage) s.stored_version)
  unfolding handle_migration mark_done
  single_lem stage a s = ground arith

  same_migration :
      (a b : Migration)
      → a.migration_class ≡ b.migration_class
      → a.on_done_handler ≡ b.on_done_handler
      → a ≡ b
  same_migration a b h k = ground arith

  migrations_lem :
      (stage : ℕ) (armed : Bool) (cs : List MigrationClass) (s : MigrationService)
      → ((handle_migrations snjs_version stage (instantiate armed cs) s).0
          ≡ instantiate (armed && not (last_marks cs stage)) cs)
        × ((handle_migrations snjs_version stage (instantiate armed cs) s).1.stored_version
            ≡ moved (armed && last_marks cs stage) s.stored_version)
  unfolding handle_migrations instantiate
  migrations_lem stage armed [] s = (refl, ground arith)
  migrations_lem stage armed (c ∷ []) s =
      let (same, on_done, stored) =
        single_lem stage (record { migration_class = c; on_done_handler = armed }) s in
      (ap (λ a. a ∷ []) (same_migration _ _ same on_done), stored)
  migrations_lem stage armed (c ∷ d ∷ cs) s =
      let a : Migration = record { migration_class = c; on_done_handler = false } in
      let (same, on_done, stored) = single_lem stage a s in
      let (later, later_stored) =
        migrations_lem stage armed (d ∷ cs) (handle_migration snjs_version stage a s).1 in
      (
        cc (same_migration _ a same on_done, later),
        later_stored ∙ ap (moved (armed && last_marks (d ∷ cs) stage)) stored,
      )

  stage_lem :
      (stage : ℕ) (armed : Bool) (cs : List MigrationClass) (s : MigrationService)
      → s.active_migrations ≡ some (instantiate armed cs)
      → (s' : MigrationService) × (handle_stage snjs_version stage s ≡ ok s')
        × (s'.active_migrations ≡ some (instantiate (armed && not (last_marks cs stage)) cs))
        × (s'.stored_version ≡ moved (armed && last_marks cs stage) s.stored_version)
  unfolding handle_stage handle_active
  stage_lem stage armed cs s active =
      let (left, stored) = migrations_lem stage armed cs s in
      (
        record (handle_migrations snjs_version stage (instantiate armed cs) s).1 {
          active_migrations =
              some (handle_migrations snjs_version stage (instantiate armed cs) s).0;
        },
        ap (λ o. handle_active snjs_version stage o s) active,
        ap some left,
        stored,
      )

  stages_lem :
      (stages : List ℕ) (armed : Bool) (cs : List MigrationClass) (s : MigrationService)
      → s.active_migrations ≡ some (instantiate armed cs)
      → (s' : MigrationService) × (handle_stages snjs_version stages s ≡ ok s')
        × (s'.stored_version ≡ moved (armed && last_marks_any cs stages) s.stored_version)
  unfolding handle_stages
  stages_lem [] armed cs s active = (s, refl, ground arith)
  stages_lem (stage ∷ stages) armed cs s active =
      let (s', ran, active', stored) = stage_lem stage armed cs s active in
      let (s'', went, stored') =
        stages_lem stages (armed && not (last_marks cs stage)) cs s' active' in
      (s'', rw ran went, ground (arith, stored, stored'))

  stored_lem :
      (s : MigrationService) (stored : String)
      → s.stored_version ≡ some stored
      → stored ≢ ""
      → get_stored_snjs_version s ≡ ok stored
  unfolding get_stored_snjs_version
  stored_lem s stored there given = ground (arith, eq_iff stored "")

  either_lem :
      (none_required marked : Bool) (stored : String) (o : Option String)
      → o ≡ some stored
      → moved (true && marked) (if none_required then some snjs_version else o)
        ≡ (if none_required || marked then some snjs_version else some stored)
  either_lem none_required marked stored o there = ground arith

  module _ (eq gt : String → String → Bool) where
    -- On a device that stores a version, the service starts and then handles any stages without an
    -- error. If no migration is required the current version is stored at once; otherwise it is
    -- stored if and only if one of the stages is one at which the last required migration is done,
    -- and until then what was stored stays.
    pub stored_version-stages :
        (classes : List MigrationClass) (stages : List ℕ) (stored : String) (s : MigrationService)
        → s.stored_version ≡ some stored
        → stored ≢ ""
        → (let required = get_required_migrations eq gt classes stored in
            (s' s'' : MigrationService) × (initialize eq gt classes snjs_version s ≡ ok s')
            × (handle_stages snjs_version stages s' ≡ ok s'')
            × (s''.stored_version ≡ (
                if is_empty required || last_marks_any required stages
                then some snjs_version
                else some stored)))
    unfolding initialize get_stored_snjs_version
    stored_version-stages classes stages stored s there given =
        let required = get_required_migrations eq gt classes stored in
        let s' : MigrationService = record s {
          active_migrations = some (instantiate true required);
          stored_version = if is_empty required then some snjs_version else s.stored_version;
        } in
        let (s'', went, stored') = stages_lem stages true required s' refl in
        (
          s',
          s'',
          rw (stored_lem s stored there given) refl,
          went,
          stored'
              ∙ either_lem (is_empty required) (last_marks_any required stages) stored
                  s.stored_version there,
        )
