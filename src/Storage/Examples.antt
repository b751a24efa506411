-- ===== src/Storage/Examples.antt =====
-- The storage on concrete values; a cipher that keeps the values locked in.
use snjs.Prelude.{◌≡◌, refl, String, true, false, Option, none, some, str_eq, Result, ok, arith}
use snjs.Storage.{
  Value, text, number, date, json_at, json_domain, Domain, update, empty_domain, Mode, default_mode,
  nonwrapped_mode, DiskStorage, Values, empty, default_persistence, ephemeral, default_encryption,
  get_value, set_value, remove_value, persist_values_to_disk, or_default,
  generate_persistable_values, write_domain, handle_launched, clear_values, decrypt_storage,
  is_storage_wrapped,
}
use snjs.Storage.Persist.{CopyLaws, restarted, restart_restores, restart_forgets}
use snjs.Storage.Saving.{
  Database, TypeSplit, Split, route, save_payloads, IsPartition, IsSaved, save_payloads-IsSaved,
}
use mathlib.Core.List.Perm
use snjs.Samples.{SamplePayload, note, deleted_note}
use snjs.Prelude.{List, [], ◌∷◌, filter, not, throw}
use snjs.Storage.Guards.{get_value-remove_value, launch_flushes, disk-ephemeral}

data Locked : Type 0 where
  lock : Domain → Locked

abbrev unlock : Locked → Option Domain
unlock (lock d) = some (json_domain d)

json_again : (value : Option Value) → json_at (json_at value) ≡ json_at value
json_again none = refl
json_again (some (date t)) = refl
json_again (some value) = ground arith

-- A copy made through JSON.
json-CopyLaws : CopyLaws json_domain
json-CopyLaws = record {
  json_copy = λ d key. json_again (d key);
  copy_json = λ d key. json_again (d key);
}

abbrev theme : Domain
theme =
    update "expiry" (some (date 5))
      (update "count" (some (number 0)) (update "theme" (some (text "dark")) empty_domain))

abbrev themed : Values Locked
themed = record { wrapped = empty; unwrapped = some theme; nonwrapped = empty_domain }

abbrev running : DiskStorage Locked
running = record {
  is_mobile = false;
  storage_persistable = true;
  persistence_policy = default_persistence;
  encryption_policy = default_encryption;
  needs_persist = false;
  values = some themed;
  disk = none;
}

abbrev launching : DiskStorage Locked
launching = record running { storage_persistable = false }

abbrev passing : DiskStorage Locked
passing = record running { persistence_policy = ephemeral }

restart_restores_example :
    (s' : DiskStorage Locked) × (decrypt_storage json_domain unlock
        (restarted json_domain lock (persist_values_to_disk json_domain lock true running))
      ≡ ok s')
    × ((key : String) (default : Option Value)
        → get_value key default_mode default s' ≡ ok (or_default default (json_at (theme key))))
    × ((key : String) (default : Option Value)
        → get_value key nonwrapped_mode default s' ≡ ok (or_default default none))
restart_restores_example =
    restart_restores json_domain lock unlock json-CopyLaws (λ d. refl) theme themed running refl
      refl refl refl

restart_forgets_example :
    (let s' = restarted json_domain lock (persist_values_to_disk json_domain lock false running) in
      (is_storage_wrapped s' ≡ false)
      × ((key : String) (default : Option Value)
          → get_value key default_mode default s' ≡ ok default)
      × ((key : String) (default : Option Value)
          → get_value key nonwrapped_mode default s' ≡ ok (or_default default none)))
restart_forgets_example =
    restart_forgets json_domain lock json-CopyLaws themed running refl refl refl

get_value-remove_value_example :
    (s' : DiskStorage Locked) × (remove_value json_domain lock true "count" default_mode running
      ≡ ok s')
    × ((default : Option Value) → get_value "count" default_mode default s' ≡ ok (some (number 0)))
    × ((other : String) (default : Option Value)
        → str_eq "count" other ≡ false
        → get_value other default_mode default s' ≡ ok (or_default default (theme other)))
get_value-remove_value_example =
    get_value-remove_value json_domain lock true "count" default_mode theme themed running refl refl

launch_flushes_example :
    (s' : DiskStorage Locked) × (set_value json_domain lock true "theme" none default_mode launching
      ≡ ok s')
    × (s'.disk ≡ none)
    × ((handle_launched json_domain lock true s').disk
        ≡ some (
            generate_persistable_values json_domain lock true
              (write_domain default_mode (update "theme" none theme) themed)))
    × ((handle_launched json_domain lock true s').needs_persist ≡ false)
launch_flushes_example =
    launch_flushes json_domain lock true "theme" none default_mode theme themed launching refl refl
      refl refl

disk-ephemeral_example :
    ((key : String) (value : Option Value) (mode : Mode) (s' : DiskStorage Locked)
      → set_value json_domain lock true key value mode passing ≡ ok s'
      → s'.disk ≡ none)
    × ((key : String) (mode : Mode) (s' : DiskStorage Locked)
        → remove_value json_domain lock true key mode passing ≡ ok s'
        → s'.disk ≡ none)
    × ((handle_launched json_domain lock true passing).disk ≡ none)
    × ((clear_values json_domain lock true passing).disk ≡ none)
disk-ephemeral_example = disk-ephemeral json_domain lock true passing refl

abbrev split : List SamplePayload → Split SamplePayload
split ps = record {
  encrypted = [];
  decrypted = filter (λ p. not p.is_deleted) ps;
  deleted = [];
  discardable = filter (λ p. p.is_deleted) ps;
}

abbrev split_by_type : List SamplePayload → TypeSplit SamplePayload
split_by_type ps = record { items_key_encryption = none; root_key_encryption = some ps }

abbrev encrypt_split : TypeSplit SamplePayload → Result (List SamplePayload)
encrypt_split s = elim s.root_key_encryption [ none ↦ throw "no items" | some ps ↦ ok ps ]

split_by_type-IsPartition :
    IsPartition (λ (p : SamplePayload). p.uuid) split split_by_type encrypt_split
unfolding IsPartition
split_by_type-IsPartition ps = Perm.refl ps

abbrev rows : List SamplePayload
rows = note ∷ deleted_note ∷ []

abbrev database : Database SamplePayload
database = record { removed = []; saved = [] }

save_payloads-IsSaved_example :
    (let uuid = λ (p : SamplePayload). p.uuid in
      let routes =
        route uuid split split_by_type encrypt_split default_encryption true (note ∷ []) in
      let answer = encrypt_split (split_by_type routes.0) in
      let done =
        save_payloads uuid split split_by_type encrypt_split default_persistence default_encryption
          true rows database in
      ((results : List SamplePayload)
        → answer ≡ ok results
        → (done.0 ≡ ok done.1)
          × IsSaved uuid split split_by_type encrypt_split rows results routes.0 routes.1 database
              done.1)
      × ((e : String) → answer ≡ throw e → (done.0 ≡ throw e) × (done.1.saved ≡ []))
      × (default_encryption ≡ default_encryption → true ≡ true → routes.1 ≡ []))
save_payloads-IsSaved_example =
    save_payloads-IsSaved (λ p. p.uuid) split split_by_type encrypt_split split_by_type-IsPartition
      default_encryption true rows database
