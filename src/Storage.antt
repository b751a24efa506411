-- ===== src/Storage.antt =====
-- Values on disk, encrypted where possible (packages/snjs/lib/Services/Storage/
-- DiskStorageService.ts). A domain is a function from keys. Encryption belongs to
-- @standardnotes/encryption and is a parameter, as is whether there is a root key to encrypt with;
-- the device is the value whose text it stores. Through that text a Date becomes its ISO
-- text (`json`); the other values are such as JSON gives back. `copy` is Copy of @standardnotes/utils. Writes happen at once: the model does not cut them where
-- the code awaits the device.
pub mod Persist
pub mod Guards
pub mod Saving
mod Examples
use snjs.Prelude.{
  ℕ, String, Bool, true, false, not, ◌&&◌, Option, none, some, List, [], str_eq, ◌==◌, is_some,
  or_else, if◌then◌else◌, Result, ok, throw, ◌>>=◌,
}

pub data Value : Type 0 where
  null : Value
  boolean : Bool → Value
  number : ℕ → Value
  text : String → Value
  -- one with no Date in it
  object : ℕ → Value
  date : ℕ → Value
  -- the ISO text of a date
  date_text : ℕ → Value

-- What a test `if (value)` makes of it.
abbrev pub is_truthy : Value → Bool
is_truthy null = false
is_truthy (boolean b) = b
is_truthy (number n) = not (n == 0)
is_truthy (text s) = not (str_eq s "")
is_truthy (object o) = true
is_truthy (date t) = true
is_truthy (date_text t) = true

abbrev pub is_truthy_at : Option Value → Bool
is_truthy_at none = false
is_truthy_at (some value) = is_truthy value

-- `value != undefined ? value : defaultValue`
abbrev pub or_default : Option Value → Option Value → Option Value
or_default default none = default
or_default default (some null) = default
or_default default (some value) = some value

abbrev pub Domain : Type 0
Domain = String → Option Value

abbrev pub update : String → Option Value → Domain → Domain
update k v d j = if str_eq k j then v else d j

abbrev pub empty_domain : Domain
empty_domain k = none

-- `JSON.parse(JSON.stringify(value))`
abbrev pub json : Value → Value
json (date t) = date_text t
json value = value

abbrev pub json_at : Option Value → Option Value
json_at none = none
json_at (some value) = some (json value)

abbrev pub json_domain : Domain → Domain
json_domain d key = json_at (d key)

-- StorageValueModes; `invalid` is any other number.
pub data Mode : Type 0 where
  default_mode nonwrapped_mode invalid : Mode

pub data PersistencePolicy : Type 0 where
  default_persistence ephemeral : PersistencePolicy

pub data EncryptionPolicy : Type 0 where
  default_encryption disabled : EncryptionPolicy

module _ (Cipher : Type 0) where
  -- `empty` is the object with no field of the default values.
  pub data Wrapped : Type 0 where
    empty : Wrapped
    encrypted : Cipher → Wrapped
    decrypted : Domain → Wrapped

  pub record Values : Type 0 where
    pub wrapped : Wrapped
    pub unwrapped : Option Domain
    pub nonwrapped : Domain

  pub record DiskStorage : Type 0 where
    pub is_mobile : Bool
    pub storage_persistable : Bool
    pub persistence_policy : PersistencePolicy
    pub encryption_policy : EncryptionPolicy
    pub needs_persist : Bool
    pub values : Option Values
    -- what the device holds under the key of the storage object
    pub disk : Option Values

module _ {Cipher : Type 0} where
  abbrev pub is_ephemeral_session : DiskStorage Cipher → Bool
  is_ephemeral_session s = elim s.persistence_policy [
    | ephemeral ↦ true
    | default_persistence ↦ false
  ]

  abbrev pub default_values_object : Values Cipher
  default_values_object = record {
    wrapped = empty;
    unwrapped = some empty_domain;
    nonwrapped = empty_domain;
  }

  abbrev json_wrapped : Wrapped Cipher → Wrapped Cipher
  json_wrapped empty = empty
  json_wrapped (encrypted c) = encrypted c
  json_wrapped (decrypted d) = decrypted (json_domain d)

  abbrev pub json_values : Values Cipher → Values Cipher
  json_values v = record {
    wrapped = json_wrapped v.wrapped;
    unwrapped = elim v.unwrapped [ none ↦ none | some d ↦ some (json_domain d) ];
    nonwrapped = json_domain v.nonwrapped;
  }

  unfoldable pub set_initial_values :
      Option (Values Cipher) → DiskStorage Cipher → DiskStorage Cipher
  set_initial_values initial s =
      let sure = or_else initial default_values_object in
      record s {
        values = some (record sure { unwrapped = some (or_else sure.unwrapped empty_domain) });
      }

  unfoldable pub initialize_from_disk : DiskStorage Cipher → DiskStorage Cipher
  unfolding set_initial_values
  initialize_from_disk s =
      set_initial_values (elim s.disk [ none ↦ none | some v ↦ some (json_values v) ]) s

  abbrev is_encrypted_wrapped : Wrapped Cipher → Bool
  is_encrypted_wrapped (encrypted c) = true
  is_encrypted_wrapped _ = false

  unfoldable pub is_storage_wrapped : DiskStorage Cipher → Bool
  is_storage_wrapped s = elim s.values [ none ↦ false | some v ↦ is_encrypted_wrapped v.wrapped ]

  -- `decryptWrappedValue` and the test of its result are `decrypt`.
  unfoldable pub decrypt_storage :
      (Domain → Domain)
      → (Cipher → Option Domain)
      → DiskStorage Cipher
      → Result (DiskStorage Cipher)
  decrypt_storage copy decrypt s = elim s.values [
    | none ↦ throw "values of undefined"
    | some v ↦ elim v.wrapped [
      | encrypted c ↦ elim (decrypt c) [
        | some d ↦ ok (record s { values = some (record v { unwrapped = some (copy d) }) })
        | none ↦ throw "Unable to decrypt storage."
      ]
      | _ ↦ throw "Attempting to decrypt already decrypted storage"
    ]
  ]

  -- The domain that a mode names, read and written.
  abbrev pub read_domain : Mode → Values Cipher → Result (Option Domain)
  read_domain default_mode v = ok v.unwrapped
  read_domain nonwrapped_mode v = ok (some v.nonwrapped)
  read_domain invalid v = throw "Invalid mode"

  abbrev pub write_domain : Mode → Domain → Values Cipher → Values Cipher
  write_domain default_mode d v = record v { unwrapped = some d }
  write_domain nonwrapped_mode d v = record v { nonwrapped = d }
  write_domain invalid d v = v

  unfoldable pub get_value :
      String → Mode → Option Value → DiskStorage Cipher → Result (Option Value)
  get_value key mode default s = elim s.values [
    | none ↦ throw "Attempting to get storage key before loading local storage."
    | some v ↦ do
      domain ← read_domain mode v
      elim domain [
        | none ↦ throw "Storage domain mode not available"
        | some d ↦ ok (or_default default (d key))
      ]
  ]

  unfoldable pub set_value_with_no_persist :
      String → Option Value → Mode → DiskStorage Cipher → Result (DiskStorage Cipher)
  set_value_with_no_persist key value mode s = elim s.values [
    | none ↦ throw "Attempting to set storage key before loading local storage."
    | some v ↦ do
      domain ← read_domain mode v
      elim domain [
        | none ↦ throw "domainStorage of undefined"
        | some d ↦ ok (record s { values = some (write_domain mode (update key value d) v) })
      ]
  ]

  module _ (copy : Domain → Domain) (encrypt : Domain → Cipher) (has_root_key : Bool) where
    -- `rawContent` after `generatePersistableValues`, which starts from a copy of the values
    unfoldable pub generate_persistable_values : Values Cipher → Values Cipher
    generate_persistable_values v =
        let values_to_wrap =
          or_else (elim v.unwrapped [ none ↦ none | some d ↦ some (copy d) ]) empty_domain in
        record {
          wrapped =
              if has_root_key then encrypted (encrypt values_to_wrap) else decrypted values_to_wrap;
          unwrapped = none;
          nonwrapped = copy v.nonwrapped;
        }

    -- The disk holds the text of these values; it is read by `initialize_from_disk`.
    unfoldable pub immediately_persist_values_to_disk :
        Values Cipher → DiskStorage Cipher → DiskStorage Cipher
    unfolding generate_persistable_values
    immediately_persist_values_to_disk v s =
        if is_ephemeral_session s
        then s
        else record s { disk = some (generate_persistable_values v) }

    unfoldable pub persist_values_to_disk : DiskStorage Cipher → DiskStorage Cipher
    unfolding immediately_persist_values_to_disk
    persist_values_to_disk s =
        if not s.storage_persistable
        then record s { needs_persist = true }
        else if is_ephemeral_session s
        then s
        else elim s.values [
          | none ↦ record s { needs_persist = false }
          | some v ↦
              let s' = immediately_persist_values_to_disk v (record s { needs_persist = false }) in
              record s' {
                values = some (record v { wrapped = (generate_persistable_values v).wrapped });
              }
        ]

    unfoldable pub set_value :
        String → Option Value → Mode → DiskStorage Cipher → Result (DiskStorage Cipher)
    unfolding set_value_with_no_persist persist_values_to_disk
    set_value key value mode s = do
      s' ← set_value_with_no_persist key value mode s
      ok (persist_values_to_disk s')

    -- `if (domain?.[key])`
    unfoldable pub remove_value : String → Mode → DiskStorage Cipher → Result (DiskStorage Cipher)
    unfolding persist_values_to_disk
    remove_value key mode s = elim s.values [
      | none ↦ throw "Attempting to remove storage key before loading local storage."
      | some v ↦ do
        domain ← read_domain mode v
        let d = or_else domain empty_domain
        ok (
            if is_truthy_at (d key)
            then persist_values_to_disk
                (record s { values = some (write_domain mode (update key none d) v) })
            else s)
    ]

    -- The key and the values of the policy belong to @standardnotes/services.
    module _ (policy_key : String) (policy_value : EncryptionPolicy → Value)
        (policy_of : Value → EncryptionPolicy) where
      unfoldable pub set_encryption_policy :
          EncryptionPolicy → Bool → DiskStorage Cipher → Result (DiskStorage Cipher)
      unfolding set_value
      set_encryption_policy policy persist s =
          let s' : DiskStorage Cipher = record s { encryption_policy = policy } in
          let kept =
            if persist
            then set_value policy_key (some (policy_value policy)) default_mode s'
            else ok s' in
          elim policy [
            | disabled ↦
                if not s.is_mobile
                then throw "Disabling storage encryption is only available on mobile."
                else kept
            | default_encryption ↦ kept
          ]

      -- The stage StorageDecrypted_09 takes up the policy that was stored.
      unfoldable pub handle_storage_decrypted : DiskStorage Cipher → Result (DiskStorage Cipher)
      unfolding get_value set_encryption_policy
      handle_storage_decrypted s = do
        stored ← get_value policy_key default_mode none s
        elim stored [
          | none ↦ ok s
          | some value ↦
              if is_truthy value then set_encryption_policy (policy_of value) false s else ok s
        ]

    -- The stage Launched_10 flushes what could not be written before.
    unfoldable pub handle_launched : DiskStorage Cipher → DiskStorage Cipher
    unfolding persist_values_to_disk
    handle_launched s =
        let s' : DiskStorage Cipher = record s { storage_persistable = true } in
        if s.needs_persist then persist_values_to_disk s' else s'

    unfoldable pub clear_values : DiskStorage Cipher → DiskStorage Cipher
    unfolding set_initial_values immediately_persist_values_to_disk
    clear_values s =
        immediately_persist_values_to_disk default_values_object (set_initial_values none s)

  -- The device drops the stored values; those of payloads are left out.
  unfoldable pub set_persistence_policy :
      PersistencePolicy → DiskStorage Cipher → DiskStorage Cipher
  set_persistence_policy default_persistence s = record s {
    persistence_policy = default_persistence;
  }
  set_persistence_policy ephemeral s = record s { persistence_policy = ephemeral; disk = none }
