-- ===== src/Storage/Persist.antt =====
-- Values that are set are read back, and outlive a restart where they are encrypted.
use snjs.Prelude.{
  ◌≡◌, refl, sym, ap, ◌∙◌, String, Bool, true, false, Option, none, some, str_eq, ok, eq_refl,
  arith, or_else,
}
use snjs.Storage.{
  Value, Domain, update, empty_domain, Mode, default_mode, nonwrapped_mode, invalid, DiskStorage,
  Values, read_domain, write_domain, or_default, get_value, set_value, set_value_with_no_persist,
  persist_values_to_disk, is_ephemeral_session, immediately_persist_values_to_disk,
  generate_persistable_values, initialize_from_disk, set_initial_values, decrypt_storage,
  is_storage_wrapped, encrypted, json_at, json_domain, json_values,
}

module _ {Cipher : Type 0} where
  pub set_lem :
      (key : String) (value : Option Value) (mode : Mode) (d : Domain) (v : Values Cipher)
      (s : DiskStorage Cipher)
      → s.values ≡ some v
      → read_domain mode v ≡ ok (some d)
      → set_value_with_no_persist key value mode s
        ≡ ok (record s { values = some (write_domain mode (update key value d) v) })
  unfolding set_value_with_no_persist
  set_lem key value mode d v s loaded there = rw (loaded, there) refl

  pub written_lem :
      (mode : Mode) (d e : Domain) (v : Values Cipher)
      → read_domain mode v ≡ ok (some d)
      → read_domain mode (write_domain mode e v) ≡ ok (some e)
  written_lem default_mode d e v there = refl
  written_lem nonwrapped_mode d e v there = refl
  written_lem invalid d e v there = cc

  pub read_lem :
      (key : String) (mode : Mode) (default : Option Value) (d : Domain) (v : Values Cipher)
      (s : DiskStorage Cipher)
      → s.values ≡ some v
      → read_domain mode v ≡ ok (some d)
      → get_value key mode default s ≡ ok (or_default default (d key))
  unfolding get_value
  read_lem key mode default d v s loaded there = rw (loaded, there) refl

module _ {Cipher : Type 0} (copy : Domain → Domain) (encrypt : Domain → Cipher)
    (has_root_key : Bool) where
  -- Persisting does not change what is read.
  pub get_value-persist :
      (key : String) (mode : Mode) (default : Option Value) (s : DiskStorage Cipher)
      → get_value key mode default (persist_values_to_disk copy encrypt has_root_key s)
        ≡ get_value key mode default s
  unfolding get_value persist_values_to_disk immediately_persist_values_to_disk
  get_value-persist key mode default s = ground arith

  -- While the values are loaded, a value that is set in a domain that is there is what is read
  -- from then on, the default standing for null and for no value; any other key of the domain
  -- reads as before. Persisting, at once or later, does not change this.
  pub get_value-set_value :
      (key : String) (value : Option Value) (mode : Mode) (d : Domain) (v : Values Cipher)
      (s : DiskStorage Cipher)
      → s.values ≡ some v
      → read_domain mode v ≡ ok (some d)
      → (s' : DiskStorage Cipher) × (set_value copy encrypt has_root_key key value mode s ≡ ok s')
        × ((default : Option Value) → get_value key mode default s' ≡ ok (or_default default value))
        × ((other : String) (default : Option Value)
            → str_eq key other ≡ false
            → get_value other mode default s' ≡ get_value other mode default s)
  unfolding set_value
  get_value-set_value key value mode d v s loaded there =
      let set : DiskStorage Cipher = record s {
        values = some (write_domain mode (update key value d) v);
      } in
      let now = written_lem mode d (update key value d) v there in
      (
        persist_values_to_disk copy encrypt has_root_key set,
        rw (set_lem key value mode d v s loaded there) refl,
        λ default.
            get_value-persist key mode default set
            ∙ read_lem key mode default (update key value d) _ set refl now
            ∙ rw (eq_refl key) refl,
        λ other default differs.
            get_value-persist other mode default set
            ∙ read_lem other mode default (update key value d) _ set refl now
            ∙ rw differs (sym (read_lem other mode default d v s loaded there)),
      )

  pub disk-persist :
      (v : Values Cipher) (s : DiskStorage Cipher)
      → s.values ≡ some v
      → s.storage_persistable ≡ true
      → is_ephemeral_session s ≡ false
      → (persist_values_to_disk copy encrypt has_root_key s).disk
        ≡ some (generate_persistable_values copy encrypt has_root_key v)
  unfolding persist_values_to_disk immediately_persist_values_to_disk
  disk-persist v s loaded persistable kept = rw (persistable, kept, loaded) (rw kept refl)

-- What the code relies on of Copy: a copy has the text of the original, and JSON values are copied as they are.
pub record CopyLaws (copy : Domain → Domain) : Type 0 where
  pub json_copy : (d : Domain) (key : String) → json_at (copy d key) ≡ json_at (d key)
  pub copy_json : (d : Domain) (key : String) → copy (json_domain d) key ≡ json_at (d key)

module _ {Cipher : Type 0} (copy : Domain → Domain) (encrypt : Domain → Cipher) where
  -- The service of a later run of the program, on the same device.
  unfoldable pub restarted : DiskStorage Cipher → DiskStorage Cipher
  unfolding initialize_from_disk
  restarted s =
      initialize_from_disk
        (record s { values = none; storage_persistable = false; needs_persist = false })

  values-restarted :
      (v : Values Cipher) (s : DiskStorage Cipher)
      → s.disk ≡ some v
      → (restarted s).values
        ≡ some (record (json_values v) {
          unwrapped = some (or_else (json_values v).unwrapped empty_domain);
        })
  unfolding restarted initialize_from_disk set_initial_values
  values-restarted v s stored = rw stored refl

  decrypted_lem :
      (decrypt : Cipher → Option Domain) (c : Cipher) (d n : Domain) (u : Option Domain)
      (s : DiskStorage Cipher)
      → s.values ≡ some (record { wrapped = encrypted c; unwrapped = u; nonwrapped = n })
      → decrypt c ≡ some d
      → decrypt_storage copy decrypt s
        ≡ ok (record s {
          values =
              some (record { wrapped = encrypted c; unwrapped = some (copy d); nonwrapped = n });
        })
  unfolding decrypt_storage
  decrypted_lem decrypt c d n u s loaded opened = rw (loaded, decrypt_storage, opened) refl

  -- With a root key that opens what it locked, as JSON gives it back, and the laws of Copy, what a persistable session
  -- that is not ephemeral has persisted is there after a restart and the decryption of the storage,
  -- which does not fail: in either mode each key reads as the value it had, a Date as its ISO text.
  pub restart_restores :
      (decrypt : Cipher → Option Domain)
      → CopyLaws copy
      → ((d : Domain) → decrypt (encrypt d) ≡ some (json_domain d))
      → (d : Domain) (v : Values Cipher) (s : DiskStorage Cipher) → s.values ≡ some v
      → v.unwrapped ≡ some d
      → s.storage_persistable ≡ true
      → is_ephemeral_session s ≡ false
      → (s' : DiskStorage Cipher) × (decrypt_storage copy decrypt
            (restarted (persist_values_to_disk copy encrypt true s))
          ≡ ok s')
        × ((key : String) (default : Option Value)
            → get_value key default_mode default s' ≡ ok (or_default default (json_at (d key))))
        × ((key : String) (default : Option Value)
            → get_value key nonwrapped_mode default s'
              ≡ ok (or_default default (json_at (v.nonwrapped key))))
  unfolding generate_persistable_values get_value
  restart_restores decrypt copies opens d v s loaded there persistable kept =
      let stored = disk-persist copy encrypt true v s loaded persistable kept in
      let read = values-restarted (generate_persistable_values copy encrypt true v) _ stored in
      (
        _,
        decrypted_lem decrypt
            (encrypt
              (or_else (elim v.unwrapped [ none ↦ none | some e ↦ some (copy e) ]) empty_domain))
            (json_domain (copy d)) (json_domain (copy v.nonwrapped)) (some empty_domain) _ read
            (rw there (opens (copy d))),
        λ key default.
            ap (λ o. ok (or_default default o))
              (copies.copy_json (copy d) key ∙ copies.json_copy d key),
        λ key default. ap (λ o. ok (or_default default o)) (copies.json_copy v.nonwrapped key),
      )

  -- By the laws of Copy: without a root key the values of the default mode are wrapped as they are, and nothing takes
  -- them out again: after a restart the storage does not count as wrapped, so that it is not
  -- decrypted, and each of them reads as its default. The values that are not wrapped are kept, with
  -- each Date as its ISO text.
  pub restart_forgets :
      CopyLaws copy
      → (v : Values Cipher) (s : DiskStorage Cipher) → s.values ≡ some v
      → s.storage_persistable ≡ true
      → is_ephemeral_session s ≡ false
      → (let s' = restarted (persist_values_to_disk copy encrypt false s) in
          (is_storage_wrapped s' ≡ false)
          × ((key : String) (default : Option Value)
              → get_value key default_mode default s' ≡ ok default)
          × ((key : String) (default : Option Value)
              → get_value key nonwrapped_mode default s'
                ≡ ok (or_default default (json_at (v.nonwrapped key)))))
  unfolding generate_persistable_values is_storage_wrapped get_value
  restart_forgets copies v s loaded persistable kept =
      let stored = disk-persist copy encrypt false v s loaded persistable kept in
      let read =
        values-restarted (generate_persistable_values copy encrypt false v)
          (persist_values_to_disk copy encrypt false s) stored in
      (
        rw read refl,
        λ key default. rw read refl,
        λ key default.
            rw read (ap (λ o. ok (or_default default o)) (copies.json_copy v.nonwrapped key)),
      )
