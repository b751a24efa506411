-- ===== src/Storage/Guards.antt =====
-- What is removed, and what keeps values off the disk: a session that is not launched or that is
-- ephemeral.
use snjs.Prelude.{
  ◌≡◌, refl, ◌∙◌, String, Bool, true, false, Option, none, some, str_eq, ok, arith, eq_refl,
  if◌then◌else◌, Bool-cases, inl, inr,
}
use snjs.Storage.{
  Value, Domain, update, Mode, DiskStorage, Values, read_domain, write_domain, or_default,
  get_value, set_value, set_value_with_no_persist, persist_values_to_disk, is_ephemeral_session,
  immediately_persist_values_to_disk, generate_persistable_values, handle_launched, remove_value,
  clear_values, is_truthy_at, set_initial_values,
}
use snjs.Storage.Persist.{set_lem, written_lem, read_lem, get_value-persist}

-- What the test of `removeValue` leaves of a value.
abbrev pub left : Option Value → Option Value
left value = if is_truthy_at value then none else value

module _ {Cipher : Type 0} (copy : Domain → Domain) (encrypt : Domain → Cipher)
    (has_root_key : Bool) where
  removed_lem :
      (key : String) (mode : Mode) (d : Domain) (v : Values Cipher) (s : DiskStorage Cipher)
      → s.values ≡ some v
      → read_domain mode v ≡ ok (some d)
      → is_truthy_at (d key) ≡ true
      → remove_value copy encrypt has_root_key key mode s
        ≡ ok (
            persist_values_to_disk copy encrypt has_root_key
              (record s { values = some (write_domain mode (update key none d) v) }))
  unfolding remove_value
  removed_lem key mode d v s loaded there found = rw (loaded, there) (rw found refl)

  kept_lem :
      (key : String) (mode : Mode) (d : Domain) (v : Values Cipher) (s : DiskStorage Cipher)
      → s.values ≡ some v
      → read_domain mode v ≡ ok (some d)
      → is_truthy_at (d key) ≡ false
      → remove_value copy encrypt has_root_key key mode s ≡ ok s
  unfolding remove_value
  kept_lem key mode d v s loaded there falsy = ground arith

  -- Removing a key never fails while the values are loaded. Afterwards the key reads as its
  -- default, unless it held a value that is falsy (false, zero, or the empty text): such a value
  -- stays where it is. No other key is touched.
  pub get_value-remove_value :
      (key : String) (mode : Mode) (d : Domain) (v : Values Cipher) (s : DiskStorage Cipher)
      → s.values ≡ some v
      → read_domain mode v ≡ ok (some d)
      → (s' : DiskStorage Cipher) × (remove_value copy encrypt has_root_key key mode s ≡ ok s')
        × ((default : Option Value)
            → get_value key mode default s' ≡ ok (or_default default (left (d key))))
        × ((other : String) (default : Option Value)
            → str_eq key other ≡ false
            → get_value other mode default s' ≡ ok (or_default default (d other)))
  get_value-remove_value key mode d v s loaded there = elim (Bool-cases (is_truthy_at (d key))) [
    | inl found ↦
        let removed : DiskStorage Cipher = record s {
          values = some (write_domain mode (update key none d) v);
        } in
        let now = written_lem mode d (update key none d) v there in
        (
          persist_values_to_disk copy encrypt has_root_key removed,
          removed_lem key mode d v s loaded there found,
          λ default.
              get_value-persist copy encrypt has_root_key key mode default removed
              ∙ read_lem key mode default (update key none d) _ removed refl now
              ∙ rw (eq_refl key, found) refl,
          λ other default differs.
              get_value-persist copy encrypt has_root_key other mode default removed
              ∙ read_lem other mode default (update key none d) _ removed refl now
              ∙ rw differs refl,
        )
    | inr falsy ↦ (
      s,
      kept_lem key mode d v s loaded there falsy,
      λ default. read_lem key mode default d v s loaded there ∙ rw falsy refl,
      λ other default differs. read_lem other mode default d v s loaded there,
    )
  ]

  -- Until the application is launched a value that is set stays off the disk; the launch writes it
  -- with all others, unless the session is ephemeral.
  pub launch_flushes :
      (key : String) (value : Option Value) (mode : Mode) (d : Domain) (v : Values Cipher)
      (s : DiskStorage Cipher)
      → s.values ≡ some v
      → read_domain mode v ≡ ok (some d)
      → s.storage_persistable ≡ false
      → is_ephemeral_session s ≡ false
      → (s' : DiskStorage Cipher) × (set_value copy encrypt has_root_key key value mode s ≡ ok s')
        × (s'.disk ≡ s.disk)
        × ((handle_launched copy encrypt has_root_key s').disk
            ≡ some (
                generate_persistable_values copy encrypt has_root_key
                  (write_domain mode (update key value d) v)))
        × ((handle_launched copy encrypt has_root_key s').needs_persist ≡ false)
  unfolding set_value persist_values_to_disk handle_launched immediately_persist_values_to_disk
  launch_flushes key value mode d v s loaded there waiting kept = (
    record s { values = some (write_domain mode (update key value d) v); needs_persist = true },
    rw (set_lem key value mode d v s loaded there) (rw waiting refl),
    refl,
    rw kept refl,
    rw kept refl,
  )

  -- In an ephemeral session no call that succeeds writes values to the disk.
  pub disk-ephemeral :
      (s : DiskStorage Cipher)
      → is_ephemeral_session s ≡ true
      → ((key : String) (value : Option Value) (mode : Mode) (s' : DiskStorage Cipher)
          → set_value copy encrypt has_root_key key value mode s ≡ ok s'
          → s'.disk ≡ s.disk)
        × ((key : String) (mode : Mode) (s' : DiskStorage Cipher)
            → remove_value copy encrypt has_root_key key mode s ≡ ok s'
            → s'.disk ≡ s.disk)
        × ((handle_launched copy encrypt has_root_key s).disk ≡ s.disk)
        × ((clear_values copy encrypt has_root_key s).disk ≡ s.disk)
  unfolding set_value set_value_with_no_persist persist_values_to_disk remove_value handle_launched
      clear_values immediately_persist_values_to_disk set_initial_values
  disk-ephemeral s private_session = (
    λ key value mode s' ran. ground arith,
    λ key mode s' ran. ground arith,
    ground arith,
    ground arith,
  )
