-- ===== src/User/Change.antt =====
-- What a change of the credentials leaves.
use snjs.Prelude.{
  ℕ, ◌≡◌, refl, ◌∙◌, String, Bool, true, false, Option, none, some, not, if◌then◌else◌,
}
use snjs.User.Calls.{Call, UserService, World, log, pure}
use snjs.User.Holds.{Holds, Holds-bind, Holds-if, Holds-request, Holds-request_response}
use snjs.User.Credentials.{
  CredentialsChange, perform_credentials_change, change_credentials, after_change,
  create_new_items_key, roll_back, roll_back_keys, is_too_short,
}

-- After the server was asked for the key `new`.
abbrev IsAsked : ℕ → UserService → Bool → UserService → Type 0
IsAsked new s true s' = (s'.root_key ≡ s.root_key) × (s'.items_key ≡ s.items_key)
IsAsked new s false s' = (s'.root_key ≡ new) × (s'.items_key ≡ s.items_key)

-- The keys before and after a change, by its error.
pub data IsChanged (p : CredentialsChange) (s : UserService)
    : Option String → UserService → Type 0 where
  changed :
      (s' : UserService)
      → s'.root_key ≡ p.new_root_key
      → s'.items_key ≡ p.new_items_key
      → p.never_synced ≡ false
      → IsChanged p s none s'
  kept :
      (e : String) (s' : UserService)
      → s'.root_key ≡ s.root_key
      → s'.items_key ≡ s.items_key
      → IsChanged p s (some e) s'
  stranded :
      (s' : UserService)
      → s'.root_key ≡ p.new_root_key
      → s'.items_key ≡ s.items_key
      → p.never_synced ≡ true
      → IsChanged p s (some "Failed") s'

module _ (w : World) where
  change_credentials_lem :
      (old new : ℕ) (s : UserService) → Holds w (IsAsked new s) (change_credentials w old new s)
  unfolding change_credentials
  change_credentials_lem old new s =
      Holds-request_response w (IsAsked new s) (Call.change_credentials old new) _ s asked
    where
      asked :
          (b : Bool)
          → (let s' = log (Call.change_credentials old new) s in
              IsAsked new s b (if b then s' else record s' { root_key = new }))
      asked true = (refl, refl)
      asked false = (refl, refl)

  -- `s` is the service before the change.
  roll_back_keys_lem :
      (p : CredentialsChange) (s t : UserService) (old : ℕ)
      → ((t' : UserService)
          → t'.root_key ≡ t.root_key
          → t'.items_key ≡ old
          → IsChanged p s (some "Failed") t')
      → Holds w (IsChanged p s) (roll_back_keys w old t)
  unfolding roll_back_keys
  roll_back_keys_lem p s t old h = Holds-request w (IsChanged p s) Call.reencrypt_items_keys _ t (
      Holds-request w (IsChanged p s) Call.rollback_items_key _ _
        (Holds-request w (IsChanged p s) Call.sync _ _ (h _ refl refl)))

  -- `t` is that before the way back.
  roll_back_lem :
      (p : CredentialsChange) (s t : UserService) (old : ℕ)
      → p.current_root_key ≡ s.root_key
      → old ≡ s.items_key
      → t.root_key ≡ p.new_root_key
      → p.never_synced ≡ true
      → Holds w (IsChanged p s) (roll_back w p old t)
  unfolding roll_back
  roll_back_lem p s t old current same new never =
      Holds-bind w (IsAsked p.current_root_key t) (IsChanged p s)
        (change_credentials w p.new_root_key p.current_root_key) _ t
        (change_credentials_lem p.new_root_key p.current_root_key t) rolled
    where
      rolled :
          (b : Bool) (s' : UserService)
          → IsAsked p.current_root_key t b s'
          → Holds w (IsChanged p s) (roll_back_keys w old s')
      rolled true s' asked =
          roll_back_keys_lem p s s' old
            (λ t' root items. IsChanged.stranded t' (root ∙ asked.0 ∙ new) (items ∙ same) never)
      rolled false s' asked =
          roll_back_keys_lem p s s' old
            (λ t' root items. IsChanged.kept "Failed" t' (root ∙ asked.0 ∙ current) (items ∙ same))

  after_change_lem :
      (p : CredentialsChange) (s t : UserService) (b : Bool)
      → p.current_root_key ≡ s.root_key
      → IsAsked p.new_root_key s b t
      → Holds w (IsChanged p s) (after_change w p b t)
  unfolding after_change create_new_items_key
  after_change_lem p s t true current asked = IsChanged.kept "response" t asked.0 asked.1
  after_change_lem p s t false current asked =
      Holds-bind w
        (λ old t'.
          (old ≡ t.items_key) × (t'.root_key ≡ t.root_key) × (t'.items_key ≡ p.new_items_key))
        (IsChanged p s) (create_new_items_key w p.new_items_key) _ t
        (Holds-request w _ Call.create_new_items_key _ t (refl, refl, refl))
        (λ old t' created. Holds-request w (IsChanged p s) Call.reencrypt_items_keys _ t' (
          Holds-request w (IsChanged p s) Call.sync _ _ (
            synced p.never_synced old _ refl (created.0 ∙ asked.1) (created.1 ∙ asked.0)
              created.2)))
    where
      synced :
          (never : Bool) (old : ℕ) (t' : UserService)
          → p.never_synced ≡ never
          → old ≡ s.items_key
          → t'.root_key ≡ p.new_root_key
          → t'.items_key ≡ p.new_items_key
          → Holds w (IsChanged p s) ((if never then roll_back w p old else pure none) t')
      synced true old t' eq same root items = roll_back_lem p s t' old current same root eq
      synced false old t' eq same root items = IsChanged.changed t' root items eq

  -- Where the change starts from the root key in force, it throws what the last of its calls threw, or
  -- returns. Without an error, the root key and the items key are then the new ones, and the new items
  -- key was synced. With an error, the items key is the one before, and so is the root key, except
  -- that if the new items key was never synced the root key may be the new one: the server may refuse to
  -- take the change back.
  pub change-IsChanged :
      (p : CredentialsChange) (s : UserService)
      → p.current_root_key ≡ s.root_key
      → Holds w (IsChanged p s) (perform_credentials_change w p s)
  unfolding perform_credentials_change
  change-IsChanged p s current =
      Holds-request w (IsChanged p s) Call.get_wrapping_key_if_applicable _ s (
        Holds-if w (IsChanged p s) p.canceled _ _ asked (IsChanged.kept _ asked refl refl) (
          Holds-if w (IsChanged p s) (is_too_short p p.new_password_length) _ _ asked
            (IsChanged.kept _ asked refl refl)
            (Holds-request w (IsChanged p s) Call.validate_account_password _ asked (
              Holds-if w (IsChanged p s) (not p.password_valid) _ _ validated
                (IsChanged.kept _ validated refl refl)
                (Holds-request w (IsChanged p s) Call.compute_root_keys _ validated (
                  Holds-bind w (IsAsked p.new_root_key locked) (IsChanged p s)
                    (change_credentials w p.current_root_key p.new_root_key) _ locked
                    (change_credentials_lem p.current_root_key p.new_root_key locked)
                    (λ b t response.
                      after_change_lem p s (record t { sync_locked = false }) b current
                        (unlock b t response))))))))
    where
      asked : UserService
      asked = log Call.get_wrapping_key_if_applicable s

      validated : UserService
      validated = log Call.validate_account_password asked

      locked : UserService
      locked = record (log Call.compute_root_keys validated) { sync_locked = true }

      unlock :
          (b : Bool) (t : UserService)
          → IsAsked p.new_root_key locked b t
          → IsAsked p.new_root_key s b (record t { sync_locked = false })
      unlock true t response = response
      unlock false t response = response
