-- ===== src/User/Credentials.antt =====
-- Changing the account's password or email, with the way back when the new items key is not synced, and
-- the upgrade of the protocol that uses it.
use snjs.Prelude.{
  ℕ, String, Bool, true, false, not, ◌&&◌, Option, none, some, ltb, if◌then◌else◌, Result, ok,
  throw,
}
use snjs.User.Calls.{
  Call, UserService, World, Action, ◌>>=◌, ◌>>◌, pure, modify, finally, fire, request,
  request_response, lock_syncing, unlock_syncing,
}
use snjs.User.Passcode.{
  blocking_dialog, dismiss_blocking_dialog, remove_passcode_without_warning,
  set_passcode_without_warning,
}

-- MINIMUM_PASSWORD_LENGTH of the session manager is given as `minimum_length`.
pub record CredentialsChange : Type 0 where
  pub canceled : Bool
  pub new_password_length : Option ℕ
  pub validate_new_password_strength : Bool
  pub minimum_length : ℕ
  pub password_valid : Bool
  pub current_root_key : ℕ
  pub new_root_key : ℕ
  pub new_items_key : ℕ
  -- `defaultItemsKey.neverSynced`, after the sync that follows the change
  pub never_synced : Bool

abbrev pub is_too_short : CredentialsChange → Option ℕ → Bool
is_too_short p none = false
is_too_short p (some length) = p.validate_new_password_strength && ltb length p.minimum_length

pub data Upgrade : Type 0 where
  success canceled : Upgrade
  error : String → Upgrade

abbrev pub caught : Result Upgrade × UserService → Result Upgrade × UserService
caught (ok u, s) = (ok u, s)
caught (throw e, s) = (ok (Upgrade.error e), s)

abbrev pub unless_error : Option String → Action Upgrade → Action Upgrade
unless_error none m = m
unless_error (some e) m = pure (Upgrade.error e)

module _ (w : World) where
  -- `sessionManager.changeCredentials`: without an error the new root key is in force.
  unfoldable pub change_credentials : ℕ → ℕ → Action Bool
  change_credentials current_key new_key = do
    has_error ← request_response w (Call.change_credentials current_key new_key)
    modify (λ s. if has_error then s else record s { root_key = new_key })
    pure has_error

  -- The new default items key; the way back sets the one that was the default.
  unfoldable pub create_new_items_key : ℕ → Action ℕ
  create_new_items_key new_key = do
    request w Call.create_new_items_key
    λ s. (ok s.items_key, record s { items_key = new_key })

  unfoldable pub roll_back_keys : ℕ → Action (Option String)
  roll_back_keys old_items_key = do
    request w Call.reencrypt_items_keys
    request w Call.rollback_items_key
    modify (λ s. record s { items_key = old_items_key })
    request w Call.sync
    pure (some "Failed")

  -- The response of the second change is not looked at.
  unfoldable pub roll_back : CredentialsChange → ℕ → Action (Option String)
  roll_back p old_items_key = do
    change_credentials p.new_root_key p.current_root_key
    roll_back_keys old_items_key

  -- What follows on the response of the server.
  unfoldable pub after_change : CredentialsChange → Bool → Action (Option String)
  unfolding create_new_items_key roll_back
  after_change p true = pure (some "response")
  after_change p false = do
    old_items_key ← create_new_items_key p.new_items_key
    request w Call.reencrypt_items_keys
    request w Call.sync
    if p.never_synced then roll_back p old_items_key else pure none

  -- The result is the error of the answer, if it has one.
  unfoldable pub perform_credentials_change : CredentialsChange → Action (Option String)
  unfolding change_credentials after_change
  perform_credentials_change p = do
    request w Call.get_wrapping_key_if_applicable
    if p.canceled
        then pure (some "PasscodeRequired")
        else if is_too_short p p.new_password_length
        then pure (some "InsufficientPasswordMessage")
        else (do
          request w Call.validate_account_password
          if not p.password_valid then pure (some "INVALID_PASSWORD") else (do
            request w Call.compute_root_keys
            lock_syncing
            has_error ← change_credentials p.current_root_key p.new_root_key
            unlock_syncing
            after_change p has_error))

  abbrev pub alert_error : Option String → Action (Unit {0})
  alert_error none = pure tt
  alert_error (some message) = fire (Call.alert message)

  unfoldable pub change_user_credentials : CredentialsChange → Action (Option String)
  unfolding perform_credentials_change
  change_user_credentials p = do
    result ← perform_credentials_change p
    alert_error result
    pure result

  abbrev pub upgrade_passcode : Bool → Action (Unit {0})
  upgrade_passcode false = pure tt
  upgrade_passcode true = do remove_passcode_without_warning w; set_passcode_without_warning w

  abbrev pub upgrade_account : Bool → CredentialsChange → Action (Option String)
  upgrade_account false p = pure none
  upgrade_account true p = change_user_credentials p

  -- `answered` tells whether the user answered the challenge with what is asked for.
  unfoldable pub perform_protocol_upgrade : Bool → Bool → Bool → CredentialsChange → Action Upgrade
  unfolding change_user_credentials remove_passcode_without_warning set_passcode_without_warning
  perform_protocol_upgrade has_passcode has_account answered p = do
    request w Call.prompt_for_challenge_response
    if not answered then pure Upgrade.canceled else (do
      blocking_dialog w
      finally
          (λ s. caught (
            (do
              failed ← upgrade_account has_account p
              unless_error failed (do upgrade_passcode has_passcode; pure Upgrade.success))
              s))
          dismiss_blocking_dialog)
