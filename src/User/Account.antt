-- ===== src/User/Account.antt =====
-- Registering, signing in and out, and deleting the account.
use snjs.Prelude.{ℕ, Bool, true, false, ltb, if◌then◌else◌}
use snjs.User.Calls.{
  Call, UserService, World, Action, ◌>>=◌, ◌>>◌, pure, fail, after_error, finally, fire,
  lock_syncing, unlock_syncing, set_registering, request, request_response,
}

module _ (w : World) where
  -- Local data join the account, or go.
  unfoldable pub merge_or_clear : Bool → Action (Unit {0})
  merge_or_clear true = request w Call.mark_all_items_as_needing_sync_and_persist
  merge_or_clear false = do
    request w Call.remove_all_items_from_memory
    request w Call.clear_all_payloads

  -- The body of the try block.
  unfoldable pub register_body : Bool → Bool → Action (Unit {0})
  unfolding merge_or_clear
  register_body ephemeral merge_local = do
    lock_syncing
    request w Call.session_register
    fire Call.reset_sync_state
    request w (Call.set_persistence_policy ephemeral)
    merge_or_clear merge_local
    request w Call.notify_signed_in_or_registered
    unlock_syncing
    set_registering false
    request w Call.download_first_sync
    fire Call.decrypt_errored_payloads

  abbrev pub give_up : UserService → UserService
  give_up s = record s { sync_locked = false; registering = false }

  unfoldable pub register : Bool → Bool → Bool → Action (Unit {0})
  unfolding register_body
  register has_account ephemeral merge_local s =
      if has_account
      then fail "Tried to register when an account already exists." s
      else if s.registering
      then fail "Already registering." s
      else after_error (register_body ephemeral merge_local (record s { registering = true }))
          give_up

  -- Here the items go from memory without being waited for.
  unfoldable pub merge_or_clear_at_sign_in : Bool → Action (Unit {0})
  merge_or_clear_at_sign_in true = request w Call.mark_all_items_as_needing_sync_and_persist
  merge_or_clear_at_sign_in false = do
    fire Call.remove_all_items_from_memory
    request w Call.clear_all_payloads

  -- The first download, and the decryption that follows it; what follows a download that is not awaited
  -- is left out.
  unfoldable pub first_download : Bool → Action (Unit {0})
  first_download true = do
    request w Call.download_first_sync
    request w Call.decrypt_errored_payloads
  first_download false = fire Call.download_first_sync

  unfoldable pub signed_in : Bool → Bool → Bool → Bool → Action (Unit {0})
  unfolding merge_or_clear_at_sign_in first_download
  signed_in true ephemeral merge_local await_sync = unlock_syncing
  signed_in false ephemeral merge_local await_sync = do
    fire Call.reset_sync_state
    request w (Call.set_persistence_policy ephemeral)
    merge_or_clear_at_sign_in merge_local
    request w Call.notify_signed_in_or_registered
    unlock_syncing
    first_download await_sync

  unfoldable pub sign_in_body : Bool → Bool → Bool → Action Bool
  unfolding signed_in
  sign_in_body ephemeral merge_local await_sync = do
    lock_syncing
    has_error ← request_response w Call.session_sign_in
    signed_in has_error ephemeral merge_local await_sync
    pure has_error

  -- The result tells whether the response has an error.
  unfoldable pub sign_in : Bool → Bool → Bool → Bool → Action Bool
  unfolding sign_in_body
  sign_in has_account ephemeral merge_local await_sync s =
      if has_account
      then fail "Tried to sign in when an account already exists." s
      else if s.signing_in
      then fail "Already signing in." s
      else finally (sign_in_body ephemeral merge_local await_sync)
          (λ s'. record s' { signing_in = false }) (record s { signing_in = true })

  unfoldable pub corrective_sign_in : Action Bool
  corrective_sign_in = do
    lock_syncing
    has_error ← request_response w Call.session_corrective_sign_in
    if has_error then pure tt else (do
      request w Call.notify_signed_in_or_registered
      unlock_syncing
      fire Call.download_first_sync
      fire Call.decrypt_errored_payloads)
    unlock_syncing
    pure has_error

  unfoldable pub perform_sign_out : Action (Unit {0})
  perform_sign_out = do
    request w Call.session_sign_out
    request w Call.delete_workspace_key_state
    request w Call.clear_all_data
    request w Call.notify_signed_out

  -- `did_confirm` is what the user answers, if asked.
  unfoldable pub sign_out : Bool → ℕ → Bool → Action (Unit {0})
  unfolding perform_sign_out
  sign_out force dirty_items did_confirm =
      if force
      then perform_sign_out
      else if ltb 0 dirty_items
      then (do request w Call.confirm; if did_confirm then perform_sign_out else pure tt)
      else perform_sign_out

  unfoldable pub delete_account : Bool → Action Bool
  unfolding sign_out
  delete_account authorized = do
    request w Call.authorize_action
    if authorized
        then (do
          has_error ← request_response w Call.session_delete_account
          if has_error
              then pure true
              else (do sign_out true 0 false; fire (Call.alert "AccountDeleted"); pure false))
        else pure true
