-- ===== src/User/Passcode.antt =====
-- Adding, removing and changing the passcode, each behind a blocking dialog.
use snjs.Prelude.{ℕ, ◌+◌, ◌-◌, Bool, true, false, not, ltb, if◌then◌else◌}
use snjs.User.Calls.{Call, UserService, World, Action, ◌>>◌, pure, modify, finally, request}

-- MINIMUM_PASSCODE_LENGTH
abbrev pub minimum_passcode_length : ℕ
minimum_passcode_length = 1

abbrev pub blocking_dialog : World → Action (Unit {0})
blocking_dialog w = do
  request w Call.blocking_dialog
  modify (λ s. record s { open_dialogs = s.open_dialogs + 1 })

abbrev pub dismiss_blocking_dialog : UserService → UserService
dismiss_blocking_dialog s = record s { open_dialogs = s.open_dialogs - 1 }

module _ (w : World) where
  unfoldable pub rewrite_items_keys : Action (Unit {0})
  rewrite_items_keys = do request w Call.force_delete_items_keys; request w Call.persist_items_keys

  unfoldable pub set_passcode_without_warning : Action (Unit {0})
  unfolding rewrite_items_keys
  set_passcode_without_warning = do
    request w Call.create_root_key
    request w Call.set_new_root_key_wrapper
    rewrite_items_keys
    request w Call.sync

  unfoldable pub remove_passcode_without_warning : Action (Unit {0})
  unfolding rewrite_items_keys
  remove_passcode_without_warning = do request w Call.remove_passcode; rewrite_items_keys

  -- `length` is that of the new passcode; `authorized` is what the protection service answers.
  unfoldable pub add_passcode : ℕ → Bool → Action Bool
  unfolding set_passcode_without_warning
  add_passcode length authorized = if ltb length minimum_passcode_length then pure false else (do
    request w Call.authorize_action
    if not authorized then pure false else (do
      blocking_dialog w
      finally (do set_passcode_without_warning; pure true) dismiss_blocking_dialog))

  unfoldable pub remove_passcode : Bool → Action Bool
  unfolding remove_passcode_without_warning
  remove_passcode authorized = do
    request w Call.authorize_action
    if not authorized then pure false else (do
      blocking_dialog w
      finally (do remove_passcode_without_warning; pure true) dismiss_blocking_dialog)

  unfoldable pub change_passcode : ℕ → Bool → Action Bool
  unfolding remove_passcode_without_warning set_passcode_without_warning
  change_passcode length authorized = if ltb length minimum_passcode_length then pure false else (do
    request w Call.authorize_action
    if not authorized then pure false else (do
      blocking_dialog w
      finally (do remove_passcode_without_warning; set_passcode_without_warning; pure true)
          dismiss_blocking_dialog))
