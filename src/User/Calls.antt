-- ===== src/User/Calls.antt =====
-- What the user service does to itself and asks of other services. Each awaited call of another service
-- is logged, and may throw: the world decides this by what was called so far. A call that is not
-- awaited is logged only, since its failure does not come back.
use snjs.Prelude.{
  ℕ, String, Bool, true, false, Option, none, some, List, [], ◌∷◌, ◌++◌, Result, ok, throw,
}

pub data Call : Type 0 where
  session_register session_sign_in session_sign_out : Call
  session_corrective_sign_in session_delete_account : Call
  reset_sync_state mark_all_items_as_needing_sync_and_persist : Call
  set_persistence_policy : Bool → Call
  remove_all_items_from_memory clear_all_payloads clear_all_data : Call
  notify_signed_in_or_registered notify_signed_out : Call
  download_first_sync decrypt_errored_payloads delete_workspace_key_state : Call
  sync persist_items_keys force_delete_items_keys : Call
  create_root_key set_new_root_key_wrapper remove_passcode : Call
  compute_root_keys create_new_items_key reencrypt_items_keys rollback_items_key : Call
  -- the current server password is that of the first key
  change_credentials : ℕ → ℕ → Call
  alert : String → Call
  -- what the user is asked and shown
  prompt_for_challenge_response blocking_dialog confirm : Call
  authorize_action get_wrapping_key_if_applicable validate_account_password : Call

-- `open_dialogs` counts the blocking dialogs that are shown. The root key is the one of the server and of
-- the device; the items key is the default one.
pub record UserService : Type 0 where
  pub signing_in : Bool
  pub registering : Bool
  pub sync_locked : Bool
  pub open_dialogs : ℕ
  pub root_key : ℕ
  pub items_key : ℕ
  pub calls : List Call

-- Whether the last call of a list throws, and whether its response has an error.
pub record World : Type 0 where
  pub throws : List Call → Option String
  pub has_error : List Call → Bool

abbrev pub Action {ℓ} : Type ℓ → Type ℓ
Action A = UserService → Result A × UserService

abbrev pub run_next {ℓ κ} :
    {A : Type ℓ} {B : Type κ} → Result A × UserService → (A → Action B) → Result B × UserService
run_next (ok a, s) f = f a s
run_next (throw e, s) f = (throw e, s)

infixl 5 ◌>>=◌ ◌>>◌
abbrev pub ◌>>=◌ {ℓ κ} : {A : Type ℓ} {B : Type κ} → Action A → (A → Action B) → Action B
◌>>=◌ m f s = run_next (m s) f

abbrev pub ◌>>◌ {ℓ κ} : {A : Type ℓ} {B : Type κ} → Action A → Action B → Action B
m >> k = m >>= λ _. k

abbrev pub pure {ℓ} : {A : Type ℓ} → A → Action A
pure a s = (ok a, s)

abbrev pub fail {ℓ} : {A : Type ℓ} → String → Action A
fail e s = (throw e, s)

abbrev pub modify : (UserService → UserService) → Action (Unit {0})
modify f s = (ok tt, f s)

-- `try { m } catch (e) { handler }`, where the handler throws the error again.
abbrev pub after_error {ℓ} :
    {A : Type ℓ} → Result A × UserService → (UserService → UserService) → Result A × UserService
after_error (ok a, s) f = (ok a, s)
after_error (throw e, s) f = (throw e, f s)

-- `try { m } finally { f }`
abbrev pub finally {ℓ} : {A : Type ℓ} → Action A → (UserService → UserService) → Action A
finally m f s = let (r, s') = m s in (r, f s')

abbrev pub log : Call → UserService → UserService
log c s = record s { calls = s.calls ++ c ∷ [] }

-- A call that is not awaited.
abbrev pub fire : Call → Action (Unit {0})
fire c = modify (log c)

abbrev pub lock_syncing : Action (Unit {0})
lock_syncing = modify (λ s. record s { sync_locked = true })

abbrev pub unlock_syncing : Action (Unit {0})
unlock_syncing = modify (λ s. record s { sync_locked = false })

abbrev pub set_registering : Bool → Action (Unit {0})
set_registering b = modify (λ s. record s { registering = b })

abbrev pub set_signing_in : Bool → Action (Unit {0})
set_signing_in b = modify (λ s. record s { signing_in = b })

abbrev pub outcome : Option String → Result (Unit {0})
outcome none = ok tt
outcome (some e) = throw e

module _ (w : World) where
  -- A call that is awaited.
  abbrev pub request : Call → Action (Unit {0})
  request c s = let s' = log c s in (outcome (w.throws s'.calls), s')

  -- One whose response may have an error.
  abbrev pub request_response : Call → Action Bool
  request_response c = request c >> λ s. (ok (w.has_error s.calls), s)
