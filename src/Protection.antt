-- ===== src/Protection.antt =====
-- Protected items and actions, and the session in which they need no further authentication
-- (packages/snjs/lib/Services/Protection/ProtectionService.ts). Times are milliseconds. `Env` holds
-- what the other services say at the time of a call: the time and its local clock, whether there is an account and a
-- passcode, and how the user answers a challenge (`none`: it was cancelled).
pub mod Session
pub mod Items
mod Examples
use snjs.Prelude.{
  ℕ, ◌+◌, ◌*◌, String, Bool, true, false, ◌&&◌, ◌||◌, not, Option, none, some, List, [], ◌∷◌, ◌++◌,
  ltb, ◌==◌, is_empty, find, if◌then◌else◌, Result, ok, throw, ◌>>=◌,
}

pub data ProtectionEvent : Type 0 where
  unprotected_session_began unprotected_session_expired : ProtectionEvent

-- The values of UnprotectedAccessSecondsDuration
abbrev pub one_minute : ℕ
one_minute = 60

unfoldable pub is_valid_protection_session_length : ℕ → Bool
is_valid_protection_session_length n = n == 60 || n == 300 || n == 3600 || n == 604800

pub data Validation : Type 0 where
  biometric local_passcode account_password protection_session_duration : Validation

pub record ChallengePrompt : Type 0 where
  pub validation : Validation
  pub initial_value : Option ℕ

-- A value, where `none` is null or undefined. Only a length is read, and it is a number: the
-- challenge service lets no value of this kind through that isValidProtectionSessionLength refuses.
pub record ChallengeValue : Type 0 where
  pub validation : Validation
  pub value : Option ℕ

pub record Protection : Type 0 where
  pub biometrics_state : Bool
  pub protection_expiry : Option ℕ
  pub protection_session_length : Option ℕ
  pub session_expiry_timeout : Option ℕ
  pub events : List ProtectionEvent

pub record Env : Type 0 where
  pub now : ℕ
  pub has_account : Bool
  pub has_passcode : Bool
  -- the date that setSeconds(getSeconds() + length) makes of the time, by the local clock
  pub in_seconds : ℕ → ℕ
  pub respond : List ChallengePrompt → Option (List ChallengeValue)

abbrev pub prompt : Validation → ChallengePrompt
prompt v = record { validation = v; initial_value = none }

abbrev pub when : Bool → ChallengePrompt → List ChallengePrompt
when true p = p ∷ []
when false p = []

abbrev pub has_biometrics_enabled : Protection → Bool
has_biometrics_enabled s = s.biometrics_state

unfoldable pub has_protection_sources : Env → Protection → Bool
has_protection_sources env s = env.has_account || env.has_passcode || has_biometrics_enabled s

unfoldable pub get_session_expiry_date : ℕ → Protection → ℕ
get_session_expiry_date now s = elim s.protection_expiry [ none ↦ now | some date ↦ date ]

unfoldable pub has_unprotected_access_session : Env → Protection → Bool
unfolding has_protection_sources get_session_expiry_date
has_unprotected_access_session env s =
    if not (has_protection_sources env s)
    then true
    else ltb env.now (get_session_expiry_date env.now s)

unfoldable pub enable_biometrics : Protection → Bool × Protection
enable_biometrics s =
    if has_biometrics_enabled s then (false, s) else (true, record s { biometrics_state = true })

unfoldable pub create_launch_challenge : Env → Protection → Option (List ChallengePrompt)
create_launch_challenge env s =
    let prompts =
      when (has_biometrics_enabled s) (prompt biometric)
      ++ when env.has_passcode (prompt local_passcode) in
    if is_empty prompts then none else some prompts

unfoldable pub update_session_expiry_timer : ℕ → Protection → Protection
update_session_expiry_timer date s = record s { session_expiry_timeout = some date }

-- Stage LoadedDatabase_12
unfoldable pub handle_database_loaded : ℕ → Protection → Protection
unfolding update_session_expiry_timer get_session_expiry_date
handle_database_loaded now s = update_session_expiry_timer (get_session_expiry_date now s) s

unfoldable pub set_session_expiry_date : ℕ → Protection → Protection
set_session_expiry_date date s = record s { protection_expiry = some date }

unfoldable pub clear_session : ℕ → Protection → Protection
unfolding set_session_expiry_date
clear_session now s =
    let s' = set_session_expiry_date now s in
    record s' { events = unprotected_session_expired ∷ s'.events }

unfoldable pub set_session_length : Env → ℕ → Protection → Protection
unfolding set_session_expiry_date update_session_expiry_timer
set_session_length env length s =
    let expires_at = env.in_seconds length in
    let s' =
      update_session_expiry_timer expires_at (
        set_session_expiry_date expires_at
          (record s { protection_session_length = some length })) in
    record s' { events = unprotected_session_began ∷ s'.events }

pub record Options : Type 0 where
  pub fall_back_to_account_password : Bool
  pub require_account_password : Bool

abbrev pub default_options : Options
default_options = record { fall_back_to_account_password = true; require_account_password = false }

-- The factors that the user must give, before the prompt for the length of the session.
unfoldable pub factors : Env → Options → Protection → List ChallengePrompt
factors env options s =
    let own =
      when (has_biometrics_enabled s) (prompt biometric)
      ++ (when env.has_passcode (prompt local_passcode)
          ++ when options.require_account_password (prompt account_password)) in
    if is_empty own
    then when (options.fall_back_to_account_password && env.has_account) (prompt account_password)
    else own

unfoldable pub session_length_prompt : Protection → ChallengePrompt
unfolding is_valid_protection_session_length
session_length_prompt s = record {
  validation = protection_session_duration;
  initial_value = some (elim s.protection_session_length [
    | none ↦ one_minute
    | some n ↦ if is_valid_protection_session_length n then n else one_minute
  ]);
}

abbrev pub is_duration : ChallengeValue → Bool
is_duration v = elim v.validation [ protection_session_duration ↦ true | _ ↦ false ]

-- What a given response does.
unfoldable pub accept : Env → List ChallengeValue → Protection → Protection
unfolding set_session_length
accept env values s = elim (find is_duration values) [
  | none ↦ s
  | some v ↦ elim v.value [ none ↦ s | some length ↦ set_session_length env length s ]
]

abbrev answer : Env → Option (List ChallengeValue) → Protection → Bool × Protection
answer env none s = (false, s)
answer env (some values) s = (true, accept env values s)

unfoldable pub validate_or_renew_session : Env → Options → Protection → Result (Bool × Protection)
unfolding get_session_expiry_date
validate_or_renew_session env options s =
    if ltb env.now (get_session_expiry_date env.now s)
    then ok (true, s)
    else if options.require_account_password && not env.has_account
    then throw "Requiring account password for challenge with no account"
    else if is_empty (factors env options s)
    then ok (true, s)
    else ok (answer env (env.respond (factors env options s ++ session_length_prompt s ∷ [])) s)

abbrev pub authorize_action : Env → Options → Protection → Result (Bool × Protection)
authorize_action = validate_or_renew_session

abbrev pub authorize_backup_creation : Env → Protection → Result (Bool × Protection)
authorize_backup_creation env = authorize_action env default_options

abbrev pub authorize_mfa_disable : Env → Protection → Result (Bool × Protection)
authorize_mfa_disable env =
    authorize_action env (record default_options { require_account_password = true })

unfoldable pub authorize_item_access : Env → Bool → Protection → Result (Bool × Protection)
authorize_item_access env is_protected s =
    if not is_protected then ok (true, s) else authorize_action env default_options s

unfoldable pub disable_biometrics : Env → Protection → Result (Bool × Protection)
unfolding validate_or_renew_session
disable_biometrics env s = if not (has_biometrics_enabled s) then ok (false, s) else (do
  (valid, s') ← validate_or_renew_session env default_options s
  ok (if valid then (true, record s' { biometrics_state = false }) else (false, s')))
