-- ===== src/User/Examples.antt =====
-- A world in which nothing fails, one in which the server is out of reach, and one in which storage fails.
use snjs.Prelude.{
  ◌≡◌, refl, String, Bool, true, false, Option, none, some, List, [], ◌∷◌, ok, throw,
}
use snjs.User.Calls.{Call, UserService, World}
use snjs.User.Account.{register, sign_in}
use snjs.User.Passcode.{add_passcode, remove_passcode, change_passcode}
use snjs.User.Credentials.{
  CredentialsChange, perform_credentials_change, roll_back_keys, perform_protocol_upgrade,
}
use snjs.User.Settled.{IsSettled, register-IsSettled}
use snjs.User.SignedIn.{IsOutcome, sign_in-IsOutcome}
use snjs.User.Dialogs.{dialogs_dismissed}
use snjs.User.Upgraded.{IsReturned}
use snjs.User.Holds.{Holds}
use snjs.User.Change.{IsChanged, change-IsChanged}

abbrev offline_throws : List Call → Option String
offline_throws [] = none
offline_throws (c ∷ cs) = some "Offline"

abbrev offline : World
offline = record { throws = offline_throws; has_error = λ cs. false }

abbrev refusing : World
refusing = record { throws = λ cs. none; has_error = λ cs. true }

abbrev fresh : UserService
fresh = record {
  signing_in = false;
  registering = false;
  sync_locked = false;
  open_dialogs = 0;
  root_key = 1;
  items_key = 7;
  calls = [];
}

abbrev change : CredentialsChange
change = record {
  canceled = false;
  new_password_length = some 12;
  validate_new_password_strength = true;
  minimum_length = 8;
  password_valid = true;
  current_root_key = 1;
  new_root_key = 2;
  new_items_key = 8;
  never_synced = true;
}

-- Every response has an error but that of the first change.
abbrev only_first : List Call → Bool
only_first [] = false
only_first (c ∷ []) = false
only_first (c ∷ d ∷ []) = false
only_first (c ∷ d ∷ e ∷ []) = false
only_first (c ∷ d ∷ e ∷ f ∷ []) = false
only_first (c ∷ d ∷ e ∷ f ∷ cs) = true

abbrev one_change : World
one_change = record { throws = λ cs. none; has_error = only_first }

registered :
    (let (r, s') = register offline false true true fresh in
      (r ≡ throw "Offline") × (s'.sync_locked ≡ false))
unfolding register
registered = (refl, refl)

-- The answer of the way back is an error, and the account has the new password.
stranded_keys :
    (let (r, s') = perform_credentials_change one_change change fresh in
      (r ≡ ok (some "Failed")) × (s'.root_key ≡ 2) × (s'.items_key ≡ 7))
unfolding perform_credentials_change roll_back_keys
stranded_keys = (refl, refl, refl)

signed_in_refused :
    (let (r, s') = sign_in refusing false true true true fresh in
      (r ≡ ok true) × (s'.sync_locked ≡ false))
unfolding sign_in
signed_in_refused = (refl, refl)

register-IsSettled_example :
    (let (r, s') = register offline false true true fresh in IsSettled offline false fresh r s')
register-IsSettled_example = register-IsSettled offline false true true fresh

sign_in-IsOutcome_example :
    (let (r, s') = sign_in offline false true true true fresh in IsOutcome offline [] r s')
sign_in-IsOutcome_example = sign_in-IsOutcome offline true true true fresh refl

change-IsChanged_example :
    Holds one_change (IsChanged change fresh) (perform_credentials_change one_change change fresh)
change-IsChanged_example = change-IsChanged one_change change fresh refl

dialogs_dismissed_example :
    ((add_passcode offline 4 true fresh).1.open_dialogs ≡ 0)
    × ((remove_passcode offline true fresh).1.open_dialogs ≡ 0)
    × ((change_passcode offline 4 true fresh).1.open_dialogs ≡ 0)
    × (let (r, s') = perform_protocol_upgrade offline true true true change fresh in
        (s'.open_dialogs ≡ 0) × IsReturned offline fresh r s')
dialogs_dismissed_example = dialogs_dismissed offline 4 true true true true change fresh
