-- ===== src/Protection/Examples.antt =====
-- A user with a passcode and biometrics.
use snjs.Prelude.{◌+◌, ◌*◌, ◌≡◌, true, false, none, some, List, [], ◌∷◌, ok}
use snjs.Protection.{Protection, Env}
use snjs.Protection.Items.{
  Item, Loop, IsAuthorized, authorize_protected_action_for_items, authorize_items-IsAuthorized,
}

abbrev locked : Protection
locked = record {
  biometrics_state = true;
  protection_expiry = some 100;
  protection_session_length = none;
  session_expiry_timeout = none;
  events = [];
}

abbrev refusing : Env
refusing = record {
  now = 500;
  has_account = true;
  has_passcode = true;
  in_seconds = λ n. 500 + 1000 * n;
  respond = λ ps. none;
}

abbrev items : List (Item × Env)
items =
    (record { id = 1; is_protected = false }, refusing)
    ∷ (record { id = 2; is_protected = true }, refusing)
    ∷ (record { id = 3; is_protected = true }, refusing)
    ∷ []

authorize_items-IsAuthorized_example :
    (l : Loop) × (authorize_protected_action_for_items locked items ≡ ok l)
    × IsAuthorized locked items l
authorize_items-IsAuthorized_example = authorize_items-IsAuthorized locked items
