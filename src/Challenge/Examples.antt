-- ===== src/Challenge/Examples.antt =====
-- A challenge for a passcode and a biometric test.
use snjs.Prelude.{
  ◌≤◌, ◌≡◌, refl, Bool, true, false, none, some, List, [], ◌∷◌, ◌==◌, arith, ok, if◌then◌else◌, not,
  ◌&&◌, ap, str_eq, eq_iff, ==_iff,
}
use snjs.Challenge.Operation.{
  local_passcode, biometric, RawValue, text, boolean, Challenge, ChallengePrompt, ChallengeValue,
  ChallengeResponse, is_same_validation, code, number, new, complete, set_value_status, on_complete,
}
use snjs.Challenge.Service.{ChallengeService, cancel_challenge, complete_challenge}
use snjs.Challenge.Counts.{RemovesOne, count, is_of, asks_for, same_kind}
use snjs.Challenge.Finished.{completed-IsCovered, Status, status, statuses}
use snjs.Challenge.Ended.{HasEnded, ended-HasEnded, response_of}

abbrev passcode : ChallengePrompt
passcode = record { id = 1; validation = local_passcode; validates = true }

abbrev touch : ChallengePrompt
touch = record { id = 2; validation = biometric; validates = true }

abbrev unlock : Challenge
unlock = record { id = 9; prompts = passcode ∷ touch ∷ [] }

abbrev wrong : ChallengeValue
wrong = record { prompt = passcode; value = text "wrong" }

abbrev typed : ChallengeValue
typed = record { prompt = passcode; value = text "right" }

abbrev touched : ChallengeValue
touched = record { prompt = touch; value = boolean true }

abbrev raw_equal : RawValue → RawValue → Bool
raw_equal (text a) (text b) = str_eq a b
raw_equal (number a) (number b) = a == b
raw_equal (boolean true) (boolean b) = b
raw_equal (boolean false) (boolean b) = not b
raw_equal _ _ = false

raw_equal_refl : (a : RawValue) → raw_equal a a ≡ true
raw_equal_refl (text a) = ground (arith, eq_iff a a)
raw_equal_refl (number a) = ground (arith, ==_iff a a)
raw_equal_refl (boolean true) = refl
raw_equal_refl (boolean false) = refl

raw_equal_lem : (a b : RawValue) → raw_equal a b ≡ true → a ≡ b
raw_equal_lem (text a) (text b) h = ap text ((eq_iff a b).0 h)
raw_equal_lem (number a) (number b) h = ap number ((==_iff a b).0 h)
raw_equal_lem (boolean true) (boolean true) h = refl
raw_equal_lem (boolean false) (boolean false) h = refl
raw_equal_lem a b h = ground arith

abbrev bools_equal : Bool → Bool → Bool
bools_equal true b = b
bools_equal false b = not b

bools_equal_refl : (a : Bool) → bools_equal a a ≡ true
bools_equal_refl a = ground arith

bools_equal_lem : (a b : Bool) → bools_equal a b ≡ true → a ≡ b
bools_equal_lem a b h = ground arith

-- Values are the same when all that they hold is.
abbrev equal : ChallengeValue → ChallengeValue → Bool
equal a b =
    a.prompt.id == b.prompt.id
    && is_same_validation a.prompt.validation b.prompt.validation
    && bools_equal a.prompt.validates b.prompt.validates
    && raw_equal a.value b.value

equal_refl : (a : ChallengeValue) → equal a a ≡ true
equal_refl a = ground (
  arith,
  ==_iff a.prompt.id a.prompt.id,
  ==_iff (code a.prompt.validation) (code a.prompt.validation),
  bools_equal_refl a.prompt.validates,
  raw_equal_refl a.value,
)

equal_lem : (a b : ChallengeValue) → equal a b ≡ true → a ≡ b
equal_lem a b h = ground (
  arith,
  ==_iff a.prompt.id b.prompt.id,
  same_kind a.prompt.validation b.prompt.validation,
  bools_equal_lem a.prompt.validates b.prompt.validates,
  raw_equal_lem a.value b.value,
)

abbrev without : List ChallengeValue → ChallengeValue → List ChallengeValue
without [] a = []
without (x ∷ xs) a = if equal x a then xs else x ∷ without xs a

without-RemovesOne : RemovesOne without
without-RemovesOne test counted [] v h = ground arith
without-RemovesOne test counted (x ∷ xs) v h =
    ground (arith, equal_refl x, equal_lem x v, without-RemovesOne test counted xs v)

abbrev service : ChallengeService
service = record {
  challenge_operations = λ id. if id == 9 then some (new unlock 4) else none;
  challenge_observers = λ id. none;
  next_promise = 5;
  sent = unlock ∷ [];
  resolved = [];
  notified = [];
}

ended-HasEnded_example :
    ((s' : ChallengeService) × (cancel_challenge unlock service ≡ ok s')
      × HasEnded without
          (λ v. (true, []))
          (λ v. (false, []))
          (λ v. true)
          unlock
          (new unlock 4)
          none
          service
          s')
    × ((s' : ChallengeService) × (complete_challenge unlock service ≡ ok s')
        × HasEnded without
            (λ v. (true, []))
            (λ v. (false, []))
            (λ v. true)
            unlock
            (new unlock 4)
            (some (response_of (new unlock 4)))
            service
            s')
ended-HasEnded_example =
    ended-HasEnded without (λ v. (true, [])) (λ v. (false, [])) (λ v. true) unlock (new unlock 4)
      service refl refl

abbrev statuses_before : List Status
statuses_before =
    record { value = wrong; valid = false; artifacts = [] }
    ∷ record { value = typed; valid = true; artifacts = "wrappingKey" ∷ [] }
    ∷ []

abbrev unlocked : ChallengeResponse
unlocked = record {
  challenge = unlock;
  values = typed ∷ touched ∷ [];
  artifacts = "wrappingKey" ∷ [];
}

completes :
    (status without
      (record { value = touched; valid = true; artifacts = [] })
      (statuses without statuses_before (new unlock 4))).1
    ≡ on_complete unlocked
unfolding set_value_status complete
completes = refl

completed-IsCovered_example :
    (count (is_of local_passcode) unlocked.values ≡ count (asks_for local_passcode) unlock.prompts)
    × (count (is_of local_passcode) unlocked.values ≤ 1)
completed-IsCovered_example =
    completed-IsCovered without without-RemovesOne unlock 4 statuses_before
      (record { value = touched; valid = true; artifacts = [] }) unlocked
      (omega arith, (omega arith, tt)) (omega arith) completes local_passcode
