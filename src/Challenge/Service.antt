-- ===== src/Challenge/Service.antt =====
-- ChallengeService.ts. `resolved` logs the calls that resolve promises: a promise keeps the first.
-- `notified` logs what the observers are called with. A call on a challenge with no operation throws. What a
-- call that throws leaves behind is not modelled.
use snjs.Prelude.{
  ℕ, suc, String, Bool, false, not, Option, none, some, List, [], ◌∷◌, ◌++◌, map, ◌==◌, or_else,
  is_empty, if◌then◌else◌, Result, ok, throw, ◌>>=◌,
}
use snjs.Challenge.Operation.{
  unvalidated, local_passcode, account_password, biometric, protection_session_duration, RawValue,
  boolean, Challenge, ChallengeValue, ChallengeResponse, ChallengeOperation, Callback,
  on_valid_value, on_invalid_value, on_nonvalidated_submit, on_complete, on_cancel, new, complete,
  is_finished, add_nonvalidated_value, set_value_status,
}

pub record ChallengeService : Type 0 where
  pub challenge_operations : ℕ → Option ChallengeOperation
  pub challenge_observers : ℕ → Option (List ℕ)
  pub next_promise : ℕ
  pub sent : List Challenge
  pub resolved : List (ℕ × Option ChallengeResponse)
  pub notified : List (ℕ × Callback)

abbrev pub update {ℓ} : {A : Type ℓ} → ℕ → Option A → (ℕ → Option A) → ℕ → Option A
update key value map j = if key == j then value else map j

unfoldable pub perform_on_observers : ℕ → Callback → ChallengeService → ChallengeService
perform_on_observers id callback s = record s {
  notified = s.notified ++ map (λ o. (o, callback)) (or_else (s.challenge_observers id) []);
}

abbrev pub resolution : ℕ → Callback → List (ℕ × Option ChallengeResponse)
resolution promise (on_valid_value v) = []
resolution promise (on_invalid_value v) = []
resolution promise (on_nonvalidated_submit r) = (promise, some r) ∷ []
resolution promise (on_complete r) = (promise, some r) ∷ []
resolution promise on_cancel = (promise, none) ∷ []

-- The callbacks that `createOrGetChallengeOperation` gives to an operation.
unfoldable pub perform : ChallengeOperation → Callback → ChallengeService → ChallengeService
unfolding perform_on_observers
perform op callback s =
    let s' = perform_on_observers op.challenge.id callback s in
    record s' { resolved = s'.resolved ++ resolution op.resolves callback }

-- `promptForChallengeResponse`: the promise of an operation that is there already is not linked.
unfoldable pub prompt_for_challenge_response : Challenge → ChallengeService → ℕ × ChallengeService
prompt_for_challenge_response challenge s =
    let operation = or_else (s.challenge_operations challenge.id) (new challenge s.next_promise) in
    (
      s.next_promise,
      record s {
        challenge_operations = update challenge.id (some operation) s.challenge_operations;
        next_promise = suc s.next_promise;
        sent = s.sent ++ challenge ∷ [];
      },
    )

unfoldable pub add_challenge_observer : Challenge → ℕ → ChallengeService → ChallengeService
add_challenge_observer challenge observer s = record s {
  challenge_observers =
      update challenge.id (some (or_else (s.challenge_observers challenge.id) [] ++ observer ∷ []))
        s.challenge_observers;
}

unfoldable pub delete_challenge_operation : ChallengeOperation → ChallengeService → ChallengeService
delete_challenge_operation op s = record s {
  challenge_operations = update op.challenge.id none s.challenge_operations;
}

abbrev pub on_operation :
    Option ChallengeOperation
    → (ChallengeOperation → Result ChallengeService)
    → Result ChallengeService
on_operation none f = throw "operation of undefined"
on_operation (some op) f = f op

-- The operation of a challenge, where the code reads it without a test.
abbrev pub with_operation :
    Challenge
    → (ChallengeOperation → Result ChallengeService)
    → ChallengeService
    → Result ChallengeService
with_operation challenge f s = on_operation (s.challenge_operations challenge.id) f

unfoldable pub cancel_challenge : Challenge → ChallengeService → Result ChallengeService
unfolding perform delete_challenge_operation
cancel_challenge challenge s =
    with_operation challenge (λ op. ok (delete_challenge_operation op (perform op on_cancel s))) s

unfoldable pub complete_challenge : Challenge → ChallengeService → Result ChallengeService
unfolding perform delete_challenge_operation complete
complete_challenge challenge s =
    with_operation challenge (λ op. ok (delete_challenge_operation op (perform op (complete op) s)))
      s

abbrev store_operation : ChallengeOperation → ChallengeService → ChallengeService
store_operation op s = record s {
  challenge_operations = update op.challenge.id (some op) s.challenge_operations;
}

-- What follows once an operation is finished: it goes, and so do the observers, which have to be
-- there.
unfoldable pub end_operation :
    Challenge → ChallengeOperation → ChallengeService → Result ChallengeService
unfolding delete_challenge_operation
end_operation challenge op s =
    let s' = delete_challenge_operation op s in
    elim (s'.challenge_observers challenge.id) [
      | none ↦ throw "forEach of undefined"
      | some observers ↦
          ok (record s' { challenge_observers = update challenge.id none s'.challenge_observers })
    ]

module _ (remove_from_array : List ChallengeValue → ChallengeValue → List ChallengeValue)
    (validate_passcode validate_account_password : RawValue → Bool × List String)
    (is_valid_protection_session_length : RawValue → Bool) where
  abbrev is_true : RawValue → Bool
  is_true (boolean b) = b
  is_true _ = false

  unfoldable pub validate_challenge_value : ChallengeValue → Result (Bool × List String)
  validate_challenge_value value = elim value.prompt.validation [
    | local_passcode ↦ ok (validate_passcode value.value)
    | account_password ↦ ok (validate_account_password value.value)
    | biometric ↦ ok (is_true value.value, [])
    | protection_session_duration ↦ ok (is_valid_protection_session_length value.value, [])
    | unvalidated ↦ throw "Unhandled validation mode"
  ]

  unfoldable pub set_validation_status_for_challenge :
      Challenge → ChallengeValue → Bool → List String → ChallengeService → Result ChallengeService
  unfolding set_value_status perform end_operation
  set_validation_status_for_challenge challenge value valid artifacts s =
      with_operation challenge
        (λ op.
          let (op', callback) = set_value_status remove_from_array value valid artifacts op in
          let s' = perform op' callback (store_operation op' s) in
          if is_finished op' then end_operation challenge op' s' else ok s')
        s

  abbrev perform_some : ChallengeOperation → Option Callback → ChallengeService → ChallengeService
  perform_some op none s = s
  perform_some op (some callback) s = perform op callback s

  -- One round of `submitValuesForChallenge`.
  unfoldable pub submit_value :
      Challenge → ChallengeValue → ChallengeService → Result ChallengeService
  unfolding add_nonvalidated_value validate_challenge_value set_validation_status_for_challenge
  submit_value challenge value s =
      if not value.prompt.validates
      then with_operation challenge
          (λ op.
            let (op', callback) = add_nonvalidated_value remove_from_array value op in
            ok (perform_some op' callback (store_operation op' s)))
          s
      else (do
        (valid, artifacts) ← validate_challenge_value value
        set_validation_status_for_challenge challenge value valid artifacts s)

  unfoldable pub submit_from :
      Challenge → List ChallengeValue → ChallengeService → Result ChallengeService
  unfolding submit_value
  submit_from challenge [] s = ok s
  submit_from challenge (value ∷ values) s = do
    s' ← submit_value challenge value s
    submit_from challenge values s'

  unfoldable pub submit_values_for_challenge :
      Challenge → List ChallengeValue → ChallengeService → Result ChallengeService
  unfolding submit_from
  submit_values_for_challenge challenge values s =
      if is_empty values
      then throw "Attempting to submit 0 values for challenge"
      else submit_from challenge values s
