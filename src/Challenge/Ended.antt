-- ===== src/Challenge/Ended.antt =====
-- A challenge that was cancelled or completed has resolved its promise and is over.
use snjs.Prelude.{
  ℕ, ◌≡◌, refl, ap, String, Bool, false, not, Option, none, some, List, [], ◌∷◌, ◌++◌, ◌==◌, ==_iff,
  arith, Result, ok, throw, if_intro, ◌>>=◌,
}
use snjs.Challenge.Operation.{
  RawValue, Challenge, ChallengeValue, ChallengeResponse, ChallengeOperation, complete, on_cancel,
}
use snjs.Challenge.Service.{
  ChallengeService, cancel_challenge, complete_challenge, set_validation_status_for_challenge,
  submit_value, submit_from, submit_values_for_challenge, with_operation, on_operation, perform,
  perform_on_observers, delete_challenge_operation,
}

abbrev pub response_of : ChallengeOperation → ChallengeResponse
response_of op = record {
  challenge = op.challenge;
  values = op.valid_values;
  artifacts = op.artifacts;
}

module _ (remove_from_array : List ChallengeValue → ChallengeValue → List ChallengeValue)
    (validate_passcode validate_account_password : RawValue → Bool × List String)
    (is_valid_protection_session_length : RawValue → Bool) where
  -- The calls that need an operation of the challenge throw.
  pub record IsOver (c : Challenge) (s : ChallengeService) : Type 0 where
    pub cancel : cancel_challenge c s ≡ throw "operation of undefined"
    pub finish : complete_challenge c s ≡ throw "operation of undefined"
    pub status :
        (v : ChallengeValue) (valid : Bool) (artifacts : List String)
        → set_validation_status_for_challenge remove_from_array validate_passcode
            validate_account_password is_valid_protection_session_length c v valid artifacts s
          ≡ throw "operation of undefined"
    pub submit :
        (values : List ChallengeValue)
        → (e : String) × (submit_values_for_challenge remove_from_array validate_passcode
              validate_account_password is_valid_protection_session_length c values s
            ≡ throw e)

  with_none :
      (c : Challenge) (f : ChallengeOperation → Result ChallengeService) (s : ChallengeService)
      → s.challenge_operations c.id ≡ none
      → with_operation c f s ≡ throw "operation of undefined"
  with_none c f s gone = ap (λ o. on_operation o f) gone

  with_some :
      (c : Challenge) (op : ChallengeOperation) (f : ChallengeOperation → Result ChallengeService)
      (s : ChallengeService)
      → s.challenge_operations c.id ≡ some op
      → with_operation c f s ≡ f op
  with_some c op f s there = ap (λ o. on_operation o f) there

  -- After the validation, which may throw as well, the status is set.
  validated_throws :
      (r : Result (Bool × List String)) (set : Bool → List String → Result ChallengeService)
      → ((valid : Bool) (artifacts : List String)
          → set valid artifacts ≡ throw "operation of undefined")
      → (e : String) × ((do (valid, artifacts) ← r; set valid artifacts) ≡ throw e)
  validated_throws (ok (valid, artifacts)) set throws = (_, throws valid artifacts)
  validated_throws (throw e) set throws = (e, refl)

  submit_value_throws :
      (c : Challenge) (v : ChallengeValue) (s : ChallengeService)
      → s.challenge_operations c.id ≡ none
      → (e : String) × (submit_value remove_from_array validate_passcode validate_account_password
            is_valid_protection_session_length c v s
          ≡ throw e)
  unfolding submit_value set_validation_status_for_challenge
  submit_value_throws c v s gone =
      if_intro (λ (r : Result ChallengeService). (e : String) × (r ≡ throw e))
        (not v.prompt.validates) _ _ (λ _. (_, with_none c _ s gone))
        (λ _. validated_throws _ _ (λ valid artifacts. with_none c _ s gone))

  next_throws :
      (r : Result ChallengeService) (f : ChallengeService → Result ChallengeService)
      → ((e : String) × (r ≡ throw e))
      → (e : String) × ((r >>= f) ≡ throw e)
  next_throws r f (e, throws) = (e, ap (λ q. q >>= f) throws)

  submit_throws :
      (c : Challenge) (values : List ChallengeValue) (s : ChallengeService)
      → s.challenge_operations c.id ≡ none
      → (e : String) × (submit_values_for_challenge remove_from_array validate_passcode
            validate_account_password is_valid_protection_session_length c values s
          ≡ throw e)
  unfolding submit_values_for_challenge submit_from
  submit_throws c [] s gone = (_, refl)
  submit_throws c (v ∷ values) s gone = next_throws _ _ (submit_value_throws c v s gone)

  over_lem :
      (c : Challenge) (s : ChallengeService) → s.challenge_operations c.id ≡ none → IsOver c s
  unfolding cancel_challenge complete_challenge set_validation_status_for_challenge
  over_lem c s gone = record {
    cancel = with_none c _ s gone;
    finish = with_none c _ s gone;
    status = λ v valid artifacts. with_none c _ s gone;
    submit = λ values. submit_throws c values s gone;
  }

  -- The service after an operation ended, and what its promise was resolved with.
  pub record HasEnded (c : Challenge) (op : ChallengeOperation) (answer : Option ChallengeResponse)
      (s s' : ChallengeService) : Type 0 where
    pub resolved : s'.resolved ≡ s.resolved ++ (op.resolves, answer) ∷ []
    pub over : IsOver c s'
    pub others :
        (id : ℕ) → (c.id == id) ≡ false → s'.challenge_operations id ≡ s.challenge_operations id

  update_same :
      (c : Challenge) (op : ChallengeOperation) (s : ChallengeService)
      → op.challenge ≡ c
      → (delete_challenge_operation op s).challenge_operations c.id ≡ none
  unfolding delete_challenge_operation
  update_same c op s same = ground (arith, ==_iff c.id c.id, ap (λ (d : Challenge). d.id) same)

  update_other :
      (c : Challenge) (op : ChallengeOperation) (s : ChallengeService) (id : ℕ)
      → op.challenge ≡ c
      → (c.id == id) ≡ false
      → (delete_challenge_operation op s).challenge_operations id ≡ s.challenge_operations id
  unfolding delete_challenge_operation
  update_other c op s id same other = ground (arith, ap (λ (d : Challenge). d.id) same)

  -- Where the challenge has an operation, cancelling it resolves the promise of the operation, once,
  -- with undefined, and completing it does so with the valid values. The operations of other
  -- challenges stay. In the state after either, to cancel or complete the challenge, to set the status of
  -- a value and to submit any values, or none, each throws.
  pub ended-HasEnded :
      (c : Challenge) (op : ChallengeOperation) (s : ChallengeService)
      → s.challenge_operations c.id ≡ some op
      → op.challenge ≡ c
      → ((s' : ChallengeService) × (cancel_challenge c s ≡ ok s') × HasEnded c op none s s')
        × ((s' : ChallengeService) × (complete_challenge c s ≡ ok s')
            × HasEnded c op (some (response_of op)) s s')
  unfolding cancel_challenge complete_challenge perform perform_on_observers
      delete_challenge_operation complete
  ended-HasEnded c op s there same = (
    (
      delete_challenge_operation op (perform op on_cancel s),
      with_some c op _ s there,
      record {
        resolved = refl;
        over = over_lem c _ (update_same c op (perform op on_cancel s) same);
        others = λ id. update_other c op (perform op on_cancel s) id same;
      },
    ),
    (
      delete_challenge_operation op (perform op (complete op) s),
      with_some c op _ s there,
      record {
        resolved = refl;
        over = over_lem c _ (update_same c op (perform op (complete op) s) same);
        others = λ id. update_other c op (perform op (complete op) s) id same;
      },
    ),
  )
