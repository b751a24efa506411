-- ===== src/Challenge/Operation.antt =====
-- ChallengeOperation.ts, ChallengeResponse.ts and what Challenge.ts fixes. A call returns the operation
-- and what its callbacks are called with.
use snjs.Prelude.{
  ℕ, String, Bool, not, Option, none, some, List, [], ◌∷◌, ◌++◌, length, ◌==◌, filter, find,
  if◌then◌else◌, Result, ok, throw, ltb,
}

-- ChallengeValidation; `unvalidated` is None.
pub data Validation : Type 0 where
  unvalidated local_passcode account_password biometric protection_session_duration : Validation

abbrev pub code : Validation → ℕ
code unvalidated = 0
code local_passcode = 1
code account_password = 2
code biometric = 3
code protection_session_duration = 4

-- `a === b`
abbrev pub is_same_validation : Validation → Validation → Bool
is_same_validation a b = code a == code b

pub record ChallengePrompt : Type 0 where
  pub id : ℕ
  pub validation : Validation
  pub validates : Bool

pub data RawValue : Type 0 where
  text : String → RawValue
  number : ℕ → RawValue
  boolean : Bool → RawValue

pub record ChallengeValue : Type 0 where
  pub prompt : ChallengePrompt
  pub value : RawValue

pub record Challenge : Type 0 where
  pub id : ℕ
  pub prompts : List ChallengePrompt

-- The artifacts are the names of what was assigned.
pub record ChallengeResponse : Type 0 where
  pub challenge : Challenge
  pub values : List ChallengeValue
  pub artifacts : List String

unfoldable pub get_value_for_type : Validation → ChallengeResponse → Result ChallengeValue
get_value_for_type type r =
    elim (find (λ v. is_same_validation v.prompt.validation type) r.values) [
      | none ↦ throw "Could not find value for validation type"
      | some v ↦ ok v
    ]

abbrev pub first {ℓ} : {A : Type ℓ} → List A → Option A
first [] = none
first (x ∷ xs) = some x

unfoldable pub get_default_value : ChallengeResponse → Result (Option ChallengeValue)
get_default_value r =
    if ltb 1 (length r.values)
    then throw "Attempting to retrieve default response value when more than one value exists"
    else ok (first r.values)

pub record ChallengeOperation : Type 0 where
  pub challenge : Challenge
  pub nonvalidated_values : List ChallengeValue
  pub valid_values : List ChallengeValue
  pub invalid_values : List ChallengeValue
  pub artifacts : List String
  -- the promise that the callbacks resolve
  pub resolves : ℕ

-- Which callback is called, and with what.
pub data Callback : Type 0 where
  on_valid_value on_invalid_value : ChallengeValue → Callback
  on_nonvalidated_submit on_complete : ChallengeResponse → Callback
  on_cancel : Callback

abbrev pub new : Challenge → ℕ → ChallengeOperation
new challenge promise = record {
  challenge = challenge;
  nonvalidated_values = [];
  valid_values = [];
  invalid_values = [];
  artifacts = [];
  resolves = promise;
}

-- `complete` with no response given
unfoldable pub complete : ChallengeOperation → Callback
complete op =
    on_complete
      (record { challenge = op.challenge; values = op.valid_values; artifacts = op.artifacts })

unfoldable pub nonvalidated_submit : ChallengeOperation → ChallengeOperation × Callback
nonvalidated_submit op = (
  record op { nonvalidated_values = [] },
  on_nonvalidated_submit (record {
    challenge = op.challenge;
    values = op.nonvalidated_values;
    artifacts = op.artifacts;
  }),
)

abbrev pub is_finished : ChallengeOperation → Bool
is_finished op = length op.valid_values == length op.challenge.prompts

abbrev pub nonvalidated_prompts : ChallengeOperation → List ChallengePrompt
nonvalidated_prompts op = filter (λ p. not p.validates) op.challenge.prompts

abbrev pub is_match : ChallengeValue → ChallengeValue → Bool
is_match value v = is_same_validation v.prompt.validation value.prompt.validation

module _ (remove_from_array : List ChallengeValue → ChallengeValue → List ChallengeValue) where
  abbrev pub put_for :
      Option ChallengeValue → ChallengeValue → List ChallengeValue → List ChallengeValue
  put_for none value values = values ++ value ∷ []
  put_for (some matching) value values = remove_from_array values matching ++ value ∷ []

  -- A value takes the place of one that matches.
  abbrev pub replace :
      (ChallengeValue → Bool) → ChallengeValue → List ChallengeValue → List ChallengeValue
  replace matches value values = put_for (find matches values) value values

  unfoldable pub add_nonvalidated_value :
      ChallengeValue → ChallengeOperation → ChallengeOperation × Option Callback
  unfolding nonvalidated_submit
  add_nonvalidated_value value op =
      let op' : ChallengeOperation = record op {
        nonvalidated_values =
            replace (λ v. v.prompt.id == value.prompt.id) value op.nonvalidated_values;
      } in
      if length op'.nonvalidated_values == length (nonvalidated_prompts op')
      then (let (op'', callback) = nonvalidated_submit op' in (op'', some callback))
      else (op', none)

  unfoldable pub set_value_status :
      ChallengeValue → Bool → List String → ChallengeOperation → ChallengeOperation × Callback
  unfolding complete
  set_value_status value valid artifacts op =
      let op' : ChallengeOperation = record op {
        valid_values =
            if valid then replace (is_match value) value op.valid_values else op.valid_values;
        invalid_values =
            if valid then op.invalid_values else replace (is_match value) value op.invalid_values;
        artifacts = op.artifacts ++ artifacts;
      } in
      (
        op',
        if is_finished op'
            then complete op'
            else if valid
            then on_valid_value value
            else on_invalid_value value,
      )
