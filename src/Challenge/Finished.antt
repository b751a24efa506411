-- ===== src/Challenge/Finished.antt =====
-- An operation that completes by validation has a valid value for each of its prompts.
use snjs.Prelude.{
  ℕ, ◌≤◌, ◌≡◌, refl, ◌∙◌, ap, subst, Bool, true, String, List, [], ◌∷◌, length, ==_iff, arith, All,
}
use snjs.Challenge.Operation.{
  Validation, unvalidated, local_passcode, account_password, biometric, protection_session_duration,
  Challenge, ChallengeValue, ChallengeResponse, ChallengeOperation, Callback, on_complete, new,
  is_finished, complete, set_value_status,
}
use snjs.Challenge.Counts.{
  count, is_of, asks_for, RemovesOne, count-replace, length-counts, length-asked, same_kind,
}

-- A value with the outcome of its validation.
pub record Status : Type 0 where
  pub value : ChallengeValue
  pub valid : Bool
  pub artifacts : List String

-- Some prompt of the challenge asks for the value's kind.
abbrev pub IsAsked : Challenge → ChallengeValue → Type 0
IsAsked c v = 1 ≤ count (asks_for v.prompt.validation) c.prompts

-- No kind has more than one valid value, nor more than its prompts ask for.
record IsFair (op : ChallengeOperation) : Type 0 where
  once : (kind : Validation) → count (is_of kind) op.valid_values ≤ 1
  asked :
      (kind : Validation)
      → count (is_of kind) op.valid_values ≤ count (asks_for kind) op.challenge.prompts

new-IsFair : (c : Challenge) (promise : ℕ) → IsFair (new c promise)
new-IsFair c promise = record { once = λ k. omega arith; asked = λ k. omega arith }

all_equal :
    (op : ChallengeOperation)
    → IsFair op
    → is_finished op ≡ true
    → (let held = λ (k : Validation). count (is_of k) op.valid_values in
        let prompted = λ (k : Validation). count (asks_for k) op.challenge.prompts in
        (held unvalidated ≡ prompted unvalidated)
        × (held local_passcode ≡ prompted local_passcode)
        × (held account_password ≡ prompted account_password)
        × (held biometric ≡ prompted biometric)
        × (held protection_session_duration ≡ prompted protection_session_duration))
all_equal op f done = omega (
  arith,
  (==_iff (length op.valid_values) (length op.challenge.prompts)).0 done,
  length-counts op.valid_values,
  length-asked op.challenge.prompts,
  f.asked unvalidated,
  f.asked local_passcode,
  f.asked account_password,
  f.asked biometric,
  f.asked protection_session_duration,
)

finished_lem :
    (op : ChallengeOperation)
    → IsFair op
    → is_finished op ≡ true
    → (kind : Validation)
    → count (is_of kind) op.valid_values ≡ count (asks_for kind) op.challenge.prompts
finished_lem op f done unvalidated = (all_equal op f done).0
finished_lem op f done local_passcode = (all_equal op f done).1
finished_lem op f done account_password = (all_equal op f done).2
finished_lem op f done biometric = (all_equal op f done).3
finished_lem op f done protection_session_duration = (all_equal op f done).4

module _ (remove_from_array : List ChallengeValue → ChallengeValue → List ChallengeValue) where
  abbrev pub status : Status → ChallengeOperation → ChallengeOperation × Callback
  status u op = set_value_status remove_from_array u.value u.valid u.artifacts op

  abbrev pub statuses : List Status → ChallengeOperation → ChallengeOperation
  statuses [] op = op
  statuses (u ∷ us) op = statuses us (status u op).0

  challenge-status :
      (u : Status) (op : ChallengeOperation) → (status u op).0.challenge ≡ op.challenge
  unfolding set_value_status
  challenge-status u op = refl

  asked_kind :
      (k : Validation) (c : Challenge) (v : ChallengeValue)
      → IsAsked c v
      → is_of k v ≡ true
      → 1 ≤ count (asks_for k) c.prompts
  asked_kind k c v is_asked same =
      subst (λ j. 1 ≤ count (asks_for j) c.prompts) (same_kind v.prompt.validation k same) is_asked

  module _ (removes : RemovesOne remove_from_array) where
    status-IsFair :
        (u : Status) (op : ChallengeOperation)
        → IsAsked op.challenge u.value
        → IsFair op
        → IsFair (status u op).0
    unfolding set_value_status
    status-IsFair u op is_asked f = record {
      once = λ k.
          ground
            (arith, count-replace remove_from_array removes k u.value op.valid_values, f.once k);
      asked = λ k. ground (
        arith,
        count-replace remove_from_array removes k u.value op.valid_values,
        asked_kind k op.challenge u.value is_asked,
        f.once k,
        f.asked k,
      );
    }

    statuses-IsFair :
        (us : List Status) (op : ChallengeOperation)
        → All (λ u. IsAsked op.challenge u.value) us
        → IsFair op
        → IsFair (statuses us op) × ((statuses us op).challenge ≡ op.challenge)
    unfolding set_value_status
    statuses-IsFair [] op all_asked f = (f, refl)
    statuses-IsFair (u ∷ us) op all_asked f =
        statuses-IsFair us (status u op).0 all_asked.1 (status-IsFair u op all_asked.0 f)

    completed_lem :
        (u : Status) (op : ChallengeOperation) (r : ChallengeResponse)
        → (status u op).1 ≡ on_complete r
        → (is_finished (status u op).0 ≡ true) × (r.values ≡ (status u op).0.valid_values)
    unfolding set_value_status complete
    completed_lem u op r completed = ground arith

    -- Where removing takes out one value: whatever statuses are set on an operation for values that
    -- its challenge asks for, if one of them completes it, then the response holds, of each kind of
    -- validation, exactly as many valid values as the challenge has prompts of that kind, so that
    -- each prompt is answered, and never two of one kind.
    pub completed-IsCovered :
        (c : Challenge) (promise : ℕ) (before : List Status) (u : Status) (r : ChallengeResponse)
        → All (λ w. IsAsked c w.value) before
        → IsAsked c u.value
        → (status u (statuses before (new c promise))).1 ≡ on_complete r
        → (kind : Validation)
        → (count (is_of kind) r.values ≡ count (asks_for kind) c.prompts)
          × (count (is_of kind) r.values ≤ 1)
    completed-IsCovered c promise before u r all_asked is_asked completed kind =
        let op = statuses before (new c promise) in
        let (f, same) = statuses-IsFair before (new c promise) all_asked (new-IsFair c promise) in
        let f' = status-IsFair u op (rw same is_asked) f in
        let (done, values) = completed_lem u op r completed in
        let prompts : (status u op).0.challenge ≡ c = challenge-status u op ∙ same in
        (
          ap (count (is_of kind)) values
              ∙ finished_lem (status u op).0 f' done kind
              ∙ ap (λ (d : Challenge). count (asks_for kind) d.prompts) prompts,
          rw values (f'.once kind),
        )
