-- ===== src/Challenge/Counts.antt =====
-- How many values of each kind of validation a list holds.
use snjs.Prelude.{
  find_lem, ℕ, ◌+◌, ◌≤◌, ◌≡◌, refl, Bool, true, false, none, some, List, [], ◌∷◌, ◌++◌, length,
  ==_iff, find, arith, if◌then◌else◌, Option-cases, Bool-cases, ap, subst, inl, inr,
}
use snjs.Challenge.Operation.{
  Validation, unvalidated, local_passcode, account_password, biometric, protection_session_duration,
  code, is_same_validation, ChallengePrompt, ChallengeValue, replace, put_for, is_match,
}

abbrev pub bit : Bool → ℕ
bit true = 1
bit false = 0

abbrev pub count {ℓ} : {A : Type ℓ} → (A → Bool) → List A → ℕ
count test [] = 0
count test (x ∷ xs) = bit (test x) + count test xs

abbrev pub is_of : Validation → ChallengeValue → Bool
is_of kind v = is_same_validation v.prompt.validation kind

abbrev pub asks_for : Validation → ChallengePrompt → Bool
asks_for kind p = is_same_validation p.validation kind

count-append {ℓ} :
    {A : Type ℓ} (test : A → Bool) (xs ys : List A)
    → count test (xs ++ ys) ≡ count test xs + count test ys
count-append test [] ys = omega arith
count-append test (x ∷ xs) ys = omega (arith, count-append test xs ys)

one_kind :
    (k : Validation)
    → bit (is_same_validation k unvalidated)
        + bit (is_same_validation k local_passcode)
        + bit (is_same_validation k account_password)
        + bit (is_same_validation k biometric)
        + bit (is_same_validation k protection_session_duration)
      ≡ 1
one_kind unvalidated = refl
one_kind local_passcode = refl
one_kind account_password = refl
one_kind biometric = refl
one_kind protection_session_duration = refl

pub same_kind : (j k : Validation) → is_same_validation j k ≡ true → j ≡ k
same_kind j k same = ground arith

-- Each value is of exactly one kind.
pub length-counts :
    (vs : List ChallengeValue)
    → length vs
      ≡ count (is_of unvalidated) vs
        + count (is_of local_passcode) vs
        + count (is_of account_password) vs
        + count (is_of biometric) vs
        + count (is_of protection_session_duration) vs
length-counts [] = omega arith
length-counts (v ∷ vs) = omega (arith, one_kind v.prompt.validation, length-counts vs)

pub length-asked :
    (ps : List ChallengePrompt)
    → length ps
      ≡ count (asks_for unvalidated) ps
        + count (asks_for local_passcode) ps
        + count (asks_for account_password) ps
        + count (asks_for biometric) ps
        + count (asks_for protection_session_duration) ps
length-asked [] = omega arith
length-asked (p ∷ ps) = omega (arith, one_kind p.validation, length-asked ps)

absent_lem :
    (test : ChallengeValue → Bool) (vs : List ChallengeValue)
    → find test vs ≡ none
    → count test vs ≡ 0
absent_lem test [] h = refl
absent_lem test (v ∷ vs) h = ground (arith, absent_lem test vs)

module _ (remove_from_array : List ChallengeValue → ChallengeValue → List ChallengeValue) where
  -- Removing a value that was found takes out one value, and that one only.
  abbrev pub RemovesOne : Type 0
  RemovesOne =
      (test counted : ChallengeValue → Bool) (vs : List ChallengeValue) (v : ChallengeValue)
      → find test vs ≡ some v
      → count counted (remove_from_array vs v) + bit (counted v) ≡ count counted vs

  replaced_lem :
      RemovesOne
      → (value : ChallengeValue) (vs : List ChallengeValue) → count (is_match value) vs ≤ 1
      → count (is_match value) (replace remove_from_array (is_match value) value vs) ≡ 1
  replaced_lem removes value vs once = elim (Option-cases (find (is_match value) vs)) [
    | inl nothing ↦ rw (ap (λ o. put_for remove_from_array o value vs) nothing) (
        ground (
          arith,
          count-append (is_match value) vs (value ∷ []),
          absent_lem (is_match value) vs nothing,
          ==_iff (code value.prompt.validation) (code value.prompt.validation),
        ))
    | inr (v, there) ↦ rw (ap (λ o. put_for remove_from_array o value vs) there) (
        ground (
          arith,
          count-append (is_match value) (remove_from_array vs v) (value ∷ []),
          removes (is_match value) (is_match value) vs v there,
          find_lem (is_match value) vs v there,
          ==_iff (code value.prompt.validation) (code value.prompt.validation),
        ))
  ]

  others_lem :
      RemovesOne
      → (kind : Validation) (value : ChallengeValue) (vs : List ChallengeValue)
      → is_of kind value ≡ false
      → count (is_of kind) (replace remove_from_array (is_match value) value vs)
        ≡ count (is_of kind) vs
  others_lem removes kind value vs differs = elim (Option-cases (find (is_match value) vs)) [
    | inl nothing ↦
        rw (ap (λ o. put_for remove_from_array o value vs) nothing)
          (ground (arith, count-append (is_of kind) vs (value ∷ [])))
    | inr (v, there) ↦ rw (ap (λ o. put_for remove_from_array o value vs) there) (
        ground (
          arith,
          count-append (is_of kind) (remove_from_array vs v) (value ∷ []),
          removes (is_match value) (is_of kind) vs v there,
          find_lem (is_match value) vs v there,
          ==_iff (code v.prompt.validation) (code value.prompt.validation),
        ))
  ]

  -- After a value was put in the place of one that matches, no other kind changed, and of its own
  -- kind there is one, if there was at most one before.
  pub count-replace :
      RemovesOne
      → (kind : Validation) (value : ChallengeValue) (vs : List ChallengeValue)
      → count (is_of kind) vs ≤ 1
      → count (is_of kind) (replace remove_from_array (is_match value) value vs)
        ≡ (if is_of kind value then 1 else count (is_of kind) vs)
  count-replace removes kind value vs once = elim (Bool-cases (is_of kind value)) [
    | inl same ↦
        subst
          (λ k.
            count (is_of k) vs ≤ 1
            → count (is_of k) (replace remove_from_array (is_match value) value vs)
              ≡ (if is_of k value then 1 else count (is_of k) vs))
          (same_kind value.prompt.validation kind same)
          (λ few.
            rw ((==_iff (code value.prompt.validation) (code value.prompt.validation)).1 refl)
              (replaced_lem removes value vs few))
          once
    | inr differs ↦ rw differs (others_lem removes kind value vs differs)
  ]
