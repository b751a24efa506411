-- ===== src/Protection/Session.antt =====
-- What a challenge asks for, and what clearing the session does.
use snjs.Prelude.{
  ℕ, ◌≤◌, ◌≡◌, Bool, true, false, not, ◌&&◌, ◌||◌, none, some, List, [], ◌∷◌, ◌++◌, arith, is_empty,
  ok, any,
}
use snjs.Protection.{
  Protection, Env, Options, ChallengePrompt, ChallengeValue, Validation, biometric, local_passcode,
  account_password, protection_session_duration, default_options, validate_or_renew_session,
  has_unprotected_access_session, has_protection_sources, accept, factors, session_length_prompt,
  get_session_expiry_date, clear_session, disable_biometrics,
}

-- Clearing the session closes protected items at once: from the time it is cleared, if there is an
-- account, a passcode or biometrics.
pub clear_session-locks :
    (env : Env) (s : Protection) (now : ℕ)
    → now ≤ env.now
    → has_protection_sources env (clear_session now s) ≡ true
    → has_unprotected_access_session env (clear_session now s) ≡ false
unfolding has_unprotected_access_session clear_session
clear_session-locks env s now h sources = ground arith

same : Validation → Validation → Bool
same biometric biometric = true
same local_passcode local_passcode = true
same account_password account_password = true
same protection_session_duration protection_session_duration = true
same _ _ = false

-- Whether some prompt asks for a validation.
pub asks : Validation → List ChallengePrompt → Bool
unfolding same
asks v prompts = any (λ p. same v p.validation) prompts

-- A challenge asks for biometrics exactly if they are enabled, for the passcode exactly if there is
-- one, and for the account password exactly if it is required or if there is nothing else to ask
-- for, falling back is allowed and there is an account.
pub factors_lem :
    (env : Env) (options : Options) (s : Protection)
    → (asks biometric (factors env options s) ≡ s.biometrics_state)
      × (asks local_passcode (factors env options s) ≡ env.has_passcode)
      × (asks account_password (factors env options s) ≡ (
          options.require_account_password
          || not s.biometrics_state
            && not env.has_passcode
            && options.fall_back_to_account_password
            && env.has_account))
unfolding asks factors
factors_lem env options s = ground arith

factors-ne-nil :
    (env : Env) (options : Options) (s : Protection)
    → s.biometrics_state ≡ true
    → is_empty (factors env options s) ≡ false
unfolding factors
factors-ne-nil env options s enabled = ground arith

-- While biometrics are enabled and no session is live, turning them off asks the user for at least
-- one factor: if every challenge is cancelled nothing changes, and an answer to the challenge turns
-- them off and begins the session that the answer chooses.
pub disable_biometrics_asks :
    (env : Env) (s : Protection)
    → s.biometrics_state ≡ true
    → get_session_expiry_date env.now s ≤ env.now
    → (env.respond (factors env default_options s ++ session_length_prompt s ∷ []) ≡ none
        → disable_biometrics env s ≡ ok (false, s))
      × ((values : List ChallengeValue)
          → env.respond (factors env default_options s ++ session_length_prompt s ∷ [])
            ≡ some values
          → disable_biometrics env s
            ≡ ok (true, record (accept env values s) { biometrics_state = false }))
unfolding disable_biometrics validate_or_renew_session
disable_biometrics_asks env s enabled expired =
    let some_factor = factors-ne-nil env default_options s enabled in
    (λ none_given. ground arith, λ values given. ground arith)
