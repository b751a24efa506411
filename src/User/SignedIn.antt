-- ===== src/User/SignedIn.antt =====
-- What signing in leaves.
use snjs.Prelude.{
  ◌≡◌, refl, String, Bool, true, false, Option, none, some, List, [], ◌∷◌, ◌++◌, Result, ok, throw,
  arith,
}
use snjs.User.Calls.{Call, UserService, World, log}
use snjs.User.Account.{sign_in, sign_in_body, signed_in, merge_or_clear_at_sign_in, first_download}

module _ (w : World) where
  signed_in_lem :
      (has_error ephemeral merge_local await_sync : Bool) (s : UserService)
      → (let (r, s') = signed_in w has_error ephemeral merge_local await_sync s in
          r ≡ ok tt → s'.sync_locked ≡ false)
  unfolding signed_in merge_or_clear_at_sign_in first_download
  signed_in_lem has_error ephemeral merge_local await_sync s = ground arith

  -- `s` is the service before the session manager is called.
  body_lem :
      (ephemeral merge_local await_sync : Bool) (s : UserService)
      → (let (r, s') = sign_in_body w ephemeral merge_local await_sync s in
          (a : Bool) → r ≡ ok a → s'.sync_locked ≡ false)
  unfolding sign_in_body
  body_lem ephemeral merge_local await_sync s a done =
      let asked = log Call.session_sign_in (record s { sync_locked = true }) in
      ground (arith, signed_in_lem (w.has_error asked.calls) ephemeral merge_local await_sync asked)

  thrown_lem :
      (ephemeral merge_local await_sync : Bool) (s : UserService) (e : String)
      → w.throws (s.calls ++ Call.session_sign_in ∷ []) ≡ some e
      → (let (r, s') = sign_in_body w ephemeral merge_local await_sync s in
          (r ≡ throw e) × (s'.sync_locked ≡ true))
  unfolding sign_in_body
  thrown_lem ephemeral merge_local await_sync s e thrown = ground arith

  -- What a sign-in that was let in at `calls` gives, and the service after it.
  pub data IsOutcome (calls : List Call) (r : Result Bool) (s' : UserService) : Type 0 where
    answered :
        (has_error : Bool)
        → r ≡ ok has_error
        → s'.signing_in ≡ false
        → s'.sync_locked ≡ false
        → IsOutcome calls r s'
    rejected :
        (e : String)
        → w.throws (calls ++ Call.session_sign_in ∷ []) ≡ some e
        → r ≡ throw e
        → s'.signing_in ≡ false
        → s'.sync_locked ≡ true
        → IsOutcome calls r s'
    interrupted :
        (e : String)
        → w.throws (calls ++ Call.session_sign_in ∷ []) ≡ none
        → r ≡ throw e
        → s'.signing_in ≡ false
        → IsOutcome calls r s'

  -- Where there is no account and no other sign-in runs, the service is afterwards free to sign in
  -- again, whatever fails. If the sign-in returns, with or without an error of the server, syncing is
  -- unlocked. If the session manager throws, the error is passed on, but syncing stays locked.
  pub sign_in-IsOutcome :
      (ephemeral merge_local await_sync : Bool) (s : UserService)
      → s.signing_in ≡ false
      → (let (r, s') = sign_in w false ephemeral merge_local await_sync s in IsOutcome s.calls r s')
  unfolding sign_in sign_in_body
  sign_in-IsOutcome ephemeral merge_local await_sync s free =
      rw free (go (w.throws (s.calls ++ Call.session_sign_in ∷ [])) refl)
    where
      busy : UserService
      busy = record s { signing_in = true }

      after :
          (x : Result Bool × UserService)
          → w.throws (s.calls ++ Call.session_sign_in ∷ []) ≡ none
          → ((a : Bool) → x.0 ≡ ok a → x.1.sync_locked ≡ false)
          → IsOutcome s.calls x.0 (record x.1 { signing_in = false })
      after (ok a, s') eq unlocked = IsOutcome.answered a refl refl (unlocked a refl)
      after (throw e, s') eq unlocked = IsOutcome.interrupted e eq refl refl

      go :
          (o : Option String)
          → w.throws (s.calls ++ Call.session_sign_in ∷ []) ≡ o
          → (let (r, s') = sign_in_body w ephemeral merge_local await_sync busy in
              IsOutcome s.calls r (record s' { signing_in = false }))
      go none eq =
          after (sign_in_body w ephemeral merge_local await_sync busy) eq
            (body_lem ephemeral merge_local await_sync busy)
      go (some e) eq =
          let thrown = thrown_lem ephemeral merge_local await_sync busy e eq in
          IsOutcome.rejected e eq thrown.0 refl thrown.1
