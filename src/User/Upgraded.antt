-- ===== src/User/Upgraded.antt =====
-- The upgrade of the protocol throws nothing once its dialog is shown.
use snjs.Prelude.{
  ◌≡◌, refl, ap, ◌+◌, if◌then◌else◌, String, Bool, true, false, not, Option, none, some, Result, ok,
  throw, [], ◌∷◌, ◌++◌,
}
use snjs.User.Calls.{
  Call, UserService, World, Action, ◌>>=◌, ◌>>◌, run_next, outcome, log, modify, finally, pure,
  request,
}
use snjs.User.Passcode.{blocking_dialog, dismiss_blocking_dialog}
use snjs.User.Credentials.{
  CredentialsChange, perform_protocol_upgrade, caught, upgrade_passcode, upgrade_account,
  unless_error, Upgrade,
}

-- How the upgrade of the protocol may end, with what result.
pub data IsReturned (w : World) (s : UserService) : Result Upgrade → UserService → Type 0 where
  returned : (u : Upgrade) (s' : UserService) → IsReturned w s (ok u) s'
  not_prompted :
      (e : String) (s' : UserService)
      → s'.calls ≡ s.calls ++ Call.prompt_for_challenge_response ∷ []
      → w.throws s'.calls ≡ some e
      → IsReturned w s (throw e) s'
  not_shown :
      (e : String) (s' : UserService)
      → s'.calls ≡ (s.calls ++ Call.prompt_for_challenge_response ∷ []) ++ Call.blocking_dialog ∷ []
      → w.throws s'.calls ≡ some e
      → IsReturned w s (throw e) s'

module _ (w : World) where
  -- Either the call throws, or what follows it ends so.
  request_lem :
      (P : Result Upgrade × UserService → Type 0) (c : Call) (k : Action Upgrade) (s : UserService)
      → P (k (log c s))
      → ((e : String) → w.throws (log c s).calls ≡ some e → P (throw e, log c s))
      → P ((request w c >> k) s)
  request_lem P c k s next thrown = go (w.throws (log c s).calls) refl
    where
      go :
          (o : Option String)
          → w.throws (log c s).calls ≡ o
          → P (run_next (outcome o, log c s) (λ _. k))
      go none eq = next
      go (some e) eq = thrown e eq

  unfoldable pub Returned : UserService → Result Upgrade × UserService → Type 0
  Returned s x = IsReturned w s x.0 x.1

  -- The dialog around an action that does not throw.
  shown_lem :
      (m : Action Upgrade) (s t : UserService)
      → t.calls ≡ s.calls ++ Call.prompt_for_challenge_response ∷ []
      → Returned s ((blocking_dialog w >> finally (λ t'. caught (m t')) dismiss_blocking_dialog) t)
  unfolding Returned
  shown_lem m s t prompted = go (w.throws shown.calls) refl
    where
      shown : UserService
      shown = log Call.blocking_dialog t

      dismissed :
          (x : Result Upgrade × UserService)
          → Returned s ((caught x).0, dismiss_blocking_dialog (caught x).1)
      dismissed (ok u, t') = IsReturned.returned u _
      dismissed (throw e, t') = IsReturned.returned (Upgrade.error e) _

      go :
          (o : Option String)
          → w.throws shown.calls ≡ o
          → Returned s (
              run_next
                (run_next
                  (outcome o, shown)
                  (λ _. modify (λ t'. record t' { open_dialogs = t'.open_dialogs + 1 })))
                (λ _. finally (λ t'. caught (m t')) dismiss_blocking_dialog))
      go none eq = dismissed (m (record shown { open_dialogs = shown.open_dialogs + 1 }))
      go (some e) eq =
          IsReturned.not_shown e shown (ap (λ cs. cs ++ Call.blocking_dialog ∷ []) prompted) eq

  pub upgrade_returns :
      (has_passcode has_account answered : Bool) (p : CredentialsChange) (s : UserService)
      → Returned s (perform_protocol_upgrade w has_passcode has_account answered p s)
  unfolding perform_protocol_upgrade Returned
  upgrade_returns has_passcode has_account answered p s =
      request_lem (Returned s) Call.prompt_for_challenge_response _ s (asked answered)
        (λ e eq. IsReturned.not_prompted e (log Call.prompt_for_challenge_response s) refl eq)
    where
      asked :
          (b : Bool)
          → Returned s (
              (if not b then pure Upgrade.canceled else (do
                blocking_dialog w
                finally
                    (λ t. caught (
                      (do
                        failed ← upgrade_account w has_account p
                        unless_error failed
                            (do upgrade_passcode w has_passcode; pure Upgrade.success))
                        t))
                    dismiss_blocking_dialog))
                (log Call.prompt_for_challenge_response s))
      asked true = shown_lem _ s (log Call.prompt_for_challenge_response s) refl
      asked false = IsReturned.returned Upgrade.canceled _
