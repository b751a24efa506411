-- ===== src/User/Dialogs.antt =====
-- The blocking dialogs are dismissed, whatever fails.
use snjs.Prelude.{
  ℕ, ◌≡◌, refl, String, Bool, true, false, not, Option, none, some, Result, ok, throw, arith, ltb,
}
use snjs.User.Calls.{Call, UserService, World, Action, pure, request, lock_syncing, unlock_syncing}
use snjs.User.Passcode.{
  rewrite_items_keys, set_passcode_without_warning, remove_passcode_without_warning, add_passcode,
  remove_passcode, change_passcode, minimum_passcode_length,
}
use snjs.User.Credentials.{
  CredentialsChange, is_too_short, change_credentials, create_new_items_key, roll_back_keys,
  roll_back, after_change, perform_credentials_change, change_user_credentials, alert_error,
  perform_protocol_upgrade, caught, upgrade_passcode, upgrade_account, unless_error, Upgrade,
}
use snjs.User.Keeping.{
  KeepsDialogs, bind-KeepsDialogs, if-KeepsDialogs, around-KeepsDialogs, pure-KeepsDialogs,
  modify-KeepsDialogs, request-KeepsDialogs,
}
use snjs.User.Upgraded.{IsReturned, Returned, upgrade_returns}

module _ (w : World) where
  set_passcode-KeepsDialogs : KeepsDialogs (set_passcode_without_warning w)
  unfolding set_passcode_without_warning rewrite_items_keys KeepsDialogs
  set_passcode-KeepsDialogs s = ground arith

  remove_passcode-KeepsDialogs : KeepsDialogs (remove_passcode_without_warning w)
  unfolding remove_passcode_without_warning rewrite_items_keys KeepsDialogs
  remove_passcode-KeepsDialogs s = ground arith

  change_credentials-KeepsDialogs : (old new : ℕ) → KeepsDialogs (change_credentials w old new)
  unfolding change_credentials KeepsDialogs
  change_credentials-KeepsDialogs old new s = ground arith

  roll_back_keys-KeepsDialogs : (old : ℕ) → KeepsDialogs (roll_back_keys w old)
  unfolding roll_back_keys KeepsDialogs
  roll_back_keys-KeepsDialogs old s = ground arith

  roll_back-KeepsDialogs : (p : CredentialsChange) (old : ℕ) → KeepsDialogs (roll_back w p old)
  unfolding roll_back
  roll_back-KeepsDialogs p old =
      bind-KeepsDialogs (change_credentials w p.new_root_key p.current_root_key)
        (λ _. roll_back_keys w old)
        (change_credentials-KeepsDialogs p.new_root_key p.current_root_key)
        (λ _. roll_back_keys-KeepsDialogs old)

  create-KeepsDialogs : (k : ℕ) → KeepsDialogs (create_new_items_key w k)
  unfolding create_new_items_key KeepsDialogs
  create-KeepsDialogs k s = ground arith

  after_change-KeepsDialogs : (p : CredentialsChange) (b : Bool) → KeepsDialogs (after_change w p b)
  unfolding after_change
  after_change-KeepsDialogs p true = pure-KeepsDialogs (some "response")
  after_change-KeepsDialogs p false =
      bind-KeepsDialogs (create_new_items_key w p.new_items_key) _
        (create-KeepsDialogs p.new_items_key)
        (λ old.
          bind-KeepsDialogs (request w Call.reencrypt_items_keys) _
            (request-KeepsDialogs w Call.reencrypt_items_keys)
            (λ _. bind-KeepsDialogs (request w Call.sync) _ (request-KeepsDialogs w Call.sync) (λ _.
              if-KeepsDialogs p.never_synced (roll_back w p old) (pure none)
                (roll_back-KeepsDialogs p old) (pure-KeepsDialogs none))))

  perform_change-KeepsDialogs :
      (p : CredentialsChange) → KeepsDialogs (perform_credentials_change w p)
  unfolding perform_credentials_change
  perform_change-KeepsDialogs p =
      bind-KeepsDialogs (request w Call.get_wrapping_key_if_applicable) _
        (request-KeepsDialogs w Call.get_wrapping_key_if_applicable)
        (λ _. if-KeepsDialogs p.canceled _ _ (pure-KeepsDialogs (some "PasscodeRequired")) (
          if-KeepsDialogs (is_too_short p p.new_password_length) _ _
            (pure-KeepsDialogs (some "InsufficientPasswordMessage"))
            (bind-KeepsDialogs (request w Call.validate_account_password) _
              (request-KeepsDialogs w Call.validate_account_password)
              (λ _.
                if-KeepsDialogs (not p.password_valid) _ _
                  (pure-KeepsDialogs (some "INVALID_PASSWORD"))
                  (bind-KeepsDialogs (request w Call.compute_root_keys) _
                    (request-KeepsDialogs w Call.compute_root_keys)
                    (λ _. bind-KeepsDialogs lock_syncing _ (modify-KeepsDialogs _ (λ s. refl)) (λ _.
                      bind-KeepsDialogs (change_credentials w p.current_root_key p.new_root_key) _
                        (change_credentials-KeepsDialogs p.current_root_key p.new_root_key)
                        (λ b.
                          bind-KeepsDialogs unlock_syncing _ (modify-KeepsDialogs _ (λ s. refl))
                            (λ _. after_change-KeepsDialogs p b)))))))))

  alert_error-KeepsDialogs : (o : Option String) → KeepsDialogs (alert_error w o)
  unfolding KeepsDialogs
  alert_error-KeepsDialogs none s = refl
  alert_error-KeepsDialogs (some e) s = refl

  change_user_credentials-KeepsDialogs :
      (p : CredentialsChange) → KeepsDialogs (change_user_credentials w p)
  unfolding change_user_credentials
  change_user_credentials-KeepsDialogs p =
      bind-KeepsDialogs (perform_credentials_change w p) _ (perform_change-KeepsDialogs p) (λ o.
        bind-KeepsDialogs (alert_error w o) _ (alert_error-KeepsDialogs o)
          (λ _. pure-KeepsDialogs o))

  caught-KeepsDialogs : (m : Action Upgrade) → KeepsDialogs m → KeepsDialogs (λ s. caught (m s))
  unfolding KeepsDialogs
  caught-KeepsDialogs m hm s = go (m s) (hm s)
    where
      go :
          (x : Result Upgrade × UserService)
          → x.1.open_dialogs ≡ s.open_dialogs
          → (caught x).1.open_dialogs ≡ s.open_dialogs
      go (ok u, s') eq = eq
      go (throw e, s') eq = eq

  upgrade_account-KeepsDialogs :
      (b : Bool) (p : CredentialsChange) → KeepsDialogs (upgrade_account w b p)
  upgrade_account-KeepsDialogs false p = pure-KeepsDialogs none
  upgrade_account-KeepsDialogs true p = change_user_credentials-KeepsDialogs p

  upgrade_passcode-KeepsDialogs : (b : Bool) → KeepsDialogs (upgrade_passcode w b)
  upgrade_passcode-KeepsDialogs false = pure-KeepsDialogs tt
  upgrade_passcode-KeepsDialogs true =
      bind-KeepsDialogs (remove_passcode_without_warning w) _ remove_passcode-KeepsDialogs
        (λ _. set_passcode-KeepsDialogs)

  unless_error-KeepsDialogs :
      (o : Option String) (m : Action Upgrade) → KeepsDialogs m → KeepsDialogs (unless_error o m)
  unless_error-KeepsDialogs none m hm = hm
  unless_error-KeepsDialogs (some e) m hm = pure-KeepsDialogs (Upgrade.error e)

  upgrade-KeepsDialogs :
      (has_passcode has_account answered : Bool) (p : CredentialsChange)
      → KeepsDialogs (perform_protocol_upgrade w has_passcode has_account answered p)
  unfolding perform_protocol_upgrade
  upgrade-KeepsDialogs has_passcode has_account answered p =
      bind-KeepsDialogs (request w Call.prompt_for_challenge_response) _
        (request-KeepsDialogs w Call.prompt_for_challenge_response)
        (λ _. if-KeepsDialogs (not answered) _ _ (pure-KeepsDialogs Upgrade.canceled) (
          around-KeepsDialogs w _ (
            caught-KeepsDialogs _ (
              bind-KeepsDialogs (upgrade_account w has_account p) _
                (upgrade_account-KeepsDialogs has_account p)
                (λ o. unless_error-KeepsDialogs o _ (
                  bind-KeepsDialogs (upgrade_passcode w has_passcode) _
                    (upgrade_passcode-KeepsDialogs has_passcode)
                    (λ _. pure-KeepsDialogs Upgrade.success)))))))

  caught_returns : (x : Result Upgrade × UserService) → (u : Upgrade) × ((caught x).0 ≡ ok u)
  caught_returns (ok u, s) = (u, refl)
  caught_returns (throw e, s) = (Upgrade.error e, refl)

  add_passcode-KeepsDialogs :
      (length : ℕ) (authorized : Bool) → KeepsDialogs (add_passcode w length authorized)
  unfolding add_passcode
  add_passcode-KeepsDialogs length authorized =
      if-KeepsDialogs (ltb length minimum_passcode_length) _ _ (pure-KeepsDialogs false) (
        bind-KeepsDialogs (request w Call.authorize_action) _
          (request-KeepsDialogs w Call.authorize_action)
          (λ _. if-KeepsDialogs (not authorized) _ _ (pure-KeepsDialogs false) (
            around-KeepsDialogs w _ (
              bind-KeepsDialogs (set_passcode_without_warning w) _ set_passcode-KeepsDialogs
                (λ _. pure-KeepsDialogs true)))))

  drop_passcode-KeepsDialogs : (authorized : Bool) → KeepsDialogs (remove_passcode w authorized)
  unfolding remove_passcode
  drop_passcode-KeepsDialogs authorized =
      bind-KeepsDialogs (request w Call.authorize_action) _
        (request-KeepsDialogs w Call.authorize_action)
        (λ _. if-KeepsDialogs (not authorized) _ _ (pure-KeepsDialogs false) (
          around-KeepsDialogs w _ (
            bind-KeepsDialogs (remove_passcode_without_warning w) _ remove_passcode-KeepsDialogs
              (λ _. pure-KeepsDialogs true))))

  change_passcode-KeepsDialogs :
      (length : ℕ) (authorized : Bool) → KeepsDialogs (change_passcode w length authorized)
  unfolding change_passcode
  change_passcode-KeepsDialogs length authorized =
      if-KeepsDialogs (ltb length minimum_passcode_length) _ _ (pure-KeepsDialogs false) (
        bind-KeepsDialogs (request w Call.authorize_action) _
          (request-KeepsDialogs w Call.authorize_action)
          (λ _. if-KeepsDialogs (not authorized) _ _ (pure-KeepsDialogs false) (
            around-KeepsDialogs w _ (
              bind-KeepsDialogs (remove_passcode_without_warning w) _ remove_passcode-KeepsDialogs
                (λ _.
                  bind-KeepsDialogs (set_passcode_without_warning w) _ set_passcode-KeepsDialogs
                    (λ _. pure-KeepsDialogs true))))))

  -- Adding, removing and changing the passcode, and the upgrade of the protocol, each dismiss the
  -- blocking dialog they show, and no other, whichever of the calls throws. The upgrade itself throws only
  -- what its first call, the prompt of the challenge, or its second, showing the dialog, threw: whatever
  -- throws after that, it returns.
  pub dialogs_dismissed :
      (length : ℕ) (authorized has_passcode has_account answered : Bool) (p : CredentialsChange)
      (s : UserService)
      → ((add_passcode w length authorized s).1.open_dialogs ≡ s.open_dialogs)
        × ((remove_passcode w authorized s).1.open_dialogs ≡ s.open_dialogs)
        × ((change_passcode w length authorized s).1.open_dialogs ≡ s.open_dialogs)
        × (let (r, s') = perform_protocol_upgrade w has_passcode has_account answered p s in
            (s'.open_dialogs ≡ s.open_dialogs) × IsReturned w s r s')
  unfolding KeepsDialogs Returned
  dialogs_dismissed length authorized has_passcode has_account answered p s = (
    add_passcode-KeepsDialogs length authorized s,
    drop_passcode-KeepsDialogs authorized s,
    change_passcode-KeepsDialogs length authorized s,
    (
      upgrade-KeepsDialogs has_passcode has_account answered p s,
      upgrade_returns w has_passcode has_account answered p s,
    ),
  )
