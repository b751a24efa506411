-- ===== src/User/Settled.antt =====
-- Registering leaves nothing locked, whatever fails.
use snjs.Prelude.{
  ◌≡◌, refl, String, Bool, true, false, Option, none, some, [], ◌∷◌, ◌++◌, Result, ok, throw, arith,
  ◌||◌, if◌then◌else◌,
}
use snjs.User.Calls.{Call, UserService, World, after_error}
use snjs.User.Account.{register, register_body, merge_or_clear, give_up}

module _ (w : World) where
  body_lem :
      (ephemeral merge_local : Bool) (s : UserService)
      → (let (r, s') = register_body w ephemeral merge_local s in
          r ≡ ok tt → (s'.registering ≡ false) × (s'.sync_locked ≡ false))
  unfolding register_body merge_or_clear
  body_lem ephemeral merge_local s = ground arith

  entered_lem :
      (ephemeral merge_local : Bool) (s : UserService)
      → (let (r, s') = after_error (register_body w ephemeral merge_local s) (give_up w) in
          (s'.registering ≡ false) × (s'.sync_locked ≡ false))
  entered_lem ephemeral merge_local s = ground (arith, body_lem ephemeral merge_local s)

  -- What the session manager's answer makes of a registration.
  pub data IsAnswered (s : UserService) (r : Result (Unit {0})) (s' : UserService) : Type 0 where
    accepted : w.throws (s.calls ++ Call.session_register ∷ []) ≡ none → IsAnswered s r s'
    refused :
        (e : String)
        → w.throws (s.calls ++ Call.session_register ∷ []) ≡ some e
        → r ≡ throw e
        → s'.calls ≡ s.calls ++ Call.session_register ∷ []
        → IsAnswered s r s'

  refused_lem :
      (ephemeral merge_local : Bool) (s : UserService) (e : String)
      → w.throws (s.calls ++ Call.session_register ∷ []) ≡ some e
      → (let (r, s') = after_error (register_body w ephemeral merge_local s) (give_up w) in
          (r ≡ throw e) × (s'.calls ≡ s.calls ++ Call.session_register ∷ []))
  unfolding register_body
  refused_lem ephemeral merge_local s e rejected = ground arith

  answered_lem :
      (ephemeral merge_local : Bool) (s : UserService)
      → (let (r, s') = after_error (register_body w ephemeral merge_local s) (give_up w) in
          IsAnswered s r s')
  answered_lem ephemeral merge_local s =
      answered (w.throws (s.calls ++ Call.session_register ∷ [])) refl
    where
      answered :
          (o : Option String)
          → w.throws (s.calls ++ Call.session_register ∷ []) ≡ o
          → (let (r, s') = after_error (register_body w ephemeral merge_local s) (give_up w) in
              IsAnswered s r s')
      answered none eq = IsAnswered.accepted eq
      answered (some e) eq =
          let (r, calls) = refused_lem ephemeral merge_local s e eq in
          IsAnswered.refused e eq r calls

  settled :
      (ephemeral merge_local : Bool) (s : UserService)
      → (let (r, s') =
            after_error
              (register_body w ephemeral merge_local (record s { registering = true }))
              (give_up w) in
          IsAnswered s r s')
  settled ephemeral merge_local s =
      elim (answered_lem ephemeral merge_local (record s { registering = true })) [
        | accepted a ↦ IsAnswered.accepted a
        | refused e a b c ↦ IsAnswered.refused e a b c
      ]

  pub data IsSettled (has_account : Bool) (s : UserService) (r : Result (Unit {0}))
      (s' : UserService) : Type 0 where
    barred :
        (e : String)
        → has_account || s.registering ≡ true
        → r ≡ throw e
        → s' ≡ s
        → IsSettled has_account s r s'
    entered :
        has_account || s.registering ≡ false
        → s'.registering ≡ false
        → s'.sync_locked ≡ false
        → IsAnswered s r s'
        → IsSettled has_account s r s'

  -- Registering throws and changes nothing if there is an account or another registration runs.
  -- Otherwise, whichever of the calls throws, or none, the service is afterwards free to register
  -- again and syncing is unlocked; and if the session manager throws, its error is passed on and no
  -- other call was made: no data was merged or cleared.
  pub register-IsSettled :
      (has_account ephemeral merge_local : Bool) (s : UserService)
      → (let (r, s') = register w has_account ephemeral merge_local s in
          IsSettled has_account s r s')
  unfolding register register_body
  register-IsSettled true ephemeral merge_local s = IsSettled.barred _ refl refl refl
  register-IsSettled false ephemeral merge_local s = go s.registering refl
    where
      go :
          (b : Bool)
          → s.registering ≡ b
          → (let (r, s') =
                if b
                then (throw "Already registering.", s)
                else after_error
                    (register_body w ephemeral merge_local (record s { registering = true }))
                    (give_up w) in
              IsSettled false s r s')
      go true busy = IsSettled.barred _ busy refl refl
      go false free =
          let entered = entered_lem ephemeral merge_local (record s { registering = true }) in
          IsSettled.entered free entered.0 entered.1 (settled ephemeral merge_local s)
