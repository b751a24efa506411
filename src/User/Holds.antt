-- ===== src/User/Holds.antt =====
-- What a chain of calls leaves: what holds of its result, or the call that threw.
use snjs.Prelude.{
  ◌≡◌, refl, String, Bool, true, false, Option, none, some, Result, ok, throw, if◌then◌else◌,
}
use snjs.User.Calls.{
  Call, UserService, World, Action, run_next, ◌>>=◌, ◌>>◌, outcome, log, request, request_response,
}

module _ (w : World) where
  -- Where it throws, the last call did.
  abbrev pub Holds : {A : Type 0} → (A → UserService → Type 0) → Result A × UserService → Type 0
  Holds Q (ok a, s) = Q a s
  Holds Q (throw e, s) = w.throws s.calls ≡ some e

  pub Holds-bind :
      {A B : Type 0} (P : A → UserService → Type 0) (Q : B → UserService → Type 0)
      → (m : Action A) (f : A → Action B) (s : UserService) → Holds P (m s)
      → ((a : A) (s' : UserService) → P a s' → Holds Q (f a s'))
      → Holds Q ((m >>= f) s)
  Holds-bind {A} P Q m f s h next = go (m s) h
    where
      go : (x : Result A × UserService) → Holds P x → Holds Q (run_next x f)
      go (ok a, s') h = next a s' h
      go (throw e, s') h = h

  pub Holds-if :
      {A : Type 0} (Q : A → UserService → Type 0) (b : Bool) (m k : Action A) (s : UserService)
      → Holds Q (m s)
      → Holds Q (k s)
      → Holds Q ((if b then m else k) s)
  Holds-if Q true m k s hm hk = hm
  Holds-if Q false m k s hm hk = hk

  -- A call of another service changes nothing but the log.
  pub Holds-request :
      {B : Type 0} (Q : B → UserService → Type 0) (c : Call) (k : Action B) (s : UserService)
      → Holds Q (k (log c s))
      → Holds Q ((request w c >> k) s)
  Holds-request Q c k s h = go (w.throws (log c s).calls) refl
    where
      go :
          (o : Option String)
          → w.throws (log c s).calls ≡ o
          → Holds Q (run_next (outcome o, log c s) (λ _. k))
      go none eq = h
      go (some e) eq = eq

  pub Holds-request_response :
      {B : Type 0} (Q : B → UserService → Type 0) (c : Call) (f : Bool → Action B) (s : UserService)
      → ((b : Bool) → Holds Q (f b (log c s)))
      → Holds Q ((request_response w c >>= f) s)
  Holds-request_response Q c f s h = go (w.throws (log c s).calls) refl
    where
      go :
          (o : Option String)
          → w.throws (log c s).calls ≡ o
          → Holds Q (
              run_next
                (run_next (outcome o, log c s) (λ _. λ s'. (ok (w.has_error s'.calls), s')))
                f)
      go none eq = h (w.has_error (log c s).calls)
      go (some e) eq = eq
