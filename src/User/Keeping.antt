-- ===== src/User/Keeping.antt =====
-- Actions that leave no dialog open.
use snjs.Prelude.{
  ◌+◌, ◌≡◌, refl, ◌∙◌, Bool, true, false, Result, ok, throw, arith, String, Option, none, some,
  if◌then◌else◌,
}
use snjs.User.Calls.{
  Call, UserService, World, Action, run_next, ◌>>=◌, ◌>>◌, pure, finally, request, modify, log,
  outcome,
}
use snjs.User.Passcode.{blocking_dialog, dismiss_blocking_dialog}

-- An action that shows as many dialogs after it as before, whether it throws or not.
unfoldable pub KeepsDialogs : {A : Type 0} → Action A → Type 0
KeepsDialogs m = (s : UserService) → (m s).1.open_dialogs ≡ s.open_dialogs

pub bind-KeepsDialogs :
    {A B : Type 0} (m : Action A) (f : A → Action B)
    → KeepsDialogs m
    → ((a : A) → KeepsDialogs (f a))
    → KeepsDialogs (m >>= f)
unfolding KeepsDialogs
bind-KeepsDialogs {A} m f hm hf s = go (m s) (hm s)
  where
    go :
        (x : Result A × UserService)
        → x.1.open_dialogs ≡ s.open_dialogs
        → (run_next x f).1.open_dialogs ≡ s.open_dialogs
    go (ok a, s') eq = hf a s' ∙ eq
    go (throw e, s') eq = eq

pub if-KeepsDialogs :
    {A : Type 0} (b : Bool) (m k : Action A)
    → KeepsDialogs m
    → KeepsDialogs k
    → KeepsDialogs (if b then m else k)
if-KeepsDialogs true m k hm hk = hm
if-KeepsDialogs false m k hm hk = hk

-- A dialog around an action.
pub around-KeepsDialogs :
    {A : Type 0} (w : World) (m : Action A)
    → KeepsDialogs m
    → KeepsDialogs (blocking_dialog w >> finally m dismiss_blocking_dialog)
unfolding KeepsDialogs
around-KeepsDialogs {A} w m hm s = go (w.throws (log Call.blocking_dialog s).calls)
  where
    go :
        (o : Option String)
        → (run_next
            (run_next
              (outcome o, log Call.blocking_dialog s)
              (λ _. modify (λ t. record t { open_dialogs = t.open_dialogs + 1 })))
            (λ _. finally m dismiss_blocking_dialog)).1.open_dialogs
          ≡ s.open_dialogs
    go none =
        let eq = hm (record (log Call.blocking_dialog s) { open_dialogs = s.open_dialogs + 1 }) in
        omega arith
    go (some e) = refl

pub pure-KeepsDialogs : {A : Type 0} (a : A) → KeepsDialogs (pure a)
unfolding KeepsDialogs
pure-KeepsDialogs a s = refl

pub modify-KeepsDialogs :
    (f : UserService → UserService)
    → ((s : UserService) → (f s).open_dialogs ≡ s.open_dialogs)
    → KeepsDialogs (modify f)
unfolding KeepsDialogs
modify-KeepsDialogs f h s = h s

pub request-KeepsDialogs : (w : World) (c : Call) → KeepsDialogs (request w c)
unfolding KeepsDialogs
request-KeepsDialogs w c s = refl
