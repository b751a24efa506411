-- ===== src/Protection/Items.antt =====
-- Acting on several items at once asks the user once at most
-- (`authorizeProtectedActionForItems`). Each item comes with what the other services say when the
-- loop reaches it.
use snjs.Prelude.{
  ℕ, suc, ◌≤◌, ◌≡◌, ◌≢◌, inl, inr, refl, sym, ◌∙◌, ap, Bool, true, false, not, ◌&&◌, ◌||◌, Option,
  none, some, List, [], ◌∷◌, ◌++◌, map, filter, arith, is_some, append-nil, append_assoc,
  if◌then◌else◌, Result, ok, ◌>>=◌, Bool-cases, ltb, is_empty,
}
use snjs.Protection.{
  ChallengeValue, Protection, Env, default_options, validate_or_renew_session,
  has_unprotected_access_session, answer, factors, session_length_prompt, get_session_expiry_date,
}

pub record Item : Type 0 where
  pub id : ℕ
  pub is_protected : Bool

pub record Loop : Type 0 where
  pub protection : Protection
  pub session_validation : Option Bool
  pub validations : ℕ
  pub authorized_items : List Item

abbrev pub needs_authorization : Env → Item → Protection → Bool
needs_authorization env item s = item.is_protected && not (has_unprotected_access_session env s)

-- The start of the validation, where it is needed and was not made before.
unfoldable pub validate_once : Env → Bool → Loop → Result Loop
validate_once env needs l =
    if needs && not (is_some l.session_validation)
    then (do
      (valid, s) ← validate_or_renew_session env default_options l.protection
      ok (record l {
        protection = s;
        session_validation = some valid;
        validations = suc l.validations;
      }))
    else ok l

abbrev pub is_valid : Option Bool → Bool
is_valid none = false
is_valid (some b) = b

abbrev pub push_item : Bool → Item → Loop → Loop
push_item is_allowed item l =
    if is_allowed then record l { authorized_items = l.authorized_items ++ item ∷ [] } else l

unfoldable pub authorize_from : Loop → List (Item × Env) → Result Loop
unfolding validate_once
authorize_from l [] = ok l
authorize_from l ((item, env) ∷ rest) =
    let needs = needs_authorization env item l.protection in
    do
      l' ← validate_once env needs l
      authorize_from (push_item (not needs || is_valid l'.session_validation) item l') rest

unfoldable pub authorize_protected_action_for_items : Protection → List (Item × Env) → Result Loop
unfolding authorize_from
authorize_protected_action_for_items s items =
    authorize_from
      (record { protection = s; session_validation = none; validations = 0; authorized_items = [] })
      items

abbrev pub items_of : List (Item × Env) → List Item
items_of items = map (λ e. e.0) items

-- The items that need no authorization in a state.
abbrev pub free_items : Protection → List (Item × Env) → List Item
free_items s items = items_of (filter (λ e. not (needs_authorization e.1 e.0 s)) items)

refused_lem :
    (env : Env) (response : Option (List ChallengeValue)) (s : Protection)
    → (answer env response s).0 ≡ false
    → (answer env response s).1 ≡ s
refused_lem env none s h = refl
refused_lem env (some values) s h = cc

-- With the default options a validation does not throw, and a refused one changes nothing.
pub validate-default :
    (env : Env) (s : Protection)
    → (b : Bool) × (s' : Protection) × (validate_or_renew_session env default_options s
        ≡ ok (b, s'))
      × (b ≡ false → s' ≡ s)
unfolding validate_or_renew_session
validate-default env s = elim (Bool-cases (ltb env.now (get_session_expiry_date env.now s))) [
  | inl live ↦ (true, s, rw live refl, λ _. refl)
  | inr expired ↦ elim (Bool-cases (is_empty (factors env default_options s))) [
    | inl free ↦ (true, s, rw (expired, free) refl, λ _. refl)
    | inr asked ↦
        let response =
          env.respond (factors env default_options s ++ session_length_prompt s ∷ []) in
        (
          (answer env response s).0,
          (answer env response s).1,
          rw (expired, asked) refl,
          refused_lem env response s,
        )
  ]
]

-- How the loop ends: what it adds to the authorized items, and what it keeps.
record Ends (l l' : Loop) (items : List Item) : Type 0 where
  authorized : l'.authorized_items ≡ l.authorized_items ++ items
  validation : l'.session_validation ≡ l.session_validation
  count : l'.validations ≡ l.validations

skip :
    (env : Env) (needs v : Bool) (l : Loop)
    → l.session_validation ≡ some v
    → validate_once env needs l ≡ ok l
unfolding validate_once
skip env needs v l h = ground arith

valid_lem : (needs : Bool) (v : Option Bool) → v ≡ some true → (not needs || is_valid v) ≡ true
valid_lem needs v h = ground arith

invalid_lem :
    (needs b : Bool) (v : Option Bool)
    → v ≡ some false
    → needs ≡ b
    → (not needs || is_valid v) ≡ not b
invalid_lem needs b v h e = ground arith

abbrev pushed : Item → Loop → Loop
pushed item l = record l { authorized_items = l.authorized_items ++ item ∷ [] }

Ends-pushed :
    (item : Item) (l l' : Loop) (items : List Item)
    → Ends (pushed item l) l' items
    → Ends l l' (item ∷ items)
Ends-pushed item l l' items e = record {
  authorized = e.authorized ∙ append_assoc l.authorized_items (item ∷ []) items;
  validation = e.validation;
  count = e.count;
}

-- After a validation was accepted, all further items are authorized.
accepted-Ends :
    (l : Loop) (items : List (Item × Env))
    → l.session_validation ≡ some true
    → (l' : Loop) × (authorize_from l items ≡ ok l') × Ends l l' (items_of items)
unfolding authorize_from
accepted-Ends l [] h =
    (l, refl, record { authorized = sym (append-nil _); validation = refl; count = refl })
accepted-Ends l ((item, env) ∷ rest) h =
    let needs = needs_authorization env item l.protection in
    let (l', ran, e) = accepted-Ends (pushed item l) rest h in
    (
      l',
      rw (skip env needs true l h, valid_lem needs l.session_validation h) ran,
      Ends-pushed item l l' (items_of rest) e,
    )

-- After one was refused, those items are authorized that need no authorization.
refused-Ends :
    (l : Loop) (items : List (Item × Env))
    → l.session_validation ≡ some false
    → (l' : Loop) × (authorize_from l items ≡ ok l') × Ends l l' (free_items l.protection items)
unfolding authorize_from
refused-Ends l [] h =
    (l, refl, record { authorized = sym (append-nil _); validation = refl; count = refl })
refused-Ends l ((item, env) ∷ rest) h =
    elim (Bool-cases (needs_authorization env item l.protection)) [
      | inl needed ↦
          let (l', ran, e) = refused-Ends l rest h in
          (
            l',
            rw (skip env _ false l h, invalid_lem _ true l.session_validation h needed) ran,
            rw needed e,
          )
      | inr free ↦
          let (l', ran, e) = refused-Ends (pushed item l) rest h in
          (
            l',
            rw (skip env _ false l h, invalid_lem _ false l.session_validation h free) ran,
            rw free (Ends-pushed item l l' (free_items l.protection rest) e),
          )
    ]

-- What acting on some items leaves.
pub record IsAuthorized (s : Protection) (items : List (Item × Env)) (l : Loop) : Type 0 where
  pub once : l.validations ≤ 1
  pub refused : l.session_validation ≡ some false → l.authorized_items ≡ free_items s items
  pub granted : l.session_validation ≢ some false → l.authorized_items ≡ items_of items

abbrev waiting : Protection → List Item → Loop
waiting s done = record {
  protection = s;
  session_validation = none;
  validations = 0;
  authorized_items = done;
}

-- The loop as long as no validation was made; `done` was authorized before.
record Finishes (s : Protection) (done : List Item) (items : List (Item × Env)) (l : Loop)
    : Type 0 where
  once : l.validations ≤ 1
  refused : l.session_validation ≡ some false → l.authorized_items ≡ done ++ free_items s items
  granted : l.session_validation ≢ some false → l.authorized_items ≡ done ++ items_of items

abbrev validated : Protection → Bool → List Item → Loop
validated s b done = record {
  protection = s;
  session_validation = some b;
  validations = 1;
  authorized_items = done;
}

asked_lem :
    (env : Env) (s : Protection) (done : List Item) (b : Bool) (s' : Protection)
    → validate_or_renew_session env default_options s ≡ ok (b, s')
    → validate_once env true (waiting s done) ≡ ok (validated s' b done)
unfolding validate_once
asked_lem env s done b s' e = rw e

-- The item at which the user is asked, and what follows it.
asked-Finishes :
    (s s' : Protection) (done : List Item) (item : Item) (env : Env) (rest : List (Item × Env))
    (b : Bool)
    → (b ≡ false → s' ≡ s)
    → needs_authorization env item s ≡ true
    → (l : Loop) × (authorize_from (push_item b item (validated s' b done)) rest ≡ ok l)
      × Finishes s done ((item, env) ∷ rest) l
asked-Finishes s s' done item env rest true same needed =
    let (l, ran, e) = accepted-Ends (validated s' true (done ++ item ∷ [])) rest refl in
    (
      l,
      ran,
      record {
        once = omega (arith, e.count);
        refused = λ h. cc (e.validation);
        granted = λ h. e.authorized ∙ append_assoc done (item ∷ []) (items_of rest);
      },
    )
asked-Finishes s s' done item env rest false same needed =
    let (l, ran, e) = refused-Ends (validated s' false done) rest refl in
    (
      l,
      ran,
      record {
        once = omega (arith, e.count);
        refused = λ h. rw needed (e.authorized ∙ ap (λ r. done ++ free_items r rest) (same refl));
        granted = λ h. absurd (h e.validation);
      },
    )

waiting-Finishes :
    (s : Protection) (done : List Item) (items : List (Item × Env))
    → (l : Loop) × (authorize_from (waiting s done) items ≡ ok l) × Finishes s done items l
unfolding authorize_from
waiting-Finishes s done [] = (
  waiting s done,
  refl,
  record {
    once = omega arith;
    refused = λ h. sym (append-nil _);
    granted = λ h. sym (append-nil _);
  },
)
waiting-Finishes s done ((item, env) ∷ rest) = elim (Bool-cases (needs_authorization env item s)) [
  | inl needed ↦
      let (b, s', ran, same) = validate-default env s in
      let (l, went, e) = asked-Finishes s s' done item env rest b same needed in
      (l, rw (needed, asked_lem env s done b s' ran) went, e)
  | inr free ↦
      let (l, ran, e) = waiting-Finishes s (done ++ item ∷ []) rest in
      (
        l,
        rw free ran,
        record {
          once = e.once;
          refused = λ h. rw free (e.refused h ∙ append_assoc done (item ∷ []) (free_items s rest));
          granted = λ h. e.granted h ∙ append_assoc done (item ∷ []) (items_of rest);
        },
      )
]

-- Acting on items never throws and asks the user at most once. If the user refuses, exactly those
-- items are authorized, in order, that are not protected or are covered by a live session when the
-- loop reaches them; otherwise all of them are.
pub authorize_items-IsAuthorized :
    (s : Protection) (items : List (Item × Env))
    → (l : Loop) × (authorize_protected_action_for_items s items ≡ ok l) × IsAuthorized s items l
unfolding authorize_protected_action_for_items
authorize_items-IsAuthorized s items =
    let (l, ran, e) = waiting-Finishes s [] items in
    (l, ran, record { once = e.once; refused = e.refused; granted = e.granted })
