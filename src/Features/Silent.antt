-- ===== src/Features/Silent.antt =====
-- Roles that change are stored, and nothing is told of it.
use snjs.Prelude.{
  ℕ, ◌≡◌, refl, sym, subst, ap, ◌>>=◌, append-nil, if_intro, Option-cases, Bool, true, false, not,
  ◌&&◌, Option, none, some, List, [], ◌∷◌, ◌++◌, arith, Result, ok, All, any, filter, is_some,
  ==_iff, if◌then◌else◌, inl, inr,
}
use snjs.Features.{
  FeatureDescription, FeatureModels, FeaturesService, FeaturesEvent, user_roles_changed,
  features_updated, set_roles, have_roles_changed, includes,
}
use snjs.Features.Download.{
  Around, did_download_features, update_roles_and_fetch_features, map_to_items, map_all,
  with_features, fetch_features, map_remote_native_feature_to_static_feature, with_remote_fields,
}

abbrev pub is_roles_changed : FeaturesEvent → Bool
is_roles_changed user_roles_changed = true
is_roles_changed features_updated = false

abbrev pub IsSilent : List FeaturesEvent → Type 0
IsSilent events = All (λ e. is_roles_changed e ≡ false) events

includes_self :
    (xs ys : List ℕ)
    → All (λ x. includes ys x ≡ true) xs
    → any (λ x. not (includes ys x)) xs ≡ false
includes_self [] ys h = refl
includes_self (x ∷ xs) ys h = ground (arith, includes_self xs ys h.1)

All-includes :
    (y : ℕ) (xs ys : List ℕ)
    → All (λ x. includes ys x ≡ true) xs
    → All (λ x. includes (y ∷ ys) x ≡ true) xs
All-includes y [] ys h = tt
All-includes y (x ∷ xs) ys h = (ground arith, All-includes y xs ys h.1)

All-includes_self : (xs : List ℕ) → All (λ x. includes xs x ≡ true) xs
All-includes_self [] = tt
All-includes_self (x ∷ xs) =
    (ground (arith, ==_iff x x), All-includes x xs xs (All-includes_self xs))

unchanged_lem :
    (roles : List ℕ) (s : FeaturesService) → s.roles ≡ roles → have_roles_changed roles s ≡ false
unfolding have_roles_changed
unchanged_lem roles s same =
    rw same (ground (arith, includes_self roles roles (All-includes_self roles)))

module _ (m : FeatureModels) where
  open m use {find_native_feature}

  map_all_lem :
      (fs : List FeatureDescription)
      → (fs' : List FeatureDescription) × (map_all m
            (filter (λ f. is_some (find_native_feature f.identifier)) fs)
          ≡ ok fs')
  unfolding map_all map_remote_native_feature_to_static_feature
  map_all_lem [] = ([], refl)
  map_all_lem (f ∷ fs) =
      let (fs', mapped) = map_all_lem fs in
      elim (Option-cases (find_native_feature f.identifier)) [
        | inl missing ↦ (fs', ground (arith, mapped))
        | inr (native, found) ↦ (with_remote_fields m f native ∷ fs', ground (arith, mapped))
      ]

  -- What a call leaves: the roles are the announced ones, and no event tells that they changed.
  pub record IsUpdated (roles : List ℕ) (s s' : FeaturesService) : Type 0 where
    pub same_roles : have_roles_changed roles s' ≡ false
    pub persisted : have_roles_changed roles s ≡ true → s'.stored_roles ≡ roles
    pub added : List FeaturesEvent
    pub events : s'.events ≡ s.events ++ added
    pub silent : IsSilent added

  abbrev Done : List ℕ → FeaturesService → Result FeaturesService → Type 0
  Done roles s result = (s' : FeaturesService) × (result ≡ ok s') × IsUpdated roles s s'

  -- The service once the roles are set.
  abbrev with_roles : List ℕ → FeaturesService → FeaturesService
  with_roles roles s = record s {
    needs_initial_features_update = false;
    roles = roles;
    stored_roles = roles;
  }

  set_roles_lem :
      (arrays_equal : List ℕ → List ℕ → Bool) (roles : List ℕ) (s : FeaturesService)
      → arrays_equal roles roles ≡ true
      → set_roles arrays_equal roles (record s { needs_initial_features_update = false })
        ≡ with_roles roles s
  unfolding set_roles
  set_roles_lem arrays_equal roles s equal = rw equal refl

  with_roles-Done : (roles : List ℕ) (s : FeaturesService) → Done roles s (ok (with_roles roles s))
  with_roles-Done roles s = (
    with_roles roles s,
    refl,
    record {
      same_roles = unchanged_lem roles (with_roles roles s) refl;
      persisted = λ changed. refl;
      added = [];
      events = sym (append-nil s.events);
      silent = tt;
    },
  )

  with_features_lem :
      (around : Around) (features : List FeatureDescription) (s : FeaturesService)
      → (let s' = with_features m around features s in
          (s'.roles ≡ s.roles)
          × (s'.stored_roles ≡ s.stored_roles)
          × (s'.events ≡ s.events ++ features_updated ∷ []))
  unfolding with_features map_to_items
  with_features_lem around features s = ground arith

  downloaded-Done :
      (around : Around) (roles : List ℕ) (features : List FeatureDescription) (s : FeaturesService)
      → Done roles s (did_download_features m around features (with_roles roles s))
  unfolding did_download_features
  downloaded-Done around roles features s =
      let (features', mapped) = map_all_lem features in
      let kept = with_features_lem around features' (with_roles roles s) in
      (
        with_features m around features' (with_roles roles s),
        ap (λ r. r >>= λ fs. ok (with_features m around fs (with_roles roles s))) mapped,
        record {
          same_roles = unchanged_lem roles _ kept.0;
          persisted = λ changed. kept.1;
          added = features_updated ∷ [];
          events = kept.2;
          silent = (refl, tt);
        },
      )

  answered :
      (around : Around) (roles : List ℕ) (response : Option (List FeatureDescription))
      (s : FeaturesService)
      → Done roles s (elim response [
        | none ↦ ok (with_roles roles s)
        | some features ↦
            if s.deinited
            then ok (with_roles roles s)
            else did_download_features m around features (with_roles roles s)
      ])
  answered around roles none s = with_roles-Done roles s
  answered around roles (some features) s =
      if_intro (Done roles s) s.deinited _ _ (λ gone. with_roles-Done roles s)
        (λ there. downloaded-Done around roles features s)

  -- Where `arraysEqual` holds of an array and itself: a call with any roles and any answer of the
  -- server ends without an error, the service then has the roles that were announced, up to their
  -- order, and has stored them if they changed. But it never tells that the roles changed.
  pub update_roles-IsUpdated :
      (arrays_equal : List ℕ → List ℕ → Bool)
      → ((xs : List ℕ) → arrays_equal xs xs ≡ true)
      → (around : Around) (roles : List ℕ) (response : Option (List FeatureDescription))
        (s : FeaturesService)
      → (s' : FeaturesService) × (update_roles_and_fetch_features m arrays_equal around roles
            response s
          ≡ ok s')
        × IsUpdated roles s s'
  unfolding update_roles_and_fetch_features
  update_roles-IsUpdated arrays_equal equal around roles response s =
      if_intro (Done roles s)
        (not (have_roles_changed roles s) && not s.needs_initial_features_update) _ _
        (λ same. (
          s,
          refl,
          record {
            same_roles = ground arith;
            persisted = λ changed. ground arith;
            added = [];
            events = sym (append-nil s.events);
            silent = tt;
          },
        ))
        (λ changed.
          subst (λ t. Done roles s (fetch_features m around response t))
            (sym (set_roles_lem arrays_equal roles s (equal roles)))
            (if_intro (Done roles s) s.has_offline_repo _ _ (λ offline. with_roles-Done roles s)
              (λ online. answered around roles response s)))
