-- ===== src/Features/Status.antt =====
-- What the status of a native feature tells.
use snjs.Prelude.{ℕ, ◌≤◌, ◌<◌, ◌≡◌, ◌↔◌, ◌≢◌, refl, true, false, Option, none, some, arith}
use snjs.Features.{
  no_user_subscription, in_current_plan_but_expired, entitled, FeatureDescription, FeatureModels,
  FeaturesService, includes, status_of_feature, get_user_feature,
  has_paid_online_or_offline_subscription, is_feature_deprecated, get_feature_status,
}

module _ (m : FeatureModels) where
  -- The user's feature has a time that is over, and one of the user's roles gives it.
  pub record IsLapsed (now id : ℕ) (s : FeaturesService) : Type 0 where
    pub feature : FeatureDescription
    pub held : get_user_feature id s ≡ some feature
    pub until : ℕ
    pub expires : feature.expires_at ≡ some until
    pub over : until < now
    pub by_role : includes s.roles feature.role_name ≡ true

  pub record IsFair (id : ℕ) (s : FeaturesService) : Type 0 where
    pub subscribed :
        (now : ℕ)
        → (get_feature_status m now id s ≡ no_user_subscription)
          ↔ (has_paid_online_or_offline_subscription m s ≡ false)
    pub lasting :
        (before now : ℕ)
        → before ≤ now
        → get_feature_status m now id s ≡ entitled
        → get_feature_status m before id s ≡ entitled
    pub lapsed :
        (now : ℕ) → get_feature_status m now id s ≡ in_current_plan_but_expired → IsLapsed now id s

  feature_lem :
      (before now : ℕ) (o : Option FeatureDescription) (s : FeaturesService)
      → before ≤ now
      → status_of_feature m now o s ≡ entitled
      → status_of_feature m before o s ≡ entitled
  feature_lem before now none s h e = ground arith
  feature_lem before now (some f) s h e = ground arith

  lapsed_lem :
      (now id : ℕ) (s : FeaturesService) (f : FeatureDescription) (o : Option ℕ)
      → get_user_feature id s ≡ some f
      → f.expires_at ≡ o
      → status_of_feature m now (some f) s ≡ in_current_plan_but_expired
      → IsLapsed now id s
  lapsed_lem now id s f none held expires lapsed = ground arith
  lapsed_lem now id s f (some t) held expires lapsed = record {
    feature = f;
    held = held;
    until = t;
    expires = expires;
    over = ground arith;
    by_role = ground arith;
  }

  feature_status_lem :
      (now : ℕ) (o : Option FeatureDescription) (s : FeaturesService)
      → status_of_feature m now o s ≢ no_user_subscription
  feature_status_lem now none s = λ h. ground arith
  feature_status_lem now (some f) s = λ h. ground arith

  held_lem :
      (now id : ℕ) (s : FeaturesService) (o : Option FeatureDescription)
      → get_user_feature id s ≡ o
      → status_of_feature m now o s ≡ in_current_plan_but_expired
      → IsLapsed now id s
  held_lem now id s none held lapsed = ground arith
  held_lem now id s (some f) held lapsed = lapsed_lem now id s f f.expires_at held refl lapsed

  native_lapsed :
      (now id : ℕ) (native : FeatureDescription) (s : FeaturesService)
      → m.find_native_feature id ≡ some native
      → get_feature_status m now id s ≡ in_current_plan_but_expired
      → status_of_feature m now (get_user_feature id s) s ≡ in_current_plan_but_expired
  unfolding get_feature_status is_feature_deprecated
  native_lapsed now id native s is_native lapsed = ground arith

  -- For a native feature: the status says that there is no subscription exactly if there is none,
  -- online or offline. A feature to which the user is entitled was so at each earlier time, as long
  -- as nothing else changed. And the status says that it has expired only if its time is over and
  -- one of the user's roles gives it.
  pub get_feature_status-IsFair :
      (id : ℕ) (native : FeatureDescription) (s : FeaturesService)
      → m.find_native_feature id ≡ some native
      → IsFair id s
  unfolding get_feature_status is_feature_deprecated
  get_feature_status-IsFair id native s is_native = record {
    subscribed = λ now. ground (arith, feature_status_lem now (get_user_feature id s) s);
    lasting = λ before now h. ground (arith, feature_lem before now (get_user_feature id s) s h);
    lapsed =
        λ now lapsed. held_lem now id s _ refl (native_lapsed now id native s is_native lapsed);
  }
