-- ===== src/Features/Timeless.antt =====
-- Features with no time at which they expire.
use snjs.Prelude.{
  ℕ, ◌<◌, ◌≡◌, refl, ap, ◌∙◌, true, false, Option, none, some, List, [], ◌∷◌, ◌++◌, ◌==◌, find,
  arith, any, subst, sym,
}
use snjs.Features.{
  FeatureDescription, Component, FeatureModels, FeaturesService, entitled, get_feature_status,
  get_user_feature, is_feature_deprecated, has_paid_online_or_offline_subscription,
  status_of_feature, includes,
}
use mathlib.Core.List.{Memᴰ}
use snjs.Features.Mapping.{
  Mapping, is_for, is_hidden, map_native_feature_to_item, map_typed, map_shown,
  map_remote_native_features_to_items,
}
use snjs.Features.Deletions.{includes-last, map_features_reaches, any-delete_components}

-- A feature of a type other than Component, shown, which the server sent without a time.
pub record IsTimeless (m : FeatureModels) (feature : FeatureDescription) (type : ℕ)
    (enabled : List ℕ) : Type 0 where
  pub typed : feature.content_type ≡ some type
  pub no_component : (type == m.component_type) ≡ false
  pub no_time : feature.expires_at ≡ none
  pub shown : is_hidden m feature enabled ≡ false

module _ (m : FeatureModels) where
  deletes_lem :
      (now type : ℕ) (feature : FeatureDescription) (existing : Component) (o : Option Component)
      (s : Mapping)
      → 0 < now
      → feature.expires_at ≡ none
      → (type == m.component_type) ≡ false
      → o ≡ some existing
      → (map_shown m now type feature o s).items_to_delete ≡ s.items_to_delete ++ existing.uuid ∷ []
  deletes_lem now type feature existing none s positive no_time no_component there = ground arith
  deletes_lem now type feature existing (some c) s positive no_time no_component there =
      ground arith

  typed_lem :
      (now type : ℕ) (feature : FeatureDescription) (enabled : List ℕ) (items : List Component)
      (s : Mapping)
      → feature.content_type ≡ some type
      → is_hidden m feature enabled ≡ false
      → map_native_feature_to_item m now feature enabled items s
        ≡ map_shown m now type feature (find (is_for feature.identifier) items) s
  unfolding map_native_feature_to_item
  typed_lem now type feature enabled items s typed shown =
      ap (λ o. map_typed m now o feature enabled items s) typed ∙ rw shown refl

  timeless_lem :
      (now : ℕ) (feature : FeatureDescription) (s : FeaturesService)
      → feature.expires_at ≡ none
      → status_of_feature m now (some feature) s ≡ entitled
  timeless_lem now feature s no_time = ground arith

  status_lem :
      (now id : ℕ) (native feature : FeatureDescription) (s : FeaturesService)
      → m.find_native_feature id ≡ some native
      → has_paid_online_or_offline_subscription m s ≡ true
      → get_user_feature id s ≡ some feature
      → feature.expires_at ≡ none
      → get_feature_status m now id s ≡ entitled
  unfolding get_feature_status is_feature_deprecated
  status_lem now id native feature s is_native paid held no_time =
      ground (arith, timeless_lem now feature s no_time, ap (λ o. status_of_feature m now o s) held)

  -- A subscriber whose native theme, or other item that is no component, comes without a time is
  -- told to be entitled to it at every time. But where the features that are mapped hold it, handled at
  -- any time but 0, the item that there is for it is not among the components that are left after all
  -- of them are mapped: without a time it counts as expired there.
  pub timeless-deleted :
      (type : ℕ) (native feature : FeatureDescription) (existing : Component) (s : FeaturesService)
      (features : List (FeatureDescription × ℕ)) (now next_uuid : ℕ)
      → m.find_native_feature feature.identifier ≡ some native
      → has_paid_online_or_offline_subscription m s ≡ true
      → get_user_feature feature.identifier s ≡ some feature
      → IsTimeless m feature type s.enabled_experimental_features
      → find (is_for feature.identifier) s.components ≡ some existing
      → Memᴰ (feature, now) features
      → 0 < now
      → ((at : ℕ) → get_feature_status m at feature.identifier s ≡ entitled)
        × (any
              (λ (c : Component). c.uuid == existing.uuid)
              (map_remote_native_features_to_items m features s.enabled_experimental_features
                next_uuid s.components).0
            ≡ false)
  unfolding map_remote_native_features_to_items
  timeless-deleted type native feature existing s features now next_uuid is_native paid held
        timeless there listed positive =
      (
        λ at.
            status_lem at feature.identifier native feature s is_native paid held timeless.no_time,
        any-delete_components m existing.uuid _ _ (
            map_features_reaches m existing.uuid now feature features
              s.enabled_experimental_features s.components _ listed deletes),
      )
    where
      deletes :
          (t : Mapping)
          → includes
              (map_native_feature_to_item m now feature s.enabled_experimental_features s.components
                t).items_to_delete
              existing.uuid
            ≡ true
      deletes t =
          subst (λ ids. includes ids existing.uuid ≡ true)
            (sym (
              ap (λ (l : Mapping). l.items_to_delete)
                (typed_lem now type feature s.enabled_experimental_features s.components t
                  timeless.typed timeless.shown)
              ∙ deletes_lem now type feature existing _ t positive timeless.no_time
                  timeless.no_component there))
            (includes-last m existing.uuid t.items_to_delete)
