-- ===== src/Features/Download.antt =====
-- Roles that the server announces, the features that follow from them, and experimental features.
use snjs.Prelude.{
  ℕ, ◌+◌, Bool, true, false, not, ◌&&◌, Option, none, some, List, [], ◌∷◌, ◌++◌, ◌==◌, map, filter,
  find, is_some, if◌then◌else◌, Result, ok, throw, ◌>>=◌,
}
use snjs.Features.{
  FeatureDescription, Component, FeatureModels, FeaturesService, features_updated, notify,
  set_roles, have_roles_changed, get_user_feature, is_experimental_feature_enabled,
}
use snjs.Features.Mapping.{map_remote_native_features_to_items, delete_components}

-- What the calls outside give: the time at which each feature is handled, and a first free uuid.
pub record Around : Type 0 where
  pub time_of : FeatureDescription → ℕ
  pub next_uuid : ℕ

module _ (m : FeatureModels) where
  open m use {find_native_feature, convert_timestamp_to_milliseconds, component_identifier}

  -- `convertTimestampToMilliseconds`, if there is a time that is not 0.
  abbrev pub converted : Option ℕ → Option ℕ
  converted none = none
  converted (some t) = if t == 0 then some t else some (convert_timestamp_to_milliseconds t)

  -- The native feature with the fields that the server decides.
  abbrev pub with_remote_fields : FeatureDescription → FeatureDescription → FeatureDescription
  with_remote_fields remote native = record native {
    expires_at = converted remote.expires_at;
    role_name = remote.role_name;
    no_expire = remote.no_expire;
    permission_name = remote.permission_name;
  }

  unfoldable pub map_remote_native_feature_to_static_feature :
      FeatureDescription → Result FeatureDescription
  map_remote_native_feature_to_static_feature remote =
      elim (find_native_feature remote.identifier) [
        | none ↦ throw "Attempting to map remote native to unfound static feature"
        | some native ↦ ok (with_remote_fields remote native)
      ]

  -- `features.map(...)`, which throws where one of them does.
  unfoldable pub map_all : List FeatureDescription → Result (List FeatureDescription)
  unfolding map_remote_native_feature_to_static_feature
  map_all [] = ok []
  map_all (f ∷ fs) = do
    f' ← map_remote_native_feature_to_static_feature f
    fs' ← map_all fs
    ok (f' ∷ fs')

  -- `mapRemoteNativeFeaturesToItems` on the service.
  unfoldable pub map_to_items : Around → List FeatureDescription → FeaturesService → FeaturesService
  unfolding map_remote_native_features_to_items
  map_to_items around features s =
      let (components, has_changes) =
        map_remote_native_features_to_items m (map (λ f. (f, around.time_of f)) features)
          s.enabled_experimental_features around.next_uuid s.components in
      let s' : FeaturesService = record s { components = components } in
      if has_changes then record s' { syncs = s'.syncs + 1 } else s'

  -- What is done with the features once they are mapped.
  unfoldable pub with_features :
      Around → List FeatureDescription → FeaturesService → FeaturesService
  unfolding map_to_items
  with_features around features s = map_to_items around features (record s {
    features = features;
    completed_successful_features_retrieval = true;
    events = s.events ++ features_updated ∷ [];
    stored_features = features;
  })

  unfoldable pub did_download_features :
      Around → List FeatureDescription → FeaturesService → Result FeaturesService
  unfolding map_all with_features
  did_download_features around features s = do
    features' ← map_all (filter (λ f. is_some (find_native_feature f.identifier)) features)
    ok (with_features around features' s)

  -- What follows once the roles are set. `response` is what getUserFeatures answers: none where it has
  -- an error or no data.
  abbrev pub fetch_features :
      Around → Option (List FeatureDescription) → FeaturesService → Result FeaturesService
  fetch_features around response s = if s.has_offline_repo then ok s else elim response [
    | none ↦ ok s
    | some features ↦ if s.deinited then ok s else did_download_features around features s
  ]

  unfoldable pub update_roles_and_fetch_features :
      (List ℕ → List ℕ → Bool)
      → Around
      → List ℕ
      → Option (List FeatureDescription)
      → FeaturesService
      → Result FeaturesService
  unfolding have_roles_changed set_roles did_download_features
  update_roles_and_fetch_features arrays_equal around roles response s =
      if not (have_roles_changed roles s) && not s.needs_initial_features_update
      then ok s
      else fetch_features around response
          (set_roles arrays_equal roles (record s { needs_initial_features_update = false }))

  unfoldable pub enable_experimental_feature : Around → ℕ → FeaturesService → Result FeaturesService
  unfolding get_user_feature map_to_items
  enable_experimental_feature around id s = elim (get_user_feature id s) [
    | none ↦ throw "Attempting to enable a feature user does not have access to."
    | some feature ↦
        let enabled = s.enabled_experimental_features ++ id ∷ [] in
        ok (
          notify features_updated (
            map_to_items around (feature ∷ []) (record s {
              enabled_experimental_features = enabled;
              stored_experimental_features = enabled;
            })))
  ]

  -- The deletion is given with the sync that follows it.
  abbrev pub delete_found : Option Component → FeaturesService → FeaturesService
  delete_found none s = s
  delete_found (some c) s =
      notify features_updated (record s {
        components = delete_components (c.uuid ∷ []) s.components;
        syncs = s.syncs + 1;
      })

  unfoldable pub disable_experimental_feature :
      (List ℕ → ℕ → List ℕ) → ℕ → FeaturesService → Result FeaturesService
  unfolding get_user_feature delete_components
  disable_experimental_feature remove_from_array id s = elim (get_user_feature id s) [
    | none ↦ throw "Attempting to disable a feature user does not have access to."
    | some feature ↦
        let enabled = remove_from_array s.enabled_experimental_features id in
        let s' : FeaturesService = record s {
          enabled_experimental_features = enabled;
          stored_experimental_features = enabled;
        } in
        ok (delete_found (find (λ c. component_identifier c == id) s'.components) s')
  ]

  unfoldable pub toggle_experimental_feature :
      (List ℕ → ℕ → List ℕ) → Around → ℕ → FeaturesService → Result FeaturesService
  unfolding is_experimental_feature_enabled enable_experimental_feature disable_experimental_feature
  toggle_experimental_feature remove_from_array around id s =
      if is_experimental_feature_enabled id s
      then disable_experimental_feature remove_from_array id s
      else enable_experimental_feature around id s
