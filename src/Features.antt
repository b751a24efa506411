-- ===== src/Features.antt =====
-- The features that a user is entitled to (packages/snjs/lib/Services/Features/FeaturesService.ts).
pub mod Roles
pub mod Status
pub mod Mapping
pub mod Deletions
pub mod Timeless
pub mod Download
pub mod Silent
mod Examples
-- Identifiers, roles and types of content are numbers, as they are only compared; times are in
-- milliseconds. What @standardnotes/features, common and utils give is a parameter.
use snjs.Prelude.{
  ℕ, String, Bool, true, false, not, ◌&&◌, ◌||◌, Option, none, some, List, [], ◌∷◌, ◌++◌, ◌==◌, ltb,
  leb, map, filter, find, any, is_some, is_empty, or_else, index_of, if◌then◌else◌, Result, ok,
  throw, ◌>>=◌,
}

pub data FeatureStatus : Type 0 where
  no_user_subscription not_in_current_plan in_current_plan_but_expired entitled : FeatureStatus

pub data FeaturesEvent : Type 0 where
  user_roles_changed features_updated : FeaturesEvent

pub record FeatureDescription : Type 0 where
  pub identifier : ℕ
  pub content_type : Option ℕ
  pub deprecated : Bool
  pub expires_at : Option ℕ
  pub role_name : ℕ
  pub no_expire : Bool
  pub permission_name : ℕ

-- A component or theme of the item manager.
pub record Component : Type 0 where
  pub uuid : ℕ
  pub content_type : ℕ
  pub package_info : Option FeatureDescription
  pub valid_until : ℕ

pub record FeatureModels : Type 0 where
  pub find_native_feature : ℕ → Option FeatureDescription
  pub convert_timestamp_to_milliseconds : ℕ → ℕ
  pub experimental_features : List ℕ
  -- The values of RoleName, in their order, and CoreUser.
  pub all_roles : List ℕ
  pub core_user : ℕ
  pub last_element : List ℕ → Option ℕ
  -- ContentType.Component
  pub component_type : ℕ
  -- whether JSON.stringify gives the same for both
  pub same_json : FeatureDescription → Option FeatureDescription → Bool
  -- `item.identifier` and `item.isExpired` of a component
  pub component_identifier : Component → ℕ
  pub is_expired_component : Component → Bool

-- The item manager is known by its components and by whether it has an offline repo.
pub record FeaturesService : Type 0 where
  pub roles : List ℕ
  pub features : List FeatureDescription
  pub enabled_experimental_features : List ℕ
  pub needs_initial_features_update : Bool
  pub completed_successful_features_retrieval : Bool
  pub deinited : Bool
  pub has_offline_repo : Bool
  pub components : List Component
  pub stored_roles : List ℕ
  pub stored_features : List FeatureDescription
  pub stored_experimental_features : List ℕ
  pub events : List FeaturesEvent
  pub syncs : ℕ

-- `array.includes(value)`
abbrev pub includes : List ℕ → ℕ → Bool
includes xs x = any (λ y. y == x) xs

abbrev pub notify : FeaturesEvent → FeaturesService → FeaturesService
notify event s = record s { events = s.events ++ event ∷ [] }

unfoldable pub get_user_feature : ℕ → FeaturesService → Option FeatureDescription
get_user_feature id s = find (λ f. f.identifier == id) s.features

unfoldable pub is_experimental_feature_enabled : ℕ → FeaturesService → Bool
is_experimental_feature_enabled id s = includes s.enabled_experimental_features id

-- What the storage service gives for the three keys.
unfoldable pub initialize_from_disk : FeaturesService → FeaturesService
initialize_from_disk s = record s {
  roles = s.stored_roles;
  features = s.stored_features;
  enabled_experimental_features = s.stored_experimental_features;
}

-- `arraysEqual` of the roles with themselves, as the code compares them after the assignment.
unfoldable pub set_roles : (List ℕ → List ℕ → Bool) → List ℕ → FeaturesService → FeaturesService
set_roles arrays_equal roles s =
    let s' : FeaturesService = record s { roles = roles } in
    let s'' = if not (arrays_equal s'.roles roles) then notify user_roles_changed s' else s' in
    record s'' { stored_roles = s''.roles }

unfoldable pub have_roles_changed : List ℕ → FeaturesService → Bool
have_roles_changed roles s =
    any (λ r. not (includes s.roles r)) roles || any (λ r. not (includes roles r)) s.roles

module _ (m : FeatureModels) where
  open m use {
    find_native_feature, convert_timestamp_to_milliseconds, experimental_features, all_roles,
    core_user, last_element, component_type, same_json, component_identifier, is_expired_component,
  }

  unfoldable pub has_online_subscription : FeaturesService → Bool
  has_online_subscription s = any (λ role. not (includes (core_user ∷ []) role)) s.roles

  unfoldable pub has_paid_online_or_offline_subscription : FeaturesService → Bool
  unfolding has_online_subscription
  has_paid_online_or_offline_subscription s = has_online_subscription s || s.has_offline_repo

  unfoldable pub roles_by_sorting : List ℕ → List ℕ
  roles_by_sorting roles = filter (λ role. includes roles role) all_roles

  -- `i <= j` on what `indexOf` gives: none is -1.
  abbrev pub index_leq : Option ℕ → Option ℕ → Bool
  index_leq none j = true
  index_leq (some i) none = false
  index_leq (some i) (some j) = leb i j

  abbrev pub index_of_defined : Option ℕ → Option ℕ
  index_of_defined none = none
  index_of_defined (some role) = index_of all_roles role

  unfoldable pub has_minimum_role : ℕ → FeaturesService → Bool
  unfolding roles_by_sorting
  has_minimum_role role s =
      let highest_user_role_index = index_of_defined (last_element (roles_by_sorting s.roles)) in
      index_leq (index_of all_roles role) highest_user_role_index

  unfoldable pub is_feature_deprecated : ℕ → Bool
  is_feature_deprecated id = elim (find_native_feature id) [ none ↦ false | some f ↦ f.deprecated ]

  -- `feature.expires_at && feature.expires_at < now`; the time 0 counts as missing.
  abbrev pub has_expired : ℕ → Option ℕ → Bool
  has_expired now none = false
  has_expired now (some t) = not (t == 0) && ltb t now

  abbrev pub status_of_component : Option Component → FeatureStatus
  status_of_component none = no_user_subscription
  status_of_component (some c) =
      if is_expired_component c then in_current_plan_but_expired else entitled

  abbrev pub status_of_feature : ℕ → Option FeatureDescription → FeaturesService → FeatureStatus
  status_of_feature now none s = not_in_current_plan
  status_of_feature now (some f) s =
      if has_expired now f.expires_at
      then (if not (includes s.roles f.role_name)
          then not_in_current_plan
          else in_current_plan_but_expired)
      else entitled

  unfoldable pub get_feature_status : ℕ → ℕ → FeaturesService → FeatureStatus
  unfolding is_feature_deprecated has_paid_online_or_offline_subscription get_user_feature
  get_feature_status now id s =
      if is_feature_deprecated id
      then (if has_paid_online_or_offline_subscription s then entitled else no_user_subscription)
      else if not (is_some (find_native_feature id))
      then status_of_component (find (λ c. component_identifier c == id) s.components)
      else if not (has_paid_online_or_offline_subscription s)
      then no_user_subscription
      else if not s.completed_successful_features_retrieval && is_empty s.features
      then entitled
      else status_of_feature now (get_user_feature id s) s
