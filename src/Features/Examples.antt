-- ===== src/Features/Examples.antt =====
-- Three roles, a native theme and a user with the middle role.
use snjs.Prelude.{
  ℕ, ◌≡◌, refl, true, false, none, some, List, [], ◌∷◌, ◌++◌, ◌==◌, ok, if◌then◌else◌, any, arith,
}
use snjs.Features.{
  FeatureDescription, Component, FeatureModels, FeaturesService, entitled, get_feature_status,
  get_user_feature, has_online_subscription, has_paid_online_or_offline_subscription,
}
use mathlib.Core.List.Memᴰ
use snjs.Features.Roles.{last}
use snjs.Features.Status.{IsFair, get_feature_status-IsFair}
use snjs.Features.Mapping.{map_remote_native_features_to_items, is_experimental_feature}
use snjs.Features.Timeless.{IsTimeless, timeless-deleted}
use snjs.Features.Download.{update_roles_and_fetch_features}
use snjs.Features.Silent.{IsUpdated, update_roles-IsUpdated}

abbrev theme : FeatureDescription
theme = record {
  identifier = 5;
  content_type = some 30;
  deprecated = false;
  expires_at = none;
  role_name = 2;
  no_expire = true;
  permission_name = 1;
}

abbrev models : FeatureModels
models = record {
  find_native_feature = λ id. if id == 5 then some theme else none;
  convert_timestamp_to_milliseconds = λ t. t;
  experimental_features = [];
  all_roles = 1 ∷ 2 ∷ 3 ∷ [];
  core_user = 1;
  last_element = last;
  component_type = 20;
  same_json = λ f o. false;
  component_identifier = λ c. c.uuid;
  is_expired_component = λ c. false;
}

abbrev item : Component
item = record { uuid = 8; content_type = 30; package_info = some theme; valid_until = 0 }

abbrev service : FeaturesService
service = record {
  roles = 2 ∷ 1 ∷ [];
  features = theme ∷ [];
  enabled_experimental_features = [];
  needs_initial_features_update = true;
  completed_successful_features_retrieval = false;
  deinited = false;
  has_offline_repo = false;
  components = item ∷ [];
  stored_roles = [];
  stored_features = [];
  stored_experimental_features = [];
  events = [];
  syncs = 0;
}

last-append : (xs : List ℕ) (x : ℕ) → last (xs ++ x ∷ []) ≡ some x
last-append [] x = refl
last-append (y ∷ xs) x = rw (last-append xs x) refl

get_feature_status-IsFair_example : IsFair models 5 service
get_feature_status-IsFair_example = get_feature_status-IsFair models 5 theme service refl

update_roles-IsUpdated_example :
    (s' : FeaturesService) × (update_roles_and_fetch_features models
        (λ xs ys. true)
        (record { time_of = λ f. 100; next_uuid = 9 })
        (3 ∷ [])
        (some (theme ∷ []))
        service
      ≡ ok s')
    × IsUpdated models (3 ∷ []) service s'
update_roles-IsUpdated_example =
    update_roles-IsUpdated models (λ xs ys. true) (λ xs. refl)
      (record { time_of = λ f. 100; next_uuid = 9 }) (3 ∷ []) (some (theme ∷ [])) service

paid : has_paid_online_or_offline_subscription models service ≡ true
unfolding has_paid_online_or_offline_subscription has_online_subscription
paid = refl

held : get_user_feature 5 service ≡ some theme
unfolding get_user_feature
held = refl

theme-IsTimeless : IsTimeless models theme 30 []
unfolding is_experimental_feature
theme-IsTimeless = record { typed = refl; no_component = refl; no_time = refl; shown = refl }

-- A component comes first.
abbrev editor : FeatureDescription
editor = record theme { identifier = 6; content_type = some 20; expires_at = some 900 }

abbrev remote : List (FeatureDescription × ℕ)
remote = (editor, 100) ∷ (theme, 101) ∷ []

timeless-deleted_example :
    ((at : ℕ) → get_feature_status models at 5 service ≡ entitled)
    × (any
          (λ (c : Component). c.uuid == 8)
          (map_remote_native_features_to_items models remote [] 9 (item ∷ [])).0
        ≡ false)
timeless-deleted_example =
    timeless-deleted models 30 theme theme item service remote 101 9 refl paid held theme-IsTimeless
      refl (Memᴰ.tail (Memᴰ.head refl)) (omega arith)
