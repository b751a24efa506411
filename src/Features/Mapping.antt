-- ===== src/Features/Mapping.antt =====
-- Mapping of native features to components of the item manager. Changing an item replaces it, creating
-- adds one with a new uuid, and deletion takes those with the uuids away.
use snjs.Prelude.{
  ℕ, suc, Bool, true, false, not, ◌&&◌, ◌||◌, Option, none, some, List, [], ◌∷◌, ◌++◌, ◌==◌, ltb,
  map, filter, find, or_else, if◌then◌else◌,
}
use snjs.Features.{FeatureDescription, Component, FeatureModels, includes}

-- The variables of the loop: `changes` is `hasChanges`, `deleted` is `itemsToDelete`.
pub record Mapping : Type 0 where
  pub components : List Component
  pub items_to_delete : List ℕ
  pub has_changes : Bool
  pub next_uuid : ℕ

-- A feature with no time counts from the time 0.
abbrev pub expiry : FeatureDescription → ℕ
expiry f = or_else f.expires_at 0

abbrev pub is_for : ℕ → Component → Bool
is_for id c = elim c.package_info [ none ↦ false | some f ↦ f.identifier == id ]

abbrev pub updated : FeatureDescription → Component → Component
updated feature c = record c { package_info = some feature; valid_until = expiry feature }

unfoldable pub change_component : ℕ → (Component → Component) → List Component → List Component
change_component uuid mutate components =
    map (λ (c : Component). if c.uuid == uuid then mutate c else c) components

unfoldable pub delete_components : List ℕ → List Component → List Component
delete_components uuids components =
    filter (λ (c : Component). not (includes uuids c.uuid)) components

-- The content of a component that is created for a feature.
abbrev pub created : ℕ → ℕ → FeatureDescription → Component
created uuid content_type feature = record {
  uuid = uuid;
  content_type = content_type;
  package_info = some feature;
  valid_until = expiry feature;
}

module _ (m : FeatureModels) where
  open m use {experimental_features, component_type, same_json}

  unfoldable pub is_experimental_feature : ℕ → Bool
  is_experimental_feature id = includes experimental_features id

  abbrev pub has_change : FeatureDescription → Component → Bool
  has_change feature existing =
      not (same_json feature existing.package_info) || not (expiry feature == existing.valid_until)

  abbrev pub add_deletion : Bool → ℕ → Mapping → Mapping
  add_deletion false uuid s = s
  add_deletion true uuid s = record s {
    items_to_delete = s.items_to_delete ++ uuid ∷ [];
    has_changes = true;
  }

  -- The item that there is, changed where it has to be.
  abbrev pub map_existing : FeatureDescription → Component → Mapping → Mapping
  map_existing feature existing s =
      if has_change feature existing
      then record s {
        components = change_component existing.uuid (updated feature) s.components;
        has_changes = true;
      }
      else s

  abbrev pub map_new : ℕ → FeatureDescription → Mapping → Mapping
  map_new content_type feature s = record s {
    components = s.components ++ created s.next_uuid content_type feature ∷ [];
    has_changes = true;
    next_uuid = suc s.next_uuid;
  }

  -- What follows for a feature with a type of content that is shown.
  abbrev pub map_shown : ℕ → ℕ → FeatureDescription → Option Component → Mapping → Mapping
  map_shown now content_type feature (some existing) s =
      let expired = ltb (expiry feature) now in
      add_deletion (expired && not (content_type == component_type)) existing.uuid
        (map_existing feature existing s)
  map_shown now content_type feature none s =
      let expired = ltb (expiry feature) now in
      if feature.deprecated
      then s
      else if not expired || content_type == component_type
      then add_deletion (expired && not (content_type == component_type)) s.next_uuid
          (map_new content_type feature s)
      else s

  abbrev pub is_hidden : FeatureDescription → List ℕ → Bool
  is_hidden feature enabled_experimental_features =
      is_experimental_feature feature.identifier
      && not (includes enabled_experimental_features feature.identifier)

  abbrev pub map_typed :
      ℕ → Option ℕ → FeatureDescription → List ℕ → List Component → Mapping → Mapping
  map_typed now none feature enabled current_items s = s
  map_typed now (some content_type) feature enabled current_items s =
      if is_hidden feature enabled
      then s
      else map_shown now content_type feature (find (is_for feature.identifier) current_items) s

  unfoldable pub map_native_feature_to_item :
      ℕ → FeatureDescription → List ℕ → List Component → Mapping → Mapping
  unfolding is_experimental_feature
  map_native_feature_to_item now feature enabled current_items s =
      map_typed now feature.content_type feature enabled current_items s

  -- The loop; each feature comes with the time at which it is handled.
  unfoldable pub map_features :
      List (FeatureDescription × ℕ) → List ℕ → List Component → Mapping → Mapping
  unfolding map_native_feature_to_item
  map_features [] enabled current_items s = s
  map_features ((feature, now) ∷ features) enabled current_items s =
      map_features features enabled current_items
        (map_native_feature_to_item now feature enabled current_items s)

  -- The components that are left, and whether the call syncs.
  unfoldable pub map_remote_native_features_to_items :
      List (FeatureDescription × ℕ) → List ℕ → ℕ → List Component → List Component × Bool
  unfolding map_features delete_components
  map_remote_native_features_to_items features enabled next_uuid components =
      let s = map_features features enabled components (record {
        components = components;
        items_to_delete = [];
        has_changes = false;
        next_uuid = next_uuid;
      }) in
      (delete_components s.items_to_delete s.components, s.has_changes)
