-- ===== src/Features/Deletions.antt =====
-- The items to delete of the mapping only grow, and none of them is left after it.
use snjs.Prelude.{
  ℕ, ◌≡◌, refl, true, false, Option, none, some, List, [], ◌∷◌, ◌++◌, ◌==◌, find, if_intro, not,
  ◌||◌, ltb, arith, Bool, any, subst, ==_iff,
}
use snjs.Features.{FeatureDescription, Component, FeatureModels, includes}
use mathlib.Core.List.{Memᴰ}
use snjs.Features.Mapping.{
  Mapping, is_for, is_hidden, map_native_feature_to_item, map_typed, map_shown, map_existing,
  map_new, add_deletion, has_change, expiry, map_features, delete_components,
}

module _ (m : FeatureModels) where
  includes-append : (u : ℕ) (xs ys : List ℕ) → includes xs u ≡ true → includes (xs ++ ys) u ≡ true
  includes-append u [] ys h = absurd (ground (arith, h))
  includes-append u (x ∷ xs) ys h = ground (arith, h, includes-append u xs ys)

  pub includes-last : (u : ℕ) (xs : List ℕ) → includes (xs ++ u ∷ []) u ≡ true
  includes-last u [] = ground (arith, ==_iff u u)
  includes-last u (x ∷ xs) = ground (arith, includes-last u xs)

  add_deletion_keeps :
      (u : ℕ) (b : Bool) (uuid : ℕ) (s : Mapping)
      → includes s.items_to_delete u ≡ true
      → includes (add_deletion m b uuid s).items_to_delete u ≡ true
  add_deletion_keeps u false uuid s h = h
  add_deletion_keeps u true uuid s h = includes-append u s.items_to_delete _ h

  map_shown_keeps :
      (u now type : ℕ) (feature : FeatureDescription) (o : Option Component) (s : Mapping)
      → includes s.items_to_delete u ≡ true
      → includes (map_shown m now type feature o s).items_to_delete u ≡ true
  map_shown_keeps u now type feature (some existing) s h =
      add_deletion_keeps u _ existing.uuid (map_existing m feature existing s) (
        if_intro (λ (t : Mapping). includes t.items_to_delete u ≡ true)
          (has_change m feature existing) _ _ (λ _. h) (λ _. h))
  map_shown_keeps u now type feature none s h =
      if_intro (λ (t : Mapping). includes t.items_to_delete u ≡ true) feature.deprecated _ _
        (λ _. h)
        (λ _.
          if_intro (λ (t : Mapping). includes t.items_to_delete u ≡ true)
            (not (ltb (expiry feature) now) || (type == m.component_type)) _ _
            (λ _. add_deletion_keeps u _ s.next_uuid (map_new m type feature s) h) (λ _. h))

  map_native_keeps :
      (u now : ℕ) (feature : FeatureDescription) (enabled : List ℕ) (items : List Component)
      (s : Mapping)
      → includes s.items_to_delete u ≡ true
      → includes (map_native_feature_to_item m now feature enabled items s).items_to_delete u ≡ true
  unfolding map_native_feature_to_item
  map_native_keeps u now feature enabled items s h = go feature.content_type
    where
      go :
          (o : Option ℕ)
          → includes (map_typed m now o feature enabled items s).items_to_delete u ≡ true
      go none = h
      go (some type) =
          if_intro (λ (t : Mapping). includes t.items_to_delete u ≡ true)
            (is_hidden m feature enabled) _ _ (λ _. h)
            (λ _. map_shown_keeps u now type feature (find (is_for feature.identifier) items) s h)

  map_features_keeps :
      (u : ℕ) (features : List (FeatureDescription × ℕ)) (enabled : List ℕ) (items : List Component)
      (s : Mapping)
      → includes s.items_to_delete u ≡ true
      → includes (map_features m features enabled items s).items_to_delete u ≡ true
  unfolding map_features
  map_features_keeps u [] enabled items s h = h
  map_features_keeps u ((feature, now) ∷ features) enabled items s h =
      map_features_keeps u features enabled items _
        (map_native_keeps u now feature enabled items s h)

  -- A feature that puts `u` among the items to delete whenever it is handled does so in the loop.
  pub map_features_reaches :
      (u now : ℕ) (feature : FeatureDescription) (features : List (FeatureDescription × ℕ))
      (enabled : List ℕ) (items : List Component) (s : Mapping)
      → Memᴰ (feature, now) features
      → ((t : Mapping)
          → includes (map_native_feature_to_item m now feature enabled items t).items_to_delete u
            ≡ true)
      → includes (map_features m features enabled items s).items_to_delete u ≡ true
  unfolding map_features
  map_features_reaches u now feature [] enabled items s listed deletes = elim listed [ ]
  map_features_reaches u now feature ((f, n) ∷ features) enabled items s (Memᴰ.head same) deletes =
      map_features_keeps u features enabled items _ (
        subst
          (λ (x : FeatureDescription × ℕ).
            includes (map_native_feature_to_item m x.1 x.0 enabled items s).items_to_delete u
            ≡ true)
          same (deletes s))
  map_features_reaches u now feature ((f, n) ∷ features) enabled items s (Memᴰ.tail rest) deletes =
      map_features_reaches u now feature features enabled items _ rest deletes

  pub any-delete_components :
      (u : ℕ) (uuids : List ℕ) (components : List Component)
      → includes uuids u ≡ true
      → any (λ (c : Component). c.uuid == u) (delete_components uuids components) ≡ false
  unfolding delete_components
  any-delete_components u uuids [] h = refl
  any-delete_components u uuids (c ∷ cs) h =
      ground (arith, h, ==_iff c.uuid u, any-delete_components u uuids cs h)
