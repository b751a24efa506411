-- ===== src/ItemGroup.antt =====
-- The open item controllers of a client (packages/snjs/lib/Client/ItemGroupController.ts). A controller
-- and an observer are numbers; what the controllers do themselves is left out, but for the calls of
-- their `deinit`, which are logged. `remove_from_array` belongs to @standardnotes/utils.
pub mod Single
mod Examples
use snjs.Prelude.{
  ℕ, zero, suc, Bool, true, false, Option, none, some, List, [], ◌∷◌, ◌++◌, map, length, get_elem?,
  if◌then◌else◌,
}

pub record ItemGroup : Type 0 where
  pub item_controllers : List ℕ
  pub add_tag_hierarchy : Bool
  pub change_observers : List ℕ
  -- what the observers were called with
  pub notified : List (ℕ × Option ℕ)
  -- the controllers that were deinitialised
  pub closed : List ℕ
  pub next_controller : ℕ
  -- whether `initialize` of each new controller was told to add the tag hierarchy
  pub initialized : List (ℕ × Bool)

abbrev pub first {ℓ} : {A : Type ℓ} → List A → Option A
first [] = none
first (x ∷ xs) = some x

abbrev pub active_item_view_controller : ItemGroup → Option ℕ
active_item_view_controller s = first s.item_controllers

unfoldable pub notify_observers : ItemGroup → ItemGroup
notify_observers s = record s {
  notified = s.notified ++ map (λ o. (o, active_item_view_controller s)) s.change_observers;
}

unfoldable pub add_active_controller_change_observer : ℕ → ItemGroup → ItemGroup
add_active_controller_change_observer callback s = record s {
  change_observers = s.change_observers ++ callback ∷ [];
  notified = elim (active_item_view_controller s) [
    | none ↦ s.notified
    | some c ↦ s.notified ++ (callback, some c) ∷ []
  ];
}

module _ (remove_from_array : List ℕ → ℕ → List ℕ) where
  unfoldable pub close_item_controller : ℕ → Bool → ItemGroup → ItemGroup
  unfolding notify_observers
  close_item_controller controller notify s =
      let s' : ItemGroup = record s {
        closed = s.closed ++ controller ∷ [];
        item_controllers = remove_from_array s.item_controllers controller;
      } in
      if notify then notify_observers s' else s'

  abbrev pub close_active : Bool → Option ℕ → ItemGroup → ItemGroup
  close_active notify none s = s
  close_active notify (some active) s = close_item_controller active notify s

  unfoldable pub close_active_item_controller : ItemGroup → ItemGroup
  unfolding close_item_controller
  close_active_item_controller s = close_active true (active_item_view_controller s) s

  -- `createItemController` up to where it awaits the initialisation of the controller.
  unfoldable pub begin_create_item_controller : ItemGroup → ItemGroup
  unfolding close_item_controller
  begin_create_item_controller s =
      let s' = close_active false (active_item_view_controller s) s in
      record s' {
        item_controllers = s'.item_controllers ++ s'.next_controller ∷ [];
        next_controller = suc s'.next_controller;
        initialized = s'.initialized ++ (s'.next_controller, s'.add_tag_hierarchy) ∷ [];
      }

  -- A loop over the array itself: the index goes on while closing takes elements out. The loop ends
  -- at the first index that is out of bounds, and each round takes an element.
  unfoldable pub close_from : ℕ → ℕ → ItemGroup → ItemGroup
  unfolding close_item_controller
  close_from zero index s = s
  close_from (suc rounds) index s = elim (get_elem? s.item_controllers index) [
    | none ↦ s
    | some controller ↦ close_from rounds (suc index) (close_item_controller controller false s)
  ]

  unfoldable pub close_all_item_controllers : ItemGroup → ItemGroup
  unfolding close_from notify_observers
  close_all_item_controllers s = notify_observers (close_from (length s.item_controllers) 0 s)

  unfoldable pub deinit : ItemGroup → ItemGroup
  unfolding close_from
  deinit s =
      let s' : ItemGroup = record s { change_observers = [] } in
      let s'' = close_from (length s'.item_controllers) 0 s' in record s'' { item_controllers = [] }
