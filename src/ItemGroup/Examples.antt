-- ===== src/ItemGroup/Examples.antt =====
-- Two controllers created one after the other.
use snjs.Prelude.{ℕ, ◌<◌, ◌≡◌, true, List, [], ◌∷◌, arith, ==_iff}
use snjs.Samples.{remove_from_array}
use snjs.ItemGroup.{ItemGroup, close_all_item_controllers}
use snjs.ItemGroup.Single.{IsSingle, Call, Reach, call, occurrences, close_all-closes}

abbrev group : ItemGroup
group = record {
  item_controllers = [];
  add_tag_hierarchy = true;
  change_observers = 7 ∷ [];
  notified = [];
  closed = [];
  next_controller = 0;
  initialized = [];
}

group-IsSingle : IsSingle group
group-IsSingle = record { one_open = omega arith; accounted = λ c. ground arith }

removes_first : (c : ℕ) (cs : List ℕ) → remove_from_array (c ∷ cs) c ≡ cs
removes_first c cs = ground (arith, ==_iff c c)

abbrev second : ItemGroup
second = call remove_from_array Call.create (call remove_from_array Call.create group)

close_all-closes_example :
    IsSingle second
    × ((close_all_item_controllers remove_from_array second).item_controllers ≡ [])
    × ((c : ℕ)
        → c < (close_all_item_controllers remove_from_array second).next_controller
        → occurrences c (close_all_item_controllers remove_from_array second).closed ≡ 1)
close_all-closes_example =
    close_all-closes remove_from_array removes_first group second group-IsSingle (
      Reach.next Call.create _ (Reach.next Call.create group Reach.start (omega arith))
        (omega arith))
