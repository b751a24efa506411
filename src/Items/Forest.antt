-- ===== src/Items/Forest.antt =====
-- The hierarchy of tags has no cycles, and the calls of ItemManager.ts keep it so.
use snjs.Prelude.{ℕ, ◌≡◌, ◌≢◌, subst, String, Option, none, some}
use snjs.Items.Tags.{
  ItemModels, ItemLaws, ItemManager, Change, set_tag_parent, unset_tag_parent, create_tag,
}
use snjs.Items.Rooted.{IsForest}
use snjs.Items.Changes.{Kept, HasNoChild, set_tag_parent-IsForest, unset-IsForest, create-IsForest}

module _ (m : ItemModels) where
  open m use {Item, uuid, parent_id, make_child_of, unset_parent, create_tag_payload}

  module _ (laws : ItemLaws m) where
    open laws use {uuid_child, parent_child, uuid_unset, parent_unset, uuid_created, parent_created}

    -- A call that changes the hierarchy. What is created has a new uuid.
    pub data Call : Type 0 where
      set_parent : ℕ → Item → Item → Call
      unset_parent_of : Item → Call
      create : ℕ → String → Option Item → Call

    abbrev pub state_of : Option (Change m) → Option (ItemManager m)
    state_of none = none
    state_of (some change) = some change.0

    unfoldable pub call : Call → ItemManager m → Option (ItemManager m)
    unfolding set_tag_parent unset_tag_parent create_tag
    call (Call.set_parent rounds parent child) s = state_of (set_tag_parent m rounds parent child s)
    call (Call.unset_parent_of child) s = some (unset_tag_parent m child s).0
    call (Call.create u name parent) s = some (create_tag m u name parent s).0

    abbrev pub Allowed : Call → ItemManager m → Type 0
    Allowed (Call.create u name parent) s =
        HasNoChild m laws u s × ((item : Item) → parent ≡ some item → uuid item ≢ u)
    Allowed _ s = Unit {0}

    -- The states that calls lead to, one after the other.
    pub data Reach (s : ItemManager m) : ItemManager m → Type 0 where
      start : Reach s s
      then_call :
          {s' s'' : ItemManager m} (c : Call)
          → Reach s s'
          → Allowed c s'
          → call c s' ≡ some s''
          → Reach s s''

    abbrev Left : Option (ItemManager m) → Type 0
    Left none = Unit {0}
    Left (some s) = IsForest m s

    left_lem : (o : Option (Change m)) → Kept m laws o → Left (state_of o)
    left_lem none kept = tt
    left_lem (some change) kept = kept

    call-Left : (c : Call) (s : ItemManager m) → IsForest m s → Allowed c s → Left (call c s)
    unfolding call
    call-Left (Call.set_parent rounds parent child) s forest allowed =
        left_lem _ (set_tag_parent-IsForest m laws rounds parent child s forest)
    call-Left (Call.unset_parent_of child) s forest allowed = unset-IsForest m laws child s forest
    call-Left (Call.create u name parent) s forest allowed =
        create-IsForest m laws u name parent s forest allowed.0 allowed.1

    -- From a hierarchy without cycles, any sequence of calls that set a parent, take one away or
    -- create a tag, whether they succeed or throw, leads to a hierarchy without cycles: from every
    -- uuid on the parents end. A tag is created with a uuid that neither is the parent's nor is a
    -- parent's of any item.
    pub calls-IsForest : (s s' : ItemManager m) → Reach s s' → IsForest m s → IsForest m s'
    calls-IsForest s s' Reach.start forest = forest
    calls-IsForest s s' (Reach.then_call c reach allowed went) forest =
        subst Left went (call-Left c _ (calls-IsForest s _ reach forest) allowed)
