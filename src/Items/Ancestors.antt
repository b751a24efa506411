-- ===== src/Items/Ancestors.antt =====
-- `isTagAncestor` on a hierarchy of tags without cycles.
use snjs.Prelude.{ℕ, suc, zero, ◌≤◌, Bool, true, ◌≡◌, ◌↔◌, refl, ◌∙◌, Option, none, some, arith}
use snjs.Items.Tags.{
  ItemModels, ItemManager, find_item, parent_of, is_ancestor_from, is_tag_ancestor,
}
use snjs.Items.Rooted.{Rooted, IsForest, Above, ends_lem, above_lem, Answers}

module _ (m : ItemModels) where
  open m use {Item, uuid, parent_id, make_child_of, unset_parent, create_tag_payload}

  pub rooted_lem : (s : ItemManager m) → IsForest m s → (parent : Option ℕ) → Rooted m s parent
  rooted_lem s forest none = Rooted.top refl
  rooted_lem s forest (some u) = forest u

  ancestor_lem :
      (rounds : ℕ) (tag child : Item) (s : ItemManager m) (o : Option Item)
      → find_item m (uuid child) s ≡ o
      → is_tag_ancestor m (suc rounds) tag child s
        ≡ is_ancestor_from m (suc rounds) (uuid tag) (parent_of m o) s
  unfolding is_tag_ancestor is_ancestor_from
  ancestor_lem rounds tag child s none here = ground arith
  ancestor_lem rounds tag child s (some item) here = ground arith

  tag_ends :
      (rounds : ℕ) (answer : Bool) (tag child : Item) (s : ItemManager m)
      → Answers m rounds (uuid tag) answer s (parent_of m (find_item m (uuid child) s))
      → (n : ℕ) → suc rounds ≤ n
      → is_tag_ancestor m n tag child s ≡ some answer
  tag_ends rounds answer tag child s ends zero enough = ground arith
  tag_ends rounds answer tag child s ends (suc n) enough =
      ancestor_lem n tag child s _ refl ∙ ends (suc n) (omega arith)

  -- Where no parents go round, `isTagAncestor` ends for any two tags: some number of rounds is enough,
  -- every larger one gives the same answer, and the answer is yes exactly if the first tag is among
  -- the parents that follow from the second.
  pub is_tag_ancestor-ends :
      (s : ItemManager m)
      → IsForest m s
      → (tag child : Item)
      → (rounds : ℕ) × (answer : Bool) × ((n : ℕ)
          → rounds ≤ n
          → is_tag_ancestor m n tag child s ≡ some answer)
        × ((answer ≡ true) ↔ Above m s (uuid tag) (parent_of m (find_item m (uuid child) s)))
  is_tag_ancestor-ends s forest tag child =
      let start = parent_of m (find_item m (uuid child) s) in
      let (rounds, answer, ends, holds) =
        ends_lem m (uuid tag) s start (rooted_lem s forest start) in
      (
        suc rounds,
        answer,
        tag_ends rounds answer tag child s ends,
        (holds, above_lem m rounds (uuid tag) start s answer (ends rounds (omega arith))),
      )
