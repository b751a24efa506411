-- ===== src/Items/Examples.antt =====
-- Tags in a collection where the newest of a uuid counts: work, with the child home, and a tag called spare.
use snjs.Prelude.{
  ℕ, ◌≤◌, ◌≡◌, ◌↔◌, ok, refl, String, Bool, true, Option, none, some, List, [], ◌∷◌, ◌==◌, ==_iff,
  subst, arith, find, find_lem, filter, false, if◌then◌else◌, ◌⊎◌, ◌∙◌, sym, map, Bool-cases, inl,
  inr,
}
use snjs.Items.Tags.{
  ItemModels, ItemLaws, ItemManager, find_item, find_system_smart_view, is_ancestor_from,
  change_tag, is_tag_ancestor, is_valid_tag_parent, set_tag_parent, parent_of,
}
use snjs.Items.Rooted.{Rooted, IsForest, Above}
use snjs.Items.Ancestors.{is_tag_ancestor-ends}
use snjs.Items.Forest.{Call, Reach, call, calls-IsForest}
use snjs.Items.Titles.{ListLaws, find_or_create_tag_parent_chain, get_tag_long_title}
use snjs.Items.FindOrCreate.{find_both_lem}
use snjs.Items.Hierarchy.{AreNew, find_or_create-titles}
use snjs.Items.Parent.{IsOutcome, set_tag_parent-IsOutcome}

abbrev Tag : Type 0
Tag = ℕ × String × Option ℕ

abbrev at : ℕ → List Tag → Option Tag
at u c = find (λ t. t.0 == u) c

abbrev put_some : Option Tag → List Tag → List Tag
put_some none ts = ts
put_some (some t) ts = t ∷ ts

-- What the uuids of a list lead to.
abbrev newest : List Tag → List Tag → List Tag
newest c [] = []
newest c (x ∷ xs) = put_some (at x.0 c) (newest c xs)

abbrev refers : Tag → Tag → Bool
refers p (u, name, none) = false
refers p (u, name, some v) = v == p.0

self_lem : (c : List Tag) (u : ℕ) (y : Tag) → at u c ≡ some y → at y.0 c ≡ some y
self_lem c u y there =
    subst (λ v. at v c ≡ some y) (sym ((==_iff y.0 u).0 (find_lem (λ t. t.0 == u) c y there))) there

first_or_later :
    (test : Tag → Bool) (y t : Tag) (rest : List Tag)
    → find test (y ∷ rest) ≡ some t
    → (some y ≡ some t) ⊎ (find test rest ≡ some t)
first_or_later test y t rest found = elim (Bool-cases (test y)) [
  | inl passes ↦ inl (subst (λ b. (if b then some y else find test rest) ≡ some t) passes found)
  | inr fails ↦ inr (subst (λ b. (if b then some y else find test rest) ≡ some t) fails found)
]

newest_at :
    (test : Tag → Bool) (c : List Tag) (u : ℕ) (o : Option Tag) (t : Tag) (rest : List Tag)
    → at u c ≡ o
    → find test (put_some o rest) ≡ some t
    → (find test rest ≡ some t → at t.0 c ≡ some t)
    → at t.0 c ≡ some t
newest_at test c u none t rest there found later = later found
newest_at test c u (some y) t rest there found later = elim (first_or_later test y t rest found) [
  | inl same ↦ self_lem c u t (there ∙ same)
  | inr found' ↦ later found'
]

newest_lem :
    (test : Tag → Bool) (c xs : List Tag) (t : Tag)
    → find test (newest c xs) ≡ some t
    → at t.0 c ≡ some t
newest_lem test c [] t found = ground arith
newest_lem test c (x ∷ xs) t found =
    newest_at test c x.0 _ t (newest c xs) refl found (newest_lem test c xs t)

abbrev models : ItemModels
models = record {
  Item = Tag;
  uuid = λ t. t.0;
  title = λ t. t.1;
  parent_id = λ t. t.2;
  make_child_of = λ t p. (t.0, t.1, some p.0);
  unset_parent = λ t. (t.0, t.1, none);
  create_tag_payload = λ u name. (u, name, none);
  Collection = List Tag;
  find_decrypted = λ u c. find (λ t. t.0 == u) c;
  emit_payload = λ t c. t ∷ c;
  displayable_tags = λ c. newest c c;
  tags_referencing = λ p c. filter (refers p) (newest c c);
  to_lower_case = λ s. s;
}

laws : ItemLaws models
laws = record {
  find_same = λ t c. ground (arith, ==_iff t.0 t.0);
  find_other = λ t c u other. ground arith;
  find_uuid = λ c u t found. (==_iff t.0 u).0 (find_lem (λ t. t.0 == u) c t found);
  uuid_child = λ t p. refl;
  parent_child = λ t p. refl;
  uuid_unset = λ t. refl;
  parent_unset = λ t. refl;
  uuid_created = λ u name. refl;
  parent_created = λ u name. refl;
}

abbrev work : Tag
work = (1, "work", none)

abbrev home : Tag
home = (2, "home", some 1)

abbrev spare : Tag
spare = (3, "spare", some 8)

abbrev manager : ItemManager models
manager = record { collection = work ∷ home ∷ spare ∷ []; system_smart_views = [] }

roots : Rooted models manager (some 1)
unfolding find_item
roots = Rooted.under 1 work refl refl (Rooted.top refl)

manager-IsForest : IsForest models manager
unfolding find_item find_system_smart_view
manager-IsForest u = elim (Bool-cases (1 == u)) [
  | inl same ↦ subst (λ v. Rooted models manager (some v)) ((==_iff 1 u).0 same) roots
  | inr no_work ↦ elim (Bool-cases (2 == u)) [
    | inl same ↦ Rooted.under u home refl (rw (no_work, same) refl) roots
    | inr no_home ↦ elim (Bool-cases (3 == u)) [
      | inl same ↦
          Rooted.under u spare refl (rw (no_work, no_home, same) refl) (Rooted.missing 8 refl refl)
      | inr no_spare ↦ Rooted.missing u refl (rw (no_work, no_home, no_spare) refl)
    ]
  ]
]

work_found : find_item models 1 manager ≡ some work
unfolding find_item
work_found = refl

abbrev under_spare : ItemManager models
under_spare = record manager { collection = (1, "work", some 3) ∷ manager.collection }

went : call models laws (Call.set_parent 5 spare work) manager ≡ some under_spare
unfolding call set_tag_parent is_tag_ancestor is_ancestor_from change_tag find_item
    find_system_smart_view
went = refl

lists : ListLaws models
lists = record {
  displayed = λ test c t found. newest_lem test c c t found;
  referencing = λ test p c t found.
      newest_lem _ c c t (sym (find_both_lem test (refers p) (newest c c)) ∙ found);
  title_created = λ u name. refl;
  title_child = λ t p. refl;
}

new : AreNew models laws lists ((7, "work") ∷ (8, "plans") ∷ []) manager
unfolding find_item find_system_smart_view
new = (refl, (refl, tt), (refl, tt, tt))

is_tag_ancestor-ends_example :
    (rounds : ℕ) × (answer : Bool) × ((n : ℕ)
      → rounds ≤ n
      → is_tag_ancestor models n work home manager ≡ some answer)
    × ((answer ≡ true) ↔ Above models manager 1 (parent_of models (find_item models 2 manager)))
is_tag_ancestor-ends_example = is_tag_ancestor-ends models manager manager-IsForest work home

set_tag_parent-IsSet_example :
    (rounds : ℕ) × (valid : Bool) × ((n : ℕ)
      → rounds ≤ n
      → (is_valid_tag_parent models n home work manager ≡ some valid)
        × IsOutcome models valid home work work manager (set_tag_parent models n home work manager))
set_tag_parent-IsSet_example =
    set_tag_parent-IsOutcome models laws manager home work work manager-IsForest work_found

calls-IsForest_example : IsForest models under_spare
calls-IsForest_example =
    calls-IsForest models laws manager under_spare
      (Reach.then_call (Call.set_parent 5 spare work) Reach.start tt went) manager-IsForest

-- The root is found, and a tag below it is made.
find_or_create-titles_example :
    (s' : ItemManager models) × (tag : Tag) × (find_or_create_tag_parent_chain models
        ((7, "work") ∷ (8, "plans") ∷ [])
        manager
      ≡ (s', ok (some tag)))
    × (rounds : ℕ) × (long : List String) × ((n : ℕ)
        → rounds ≤ n
        → get_tag_long_title models n tag s' ≡ some long)
    × (map (λ name. name) long ≡ "work" ∷ "plans" ∷ [])
find_or_create-titles_example =
    find_or_create-titles models laws lists 7 "work" ((8, "plans") ∷ []) manager new
