-- ===== src/Features/Roles.antt =====
-- Which roles are at least as high as another.
use snjs.Prelude.{
  ℕ, suc, ◌≤◌, ◌≡◌, ◌↔◌, ◌⊎◌, refl, sym, ◌∙◌, ap, Bool, true, false, Option, none, some, List, [],
  ◌∷◌, ◌++◌, ◌==◌, ==_iff, filter, index_of, leb→le, arith, Option-cases, Bool-cases, inl, inr,
}
use snjs.Features.{
  FeatureModels, FeaturesService, includes, index_of_defined, index_leq, roles_by_sorting,
  has_minimum_role,
}

-- The enumeration lists each of its values once.
abbrev pub Distinct : List ℕ → Type 0
Distinct [] = Unit {0}
Distinct (x ∷ xs) = (index_of xs x ≡ none) × Distinct xs

abbrev pub last : List ℕ → Option ℕ
last [] = none
last (x ∷ xs) = elim (last xs) [ none ↦ some x | some y ↦ some y ]

-- The last of those that pass is listed, passes, and no later one passes.
record IsLast (test : ℕ → Bool) (xs : List ℕ) (y j : ℕ) : Type 0 where
  passes : test y ≡ true
  at : index_of xs y ≡ some j
  after : (z k : ℕ) → index_of xs z ≡ some k → test z ≡ true → k ≤ j

NonePasses : (ℕ → Bool) → List ℕ → Type 0
NonePasses test xs = (z k : ℕ) → index_of xs z ≡ some k → test z ≡ false

cons_lem :
    (x z k : ℕ) (xs : List ℕ)
    → index_of (x ∷ xs) z ≡ some k
    → ((x ≡ z) × (k ≡ 0)) ⊎ ((i : ℕ) × (index_of xs z ≡ some i) × (k ≡ suc i))
cons_lem x z k xs here = elim (Bool-cases (x == z)) [
  | inl same ↦ inl ((==_iff x z).0 same, ground arith)
  | inr differs ↦ elim (Option-cases (index_of xs z)) [
    | inl gone ↦ ground arith
    | inr (i, there) ↦ inr (i, there, ground arith)
  ]
]

below_first :
    (x z k : ℕ) (xs : List ℕ) (test : ℕ → Bool)
    → NonePasses test xs
    → index_of (x ∷ xs) z ≡ some k
    → test z ≡ true
    → k ≤ 0
unfolding NonePasses
below_first x z k xs test fails here is = elim (cons_lem x z k xs here) [
  | inl (same, first) ↦ omega (arith, first)
  | inr (i, there, later) ↦ ground (arith, fails z i there)
]

none_cons :
    (x z k : ℕ) (xs : List ℕ) (test : ℕ → Bool)
    → NonePasses test xs
    → test x ≡ false
    → index_of (x ∷ xs) z ≡ some k
    → test z ≡ false
unfolding NonePasses
none_cons x z k xs test fails not_passing here = elim (cons_lem x z k xs here) [
  | inl (same, first) ↦ sym (ap test same) ∙ not_passing
  | inr (i, there, later) ↦ fails z i there
]

below_last :
    (x z k j : ℕ) (xs : List ℕ) (test : ℕ → Bool)
    → ((z k : ℕ) → index_of xs z ≡ some k → test z ≡ true → k ≤ j)
    → index_of (x ∷ xs) z ≡ some k
    → test z ≡ true
    → k ≤ suc j
below_last x z k j xs test after here is = elim (cons_lem x z k xs here) [
  | inl (same, first) ↦ omega (arith, first)
  | inr (i, there, later) ↦ omega (arith, later, after z i there is)
]

last_lem :
    (test : ℕ → Bool) (xs : List ℕ)
    → Distinct xs
    → ((last (filter test xs) ≡ none) × NonePasses test xs)
      ⊎ ((y : ℕ) × (j : ℕ) × (last (filter test xs) ≡ some y) × IsLast test xs y j)
unfolding NonePasses
last_lem test [] distinct = inl (refl, λ z k here. ground arith)
last_lem test (x ∷ xs) distinct = elim (last_lem test xs distinct.1) [
  | inl (nothing, fails) ↦ elim (Bool-cases (test x)) [
    | inl passes ↦ inr (
      x,
      0,
      ground arith,
      record {
        passes = passes;
        at = ground (arith, ==_iff x x);
        after = λ z k here is. below_first x z k xs test fails here is;
      },
    )
    | inr not_passing ↦
        inl (ground arith, λ z k here. none_cons x z k xs test fails not_passing here)
  ]
  | inr (y, j, found, is_last) ↦ inr (
    y,
    suc j,
    ground (arith, found),
    record {
      passes = is_last.passes;
      at = ground (arith, ==_iff x y, is_last.at, distinct.0);
      after = λ z k here is. below_last x z k j xs test is_last.after here is;
    },
  )
]

module _ (m : FeatureModels) where
  open m use {all_roles, last_element}

  -- `lastElement` of @standardnotes/utils
  pub record LastLaws : Type 0 where
    pub of_empty : last_element [] ≡ none
    pub of_append : (xs : List ℕ) (x : ℕ) → last_element (xs ++ x ∷ []) ≡ some x

  snoc_lem :
      (x : ℕ) (xs : List ℕ)
      → (ys : List ℕ) × (y : ℕ) × (x ∷ xs ≡ ys ++ y ∷ []) × (last (x ∷ xs) ≡ some y)
  snoc_lem x [] = ([], x, refl, refl)
  snoc_lem x (z ∷ zs) =
      let (ys, y, shape, is_last) = snoc_lem z zs in
      (x ∷ ys, y, ap (λ l. x ∷ l) shape, rw is_last refl)

  last_element_lem : LastLaws → (xs : List ℕ) → last_element xs ≡ last xs
  last_element_lem laws [] = laws.of_empty
  last_element_lem laws (x ∷ xs) =
      let (ys, y, shape, is_last) = snoc_lem x xs in
      ap last_element shape ∙ laws.of_append ys y ∙ sym is_last

  highest_lem :
      LastLaws
      → (role i : ℕ) (s : FeaturesService) (o : Option ℕ) → index_of all_roles role ≡ some i
      → last (filter (includes s.roles) all_roles) ≡ o
      → has_minimum_role m role s ≡ index_leq m (some i) (index_of_defined m o)
  unfolding has_minimum_role roles_by_sorting
  highest_lem laws role i s o listed found =
      ap (λ k. index_leq m k (index_of_defined m (last_element (roles_by_sorting m s.roles))))
        listed
      ∙ ap (λ l. index_leq m (some i) (index_of_defined m l))
          (last_element_lem laws (filter (includes s.roles) all_roles) ∙ found)

  -- One of the user's roles that is listed stands at this place or a later one.
  abbrev pub HasRoleFrom : ℕ → FeaturesService → Type 0
  HasRoleFrom i s =
      (r : ℕ) × (j : ℕ) × (includes s.roles r ≡ true) × (index_of all_roles r ≡ some j) × (i ≤ j)

  -- Where the enumeration of roles has no value twice, and for a role that it lists: the user has at
  -- least that role exactly if one of the user's roles stands at its place or after it.
  pub has_minimum_role_iff :
      LastLaws
      → Distinct all_roles
      → (role i : ℕ) (s : FeaturesService) → index_of all_roles role ≡ some i
      → (has_minimum_role m role s ≡ true) ↔ HasRoleFrom i s
  unfolding NonePasses
  has_minimum_role_iff laws distinct role i s listed =
      elim (last_lem (includes s.roles) all_roles distinct) [
        | inl (nothing, fails) ↦
            let lowest = highest_lem laws role i s none listed nothing in
            (λ holds. ground arith, λ from. ground (arith, fails from.0 from.1 from.3))
        | inr (y, j, found, is_last) ↦
            let highest =
              highest_lem laws role i s (some y) listed found
              ∙ ap (λ k. index_leq m (some i) k) is_last.at in
            (
              λ holds. (y, j, is_last.passes, is_last.at, leb→le i j (sym highest ∙ holds)),
              λ from. ground (arith, is_last.after from.0 from.1 from.3 from.2),
            )
      ]
