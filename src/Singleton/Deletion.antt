-- ===== src/Singleton/Deletion.antt =====
-- What a deletion leaves: the other items, changed in their references only.
use snjs.Prelude.{
  ℕ, Bool, true, false, not, ◌≡◌, refl, sym, ap, subst, ◌∙◌, Option, none, some, List, [], ◌∷◌,
  ◌==◌, find, filter, any, if◌then◌else◌, if_intro, arith,
}
use snjs.Singleton.{
  SingletonModels, matches, change_item, change_items, delete_found, set_item_to_be_deleted,
  set_items_to_be_deleted,
}
use snjs.Prelude.Counts.{count}
use mathlib.Core.List.{Memᴰ}

module _ (m : SingletonModels) where
  open m use {Item, uuid, content_type, created_at, satisfies, remove_relationship}

  -- The same item, but for its references.
  pub record Same (x y : Item) : Type 0 where
    pub same_uuid : uuid y ≡ uuid x
    pub same_created : created_at y ≡ created_at x
    pub same_matches : (z : Item) → matches m z y ≡ matches m z x

  -- What the code relies on of the models: the singletons of one kind match each other, `===` holds of
  -- one item only, and the references are no part of what a predicate or the order reads.
  pub record SingletonLaws : Type 0 where
    pub matches_sym : (x y : Item) → matches m x y ≡ true → matches m y x ≡ true
    pub matches_trans :
        (x y z : Item) → matches m x y ≡ true → matches m y z ≡ true → matches m x z ≡ true
    pub same_object_eq : (x y : Item) → m.same_object x y ≡ true → x ≡ y
    pub removed_same : (gone x : Item) → Same x (remove_relationship gone x)

  pub data Alike : List Item → List Item → Type 0 where
    nil : Alike [] []
    cons : {x y : Item} {xs ys : List Item} → Same x y → Alike xs ys → Alike (x ∷ xs) (y ∷ ys)

  pub Same-refl : (x : Item) → Same x x
  Same-refl x = record { same_uuid = refl; same_created = refl; same_matches = λ z. refl }

  pub Same-trans : (x y z : Item) → Same x y → Same y z → Same x z
  Same-trans x y z a b = record {
    same_uuid = b.same_uuid ∙ a.same_uuid;
    same_created = b.same_created ∙ a.same_created;
    same_matches = λ w. b.same_matches w ∙ a.same_matches w;
  }

  pub Alike-refl : (xs : List Item) → Alike xs xs
  Alike-refl [] = Alike.nil
  Alike-refl (x ∷ xs) = Alike.cons (Same-refl x) (Alike-refl xs)

  pub Alike-trans : (xs ys zs : List Item) → Alike xs ys → Alike ys zs → Alike xs zs
  Alike-trans xs ys zs Alike.nil b = b
  Alike-trans (x ∷ xs) (y ∷ ys) [] (Alike.cons e a) b = elim b [ ]
  Alike-trans (x ∷ xs) (y ∷ ys) (z ∷ zs) (Alike.cons e a) (Alike.cons f b) =
      Alike.cons (Same-trans x y z e f) (Alike-trans xs ys zs a b)

  -- A test that does not tell the same items apart.
  abbrev pub Respects : (Item → Bool) → Type 0
  Respects test = (x y : Item) → Same x y → test y ≡ test x

  Alike-if :
      (b : Bool) (x y : Item) (xs ys : List Item)
      → Same x y
      → Alike xs ys
      → Alike (if b then x ∷ xs else xs) (if b then y ∷ ys else ys)
  Alike-if true x y xs ys e a = Alike.cons e a
  Alike-if false x y xs ys e a = a

  pub Alike-filter :
      (test : Item → Bool)
      → Respects test
      → (xs ys : List Item) → Alike xs ys
      → Alike (filter test xs) (filter test ys)
  Alike-filter test r xs ys Alike.nil = Alike.nil
  Alike-filter test r (x ∷ xs) (y ∷ ys) (Alike.cons e a) =
      rw (r x y e) (Alike-if (test x) _ _ _ _ e (Alike-filter test r xs ys a))

  pub count-Alike :
      (test : Item → Bool)
      → Respects test
      → (xs ys : List Item) → Alike xs ys
      → count test ys ≡ count test xs
  unfolding count
  count-Alike test r xs ys Alike.nil = refl
  count-Alike test r (x ∷ xs) (y ∷ ys) (Alike.cons e a) =
      ground (arith, r x y e, count-Alike test r xs ys a)

  pub Mem-Alike :
      (xs ys : List Item) (x : Item) → Alike xs ys → Memᴰ x xs → (y : Item) × Memᴰ y ys × Same x y
  Mem-Alike [] ys z a h = elim h [ ]
  Mem-Alike (x ∷ xs) [] z a h = elim a [ ]
  Mem-Alike (x ∷ xs) (y ∷ ys) z (Alike.cons e a) (Memᴰ.head p) =
      (y, Memᴰ.head refl, subst (λ w. Same w y) (sym p) e)
  Mem-Alike (x ∷ xs) (y ∷ ys) z (Alike.cons e a) (Memᴰ.tail k) =
      let rest = Mem-Alike xs ys z a k in (rest.0, Memᴰ.tail rest.1, rest.2)

  module _ (laws : SingletonLaws) where
    change_item-Alike :
        (gone : Item) (id : ℕ) (xs : List Item) → Alike xs (change_item m gone id xs)
    change_item-Alike gone id [] = Alike.nil
    change_item-Alike gone id (x ∷ xs) =
        Alike.cons
          (if_intro (Same x) (uuid x == id) _ _ (λ _. laws.removed_same gone x) (λ _. Same-refl x))
          (change_item-Alike gone id xs)

    change_items-Alike :
        (gone : Item) (ids : List ℕ) (xs : List Item) → Alike xs (change_items m gone ids xs)
    change_items-Alike gone [] xs = Alike-refl xs
    change_items-Alike gone (id ∷ ids) xs =
        Alike-trans xs _ _ (change_item-Alike gone id xs)
          (change_items-Alike gone ids (change_item m gone id xs))

    -- Where no item is found, none is left out.
    not_found :
        (u : ℕ) (xs : List Item)
        → find (λ i. uuid i == u) xs ≡ none
        → filter (λ i. not (uuid i == u)) xs ≡ xs
    not_found u [] h = refl
    not_found u (x ∷ xs) h = ground (arith, not_found u xs)

    deleted-Alike :
        (d : Item) (xs : List Item)
        → Alike (filter (λ i. not (uuid i == uuid d)) xs) (set_item_to_be_deleted m d xs)
    unfolding set_item_to_be_deleted
    deleted-Alike d xs = go (find (λ i. uuid i == uuid d) xs) refl
      where
        go :
            (o : Option Item)
            → find (λ i. uuid i == uuid d) xs ≡ o
            → Alike (filter (λ i. not (uuid i == uuid d)) xs) (delete_found m (uuid d) o xs)
        go none missing = rw (not_found (uuid d) xs missing) (Alike-refl xs)
        go (some gone) found = change_items-Alike gone (m.uuids_that_reference (uuid d) xs) _

    -- Neither the items that are deleted nor others with their uuids.
    abbrev pub is_kept : List Item → Item → Bool
    is_kept ds x = not (any (λ d. uuid x == uuid d) ds)

    kept-Respects : (ds : List Item) → Respects (is_kept ds)
    kept-Respects ds x y e = ap (λ u. not (any (λ d. u == uuid d) ds)) e.same_uuid

    filter_all : (xs : List Item) → filter (is_kept []) xs ≡ xs
    filter_all [] = refl
    filter_all (x ∷ xs) = ap (◌∷◌ x) (filter_all xs)

    filter_both :
        (d : Item) (ds xs : List Item)
        → filter (is_kept (d ∷ ds)) xs
          ≡ filter (is_kept ds) (filter (λ i. not (uuid i == uuid d)) xs)
    filter_both d ds [] = refl
    filter_both d ds (x ∷ xs) = ground (arith, filter_both d ds xs)

    pub deletion-Alike :
        (ds xs : List Item) → Alike (filter (is_kept ds) xs) (set_items_to_be_deleted m ds xs)
    unfolding set_items_to_be_deleted
    deletion-Alike [] xs = rw (filter_all xs) (Alike-refl xs)
    deletion-Alike (d ∷ ds) xs = rw (filter_both d ds xs) (
        Alike-trans _ _ _ (Alike-filter (is_kept ds) (kept-Respects ds) _ _ (deleted-Alike d xs))
          (deletion-Alike ds (set_item_to_be_deleted m d xs)))
