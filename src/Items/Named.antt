-- ===== src/Items/Named.antt =====
-- A tag whose parents have given titles, and the chain that the loops find for it.
use snjs.Prelude.{
  ℕ, suc, zero, ◌≤◌, ◌≡◌, refl, ◌∙◌, ap, sym, String, false, Option, none, some, List, [], ◌∷◌,
  ◌++◌, append-nil, append_assoc, ◌==◌, ==_iff, ok, map, arith,
}
use mathlib.Core.List.{map-append}
use snjs.Items.Tags.{ItemModels, ItemManager, Change, find_item, chain_from, get_tag_parent_chain}
use snjs.Items.Titles.{get_tag_long_title}

map_map_lem {ℓ} :
    {A : Type ℓ} (f : String → String) (g : A → String) (xs : List A)
    → map f (map g xs) ≡ map (λ x. f (g x)) xs
map_map_lem f g [] = refl
map_map_lem f g (x ∷ xs) = ap (λ ys. f (g x) ∷ ys) (map_map_lem f g xs)

module _ (m : ItemModels) where
  open m use {
    Item, uuid, title, parent_id, make_child_of, create_tag_payload, to_lower_case,
    displayable_tags, tags_referencing,
  }

  abbrev pub uuid_of : Option Item → Option ℕ
  uuid_of none = none
  uuid_of (some item) = some (uuid item)

  abbrev pub low_title : Item → String
  low_title t = to_lower_case (title t)

  -- The tag is there, and from it up the titles are those listed, the root's first.
  pub data Named (s : ItemManager m) : List String → Option Item → Type 0 where
    root : Named s [] none
    down :
        {names : List String} {parent : Option Item} (name : String) (t : Item)
        → Named s names parent
        → find_item m (uuid t) s ≡ some t
        → parent_id t ≡ uuid_of parent
        → low_title t ≡ to_lower_case name
        → Named s (names ++ name ∷ []) (some t)

  -- What a store holds, the other holds too.
  abbrev pub Extends : ItemManager m → ItemManager m → Type 0
  Extends s s' = (u : ℕ) (item : Item) → find_item m u s ≡ some item → find_item m u s' ≡ some item

  pub extend-Named :
      (s s' : ItemManager m)
      → Extends s s'
      → (names : List String) (current : Option Item) → Named s names current
      → Named s' names current
  extend-Named s s' more names current Named.root = Named.root
  extend-Named s s' more names current (Named.down name t above there parent low) =
      Named.down name t (extend-Named s s' more _ _ above) (more _ _ there) parent low

  -- With so many rounds or more, the loop puts the path before the chain.
  abbrev Gives : ItemManager m → ℕ → Option ℕ → List Item → Type 0
  Gives s rounds start path =
      (n : ℕ) (chain : List Item) → rounds ≤ n → chain_from m n start chain s ≡ some (path ++ chain)

  root_ends : (s : ItemManager m) → Gives s 1 none []
  unfolding chain_from
  root_ends s zero chain enough = ground arith
  root_ends s (suc n) chain enough = refl

  found_step :
      (s : ItemManager m) (t : Item) (n : ℕ) (chain : List Item)
      → find_item m (uuid t) s ≡ some t
      → chain_from m (suc n) (some (uuid t)) chain s ≡ chain_from m n (parent_id t) (t ∷ chain) s
  unfolding chain_from
  found_step s t n chain there = ground arith

  down_ends :
      (s : ItemManager m) (t : Item) (rounds : ℕ) (path : List Item) (start : Option ℕ)
      → find_item m (uuid t) s ≡ some t
      → parent_id t ≡ start
      → Gives s rounds start path
      → Gives s (suc rounds) (some (uuid t)) (path ++ t ∷ [])
  unfolding chain_from
  down_ends s t rounds path start there parent ends zero chain enough = ground arith
  down_ends s t rounds path start there parent ends (suc n) chain enough =
      found_step s t n chain there
      ∙ ap (λ o. chain_from m n o (t ∷ chain) s) parent
      ∙ ends n (t ∷ chain) (omega arith)
      ∙ ap some (sym (append_assoc path (t ∷ []) chain))

  titles_lem :
      (path : List Item) (names : List String) (name : String) (t : Item)
      → map low_title path ≡ map to_lower_case names
      → low_title t ≡ to_lower_case name
      → map low_title (path ++ t ∷ []) ≡ map to_lower_case (names ++ name ∷ [])
  titles_lem path names name t same low =
      map-append low_title path (t ∷ [])
      ∙ ap (λ ts. ts ++ low_title t ∷ []) same
      ∙ ap (λ low_name. map to_lower_case names ++ low_name ∷ []) low
      ∙ sym (map-append to_lower_case names (name ∷ []))

  -- The chain that starts at the tag, upwards.
  chain_lem :
      (s : ItemManager m) (names : List String) (current : Option Item)
      → Named s names current
      → (rounds : ℕ) × (path : List Item) × ((n : ℕ) (chain : List Item)
          → rounds ≤ n
          → chain_from m n (uuid_of current) chain s ≡ some (path ++ chain))
        × (map low_title path ≡ map to_lower_case names)
  chain_lem s names current Named.root = (1, [], root_ends s, refl)
  chain_lem s names current (Named.down name t above there parent low) =
      let (rounds, path, ends, same) = chain_lem s _ _ above in
      (
        suc rounds,
        path ++ t ∷ [],
        down_ends s t rounds path _ there parent ends,
        titles_lem path _ name t same low,
      )

  -- Only what the uuid leads to changed.
  abbrev pub OnlyAt : ℕ → ItemManager m → ItemManager m → Type 0
  OnlyAt u s s' = (v : ℕ) → (u == v) ≡ false → find_item m v s' ≡ find_item m v s

  pub only-Extends :
      (u : ℕ) (s s' : ItemManager m) → find_item m u s ≡ none → OnlyAt u s s' → Extends s s'
  only-Extends u s s' unused only v item there = ground (arith, ==_iff u v, only v)

  pub record Step (names : List String) (name : String) (u : ℕ) (s : ItemManager m)
      (change : Change m) : Type 0 where
    pub tag : Item
    pub returned : change.1 ≡ ok (some tag)
    pub only : OnlyAt u s change.0
    pub named : Named change.0 (names ++ name ∷ []) (some tag)

  chain_at :
      (n : ℕ) (tag : Item) (s : ItemManager m)
      → find_item m (uuid tag) s ≡ some tag
      → get_tag_parent_chain m n tag s ≡ chain_from m n (parent_id tag) [] s
  unfolding get_tag_parent_chain
  chain_at n tag s there = rw (get_tag_parent_chain, there) refl

  long_at :
      (n : ℕ) (path : List Item) (tag : Item) (s : ItemManager m)
      → get_tag_parent_chain m n tag s ≡ some path
      → get_tag_long_title m n tag s ≡ some (map title (path ++ tag ∷ []))
  unfolding get_tag_long_title
  long_at n path tag s chain = rw (get_tag_long_title, chain) refl

  pub long_lem :
      (names : List String) (tag : Item) (s : ItemManager m)
      → Named s names (some tag)
      → (rounds : ℕ) × (long : List String) × ((n : ℕ)
          → rounds ≤ n
          → get_tag_long_title m n tag s ≡ some long)
        × (map to_lower_case long ≡ map to_lower_case names)
  long_lem names tag s (Named.down name t above there parent low) =
      let (rounds, path, ends, same) = chain_lem s _ _ above in
      (
        rounds,
        map title (path ++ tag ∷ []),
        λ n enough. long_at n path tag s (
            chain_at n tag s there
            ∙ ap (λ o. chain_from m n o [] s) parent
            ∙ ends n [] enough
            ∙ ap some (append-nil path)),
        map_map_lem to_lower_case title (path ++ tag ∷ []) ∙ titles_lem path _ name tag same low,
      )
