-- ===== src/Singleton/Resolved.antt =====
-- What resolving a queue of items leaves.
use snjs.Prelude.{
  ◌≤◌, Bool, true, false, not, ◌&&◌, ◌≡◌, refl, ap, ◌∙◌, ◌⊎◌, inl, inr, List, [], ◌∷◌, ok, ◌>>=◌,
  All, arith, is_empty, Bool-cases,
}
use snjs.Singleton.{
  SingletonModels, SingletonManager, SyncEvent, matches, resolve_loop, resolve_singletons_for_items,
  synced, is_all_uploaded,
}
use snjs.Prelude.Counts.{count}
use snjs.Singleton.Deletion.{SingletonLaws}
use snjs.Singleton.Resolution.{Unique, IsHeir, IsReduced}
use snjs.Singleton.Loop.{resolve_item-IsHandled, IsReduced-refl, IsReduced-trans}
use mathlib.Core.List.{Memᴰ}

module _ (m : SingletonModels) where
  open m use {Item, is_singleton, keeps_earliest}

  -- A singleton of which at most one item is left.
  abbrev pub IsSingle : List Item → Item → Type 0
  IsSingle items q = (is_singleton q ≡ false) ⊎ (count (matches m q) items ≤ 1)

  pub record IsResolved (queue items items' : List Item) : Type 0 where
    pub single : All (IsSingle items') queue
    pub heirs : All (λ x. (y : Item) × Memᴰ y items' × IsHeir m x y) items
    pub unique : Unique m items'

  module _ (laws : SingletonLaws m) where
    IsSingle-fewer :
        (a b : List Item) (q : Item)
        → IsReduced m a b
        → (is_singleton q ≡ true → count (matches m q) a ≤ 1)
        → IsSingle b q
    IsSingle-fewer a b q r h = elim (Bool-cases (is_singleton q)) [
      | inl is ↦ inr (omega (arith, h is, r.fewer q))
      | inr is_not ↦ inl is_not
    ]

    loop_lem :
        (queue handled items : List Item)
        → All (λ q. keeps_earliest q ≡ true) queue
        → Unique m items
        → ((h : Item) → Memᴰ h handled → count (matches m h) items ≤ 1)
        → (r : List Item × List Item) × (resolve_loop m queue handled items ≡ ok r)
          × (IsReduced m items r.1 × All (IsSingle r.1) queue)
    unfolding resolve_loop
    loop_lem [] handled items keeps unique before =
        ((handled, items), refl, (IsReduced-refl m laws items unique, tt))
    loop_lem (q ∷ queue) handled items keeps unique before =
        let (r, eq, done) = resolve_item-IsHandled m laws q handled items keeps.0 unique before in
        let (r', eq', (reduced, single)) =
          loop_lem queue r.0 r.1 keeps.1 done.reduced.unique done.each_single in
        (
          r',
          ap (λ x. x >>= λ p. resolve_loop m queue p.0 p.1) eq ∙ eq',
          (
            IsReduced-trans m laws items r.1 r'.1 done.reduced reduced,
            (IsSingle-fewer r.1 r'.1 q reduced done.single, single),
          ),
        )

    All-of : (P : Item → Type 0) (xs : List Item) → ((x : Item) → Memᴰ x xs → P x) → All P xs
    All-of P [] h = tt
    All-of P (x ∷ xs) h = (h x (Memᴰ.head refl), All-of P xs (λ y k. h y (Memᴰ.tail k)))

    after_sync :
        (queue items : List Item) (needs : Bool) (s : SingletonManager m)
        → IsResolved queue items s.items
        → IsResolved queue items (synced m needs s).items
    after_sync queue items true s h = h
    after_sync queue items false s h = h

    -- Where no two items have the same uuid and each item of the queue keeps the earliest: resolving
    -- returns; of each singleton in the queue at most one item is left; and each item that there was is
    -- still there, up to its references, or there is one of the same singleton that was not created
    -- later.
    pub resolve-IsResolved :
        (queue : List Item) (event : SyncEvent) (s : SingletonManager m)
        → Unique m s.items
        → All (λ q. keeps_earliest q ≡ true) queue
        → (s' : SingletonManager m) × (resolve_singletons_for_items m queue event s ≡ ok s')
          × IsResolved queue s.items s'.items
    unfolding resolve_singletons_for_items
    resolve-IsResolved [] event s unique keeps = (
      s,
      refl,
      record {
        single = tt;
        heirs = All-of _ s.items (IsReduced-refl m laws s.items unique).heirs;
        unique = unique;
      },
    )
    resolve-IsResolved (q ∷ queue) event s unique keeps =
        let (r, eq, (reduced, single)) =
          loop_lem (q ∷ queue) [] s.items keeps unique (λ h k. elim k [ ]) in
        let needs = not (is_empty r.0) && is_all_uploaded m event in
        (
          synced m needs (record s { items = r.1 }),
          ap
              (λ x. x >>= λ p. ok (
                synced m (not (is_empty p.0) && is_all_uploaded m event)
                  (record s { items = p.1 })))
              eq,
          after_sync (q ∷ queue) s.items needs (record s { items = r.1 })
              (record {
                single = single;
                heirs = All-of _ s.items reduced.heirs;
                unique = reduced.unique;
              }),
        )
