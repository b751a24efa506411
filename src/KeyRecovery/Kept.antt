-- ===== src/KeyRecovery/Kept.antt =====
-- A key leaves isolated storage only once it was decrypted.
use snjs.Prelude.{
  ℕ, suc, Bool, true, false, not, ◌≡◌, refl, sym, ap, subst, ◌⊎◌, inl, inr, Option, List, [], ◌∷◌,
  ◌++◌, ◌==◌, filter, map, any, arith, Bool-cases,
}
use snjs.Prelude.Counts.{Mem-filter}
use snjs.KeyRecovery.{
  KeyModels, DecryptionQueueItem, OperationResult, KeyRecovery, handle_decryption_of_all_keys,
  remove_from_undecryptables, handle_result, leave_queue,
}
use snjs.KeyRecovery.OperationResult.{success, failed, aborted}
use mathlib.Core.List.{Memᴰ}
use mathlib.Core.List.Memᴰ

module _ (m : KeyModels) where
  open m use {Key, RootKey, uuid}

  -- A decrypted key of this uuid was emitted.
  pub record IsRecovered (u : ℕ) (s : KeyRecovery m) : Type 0 where
    pub keys : List Key
    pub emitted : Memᴰ keys s.emitted
    pub key : Key
    pub among : Memᴰ key keys
    pub same : (u == uuid key) ≡ true

  -- A key that is kept in storage, or was recovered.
  abbrev pub IsKept : Key → KeyRecovery m → Type 0
  IsKept key s = Memᴰ key s.undecryptables ⊎ IsRecovered (uuid key) s

  any-map :
      (u : ℕ) (keys : List Key)
      → any (λ id. u == id) (map uuid keys) ≡ true
      → (k : Key) × Memᴰ k keys × ((u == uuid k) ≡ true)
  any-map u [] h = absurd (ground (arith, h))
  any-map u (k ∷ ks) h = elim (Bool-cases (u == uuid k)) [
    | inl same ↦ (k, Memᴰ.head refl, same)
    | inr other ↦ let rest = any-map u ks (ground (arith, h)) in (rest.0, Memᴰ.tail rest.1, rest.2)
  ]

  removed-IsKept :
      (ds stored : List Key) (key : Key) (s : KeyRecovery m)
      → Memᴰ ds s.emitted
      → s.undecryptables ≡ filter (λ k. not (any (λ id. uuid k == id) (map uuid ds))) stored
      → Memᴰ key stored
      → IsKept key s
  removed-IsKept ds stored key s emitted eq k =
      elim (Bool-cases (any (λ id. uuid key == id) (map uuid ds))) [
        | inl hit ↦
            let (d, among, same) = any-map (uuid key) ds hit in
            inr (record { keys = ds; emitted = emitted; key = d; among = among; same = same })
        | inr miss ↦ inl (
            subst (Memᴰ key) (sym eq) (
              Mem-filter (λ k. not (any (λ id. uuid k == id) (map uuid ds))) key stored k
                (ap not miss)))
      ]

  recovered_lem :
      (u : ℕ) (s s' : KeyRecovery m) (ds : List Key)
      → s'.emitted ≡ s.emitted ++ ds ∷ []
      → IsRecovered u s
      → IsRecovered u s'
  recovered_lem u s s' ds eq r = record {
    keys = r.keys;
    emitted = subst (Memᴰ r.keys) (sym eq) (Memᴰ.append_left (ds ∷ []) r.emitted);
    key = r.key;
    among = r.among;
    same = r.same;
  }

  -- Only what is stored and what was emitted matters.
  pub same-IsKept :
      (key : Key) (s s' : KeyRecovery m)
      → s'.undecryptables ≡ s.undecryptables
      → s'.emitted ≡ s.emitted
      → IsKept key s
      → IsKept key s'
  same-IsKept key s s' stored emitted (inl k) = inl (subst (Memᴰ key) (sym stored) k)
  same-IsKept key s s' stored emitted (inr r) = inr (record {
    keys = r.keys;
    emitted = subst (Memᴰ r.keys) (sym emitted) r.emitted;
    key = r.key;
    among = r.among;
    same = r.same;
  })

  decryption-IsKept :
      (has_passcode : Bool) (cancels : ℕ) (root_key : RootKey) (replaces : Bool)
      (server_params : Option ℕ) (key : Key) (s : KeyRecovery m)
      → IsKept key s
      → IsKept key
          (handle_decryption_of_all_keys m has_passcode cancels root_key replaces server_params s)
  unfolding handle_decryption_of_all_keys remove_from_undecryptables
  decryption-IsKept has_passcode cancels root_key true server_params key s (inl k) =
      removed-IsKept _ s.undecryptables key _ (Memᴰ.append_right s.emitted (Memᴰ.head refl)) refl k
  decryption-IsKept has_passcode cancels root_key false server_params key s (inl k) =
      removed-IsKept _ s.undecryptables key _ (Memᴰ.append_right s.emitted (Memᴰ.head refl)) refl k
  decryption-IsKept has_passcode cancels root_key true server_params key s (inr r) =
      inr (recovered_lem (uuid key) s _ _ refl r)
  decryption-IsKept has_passcode cancels root_key false server_params key s (inr r) =
      inr (recovered_lem (uuid key) s _ _ refl r)

  module _ (run : ℕ → DecryptionQueueItem m → OperationResult m) (has_passcode : Bool)
      (cancels : ℕ → ℕ)
      (remove_from_array : List (DecryptionQueueItem m)
        → DecryptionQueueItem m
        → List (DecryptionQueueItem m))
      (server_params : Option ℕ) where
    -- One pass of the loop, with the result `r`.
    abbrev pub after : OperationResult m → DecryptionQueueItem m → KeyRecovery m → KeyRecovery m
    after r item s = leave_queue m run has_passcode cancels remove_from_array server_params item (
        handle_result m run has_passcode cancels remove_from_array server_params r item
          (record s { attempts = suc s.attempts }))

    pub pass-IsKept :
        (r : OperationResult m) (item : DecryptionQueueItem m) (key : Key) (s : KeyRecovery m)
        → IsKept key s
        → IsKept key (after r item s)
    pass-IsKept (success root_key replaces) item key s h = same-IsKept key _ _ refl refl (
        decryption-IsKept has_passcode (cancels (suc s.attempts)) root_key replaces server_params
          key (record s { attempts = suc s.attempts }) (same-IsKept key s _ refl refl h))
    pass-IsKept failed item key s h = same-IsKept key s _ refl refl h
    pass-IsKept aborted item key s h = same-IsKept key s _ refl refl h
