-- ===== src/Sync/Loading/Once.antt =====
-- What is emitted while the database is loaded.
use snjs.Prelude.{
  ℕ, ◌+◌, ◌*◌, Bool, true, false, not, ◌&&◌, ◌≡◌, refl, ap, ◌∙◌, List, [], ◌∷◌, ◌++◌, filter, take,
  drop, length, if◌then◌else◌, arith, ok, throw,
}
use snjs.Prelude.Counts.{count, count-sort}
use snjs.Sync.OpStatus.{set_database_load_status}
use snjs.Sync.Priority.{Payload, sort_payloads, compare_payloads}
use snjs.Sync.Loading.{
  LoadModels, LoadState, ceil_div, is_items_key, created_payloads, process_items_keys_first,
  load_batches, load_sorted, finish_load, load_database_payloads,
}
use snjs.Sync.Loading.Partition.{
  at, times, LoadLaws, load_batches_lem, take_all, ceil_lem, count-append, times-append, zero_times,
}

module _ (m : LoadModels) where
  -- An items key that is neither encrypted nor decrypted: a deleted one.
  abbrev pub is_deleted_key : Payload → Bool
  is_deleted_key p =
      is_items_key m p && (not (m.is_encrypted_payload p) && not (m.is_decrypted_payload p))

  module _ (laws : LoadLaws m) (u : ℕ) where
    -- The two parts of the items keys that are emitted, the rest of them, and the other payloads.
    parts_lem :
        (ps : List Payload)
        → (let keys = filter (is_items_key m) ps in
            count (at u) (filter m.is_decrypted_payload keys)
              + count (at u) (filter m.is_encrypted_payload keys)
              + count (λ p. is_deleted_key p && at u p) ps
              + count (at u) (filter (λ p. not (is_items_key m p)) ps)
            ≡ count (at u) ps)
    unfolding count
    parts_lem [] = refl
    parts_lem (p ∷ ps) = ground (arith, parts_lem ps, laws.one_kind p)

    keys_lem :
        (keys : List Payload) (s : LoadState)
        → times u (process_items_keys_first m keys s).emitted
          ≡ times u s.emitted
            + count (at u) (filter m.is_decrypted_payload keys)
            + count (at u) (filter m.is_encrypted_payload keys)
    unfolding process_items_keys_first
    keys_lem keys s = omega (
      arith,
      times-append u s.emitted (
          filter m.is_decrypted_payload keys
          ++ m.decrypt_items_keys (filter m.is_encrypted_payload keys)),
      count-append (at u) (filter m.is_decrypted_payload keys)
          (m.decrypt_items_keys (filter m.is_encrypted_payload keys)),
      laws.items_keys_same u (filter m.is_encrypted_payload keys),
    )

    all_batches :
        (ps : List Payload) (s : LoadState)
        → times u (load_batches m (ceil_div (length ps) m.load_batch_size) 0 ps s).emitted
          ≡ times u s.emitted + count (at u) ps
    all_batches ps s =
        load_batches_lem m laws u (ceil_div (length ps) m.load_batch_size) 0 ps s
        ∙ ap (λ xs. times u s.emitted + count (at u) xs) whole
      where
        whole :
            take
              (ceil_div (length ps) m.load_batch_size * m.load_batch_size)
              (drop (0 * m.load_batch_size) ps)
            ≡ ps
        whole =
            ap (λ n. take (ceil_div (length ps) m.load_batch_size * m.load_batch_size) (drop n ps))
              (zero_times m.load_batch_size)
            ∙ take_all _ ps (ceil_lem (length ps) m.load_batch_size laws.size_positive)

    sorted_lem :
        (ps : List Payload) (s : LoadState)
        → times u (load_sorted m ps s).emitted + count (λ p. is_deleted_key p && at u p) ps
          ≡ times u s.emitted + count (at u) ps
    sorted_lem ps s = rw (laws.subtract_filter (is_items_key m) ps) (
        let keys = filter (is_items_key m) ps in
        let others = filter (λ p. not (is_items_key m p)) ps in
        omega (
          arith,
          all_batches others (process_items_keys_first m keys s),
          keys_lem keys s,
          parts_lem ps,
        ))

    -- Sorting changes no count.
    sort_lem :
        (test : Payload → Bool) (ps : List Payload)
        → count test (sort_payloads ps m.local_load_priority) ≡ count test ps
    unfolding sort_payloads
    sort_lem test ps = count-sort (compare_payloads m.local_load_priority) test ps

  -- The state after the database was loaded from `created`.
  pub record IsLoaded (created : List Payload) (s s' : LoadState) : Type 0 where
    pub loaded : s'.database_loaded ≡ true
    pub done : s'.op_status.database_load_done ≡ true
    pub emitted_once :
        (u : ℕ)
        → times u s'.emitted + count (λ p. is_deleted_key p && at u p) created
          ≡ times u s.emitted + count (at u) created

  -- Where the database was not loaded, loading returns, for any number of payloads and any positive size
  -- of a batch, and the database is then loaded. Each payload that could be created was emitted
  -- exactly once, but for the deleted items keys, which were not emitted.
  pub load-IsLoaded :
      (laws : LoadLaws m) (raws : List m.Raw) (s : LoadState)
      → s.database_loaded ≡ false
      → (s' : LoadState) × (load_database_payloads m raws s ≡ ok s')
        × IsLoaded (created_payloads m raws) s s'
  unfolding load_database_payloads created_payloads set_database_load_status count
  load-IsLoaded laws [] s free = (
    finish_load m s,
    ap
        (λ b.
          if b
          then throw "Attempting to initialize already initialized local database."
          else ok (finish_load m s))
        free,
    record { loaded = refl; done = refl; emitted_once = λ u. refl },
  )
  load-IsLoaded laws (raw ∷ raws) s free = (
    load_sorted m sorted s,
    ap
        (λ b.
          if b
          then throw "Attempting to initialize already initialized local database."
          else ok (load_sorted m sorted s))
        free,
    record {
      loaded = refl;
      done = refl;
      emitted_once = λ u. omega (
        arith,
        sorted_lem laws u sorted s,
        sort_lem laws u (λ p. is_deleted_key p && at u p) created,
        sort_lem laws u (at u) created,
      );
    },
  )
    where
      created : List Payload
      created = created_payloads m (raw ∷ raws)

      sorted : List Payload
      sorted = sort_payloads created m.local_load_priority
