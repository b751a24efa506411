-- ===== src/Sync/Loading/Examples.antt =====
-- Five payloads in batches of two, among them a deleted items key.
use snjs.Prelude.{
  ℕ, ◌≡◌, refl, sym, ap, ◌∙◌, Bool, true, false, not, Option, none, some, List, [], ◌∷◌, ◌==◌, ok,
  ltb, filter, arith, any, if◌then◌else◌, ◌&&◌, Bool-cases, inl, inr,
}
use snjs.Prelude.Counts.{Mem-any, Mem-filter, Mem-passes, any_found}
use mathlib.Core.List.{Memᴰ}
use snjs.Prelude.Sort.{sort, sort_into, insert}
use snjs.Sync.OpStatus.{new, set_database_load_status}
use snjs.Sync.Priority.{Payload, compare_payloads, priority_of, sort_payloads}
use snjs.Sync.Loading.{
  LoadModels, LoadState, created_payloads, load_batch, load_batches, load_database_payloads,
  process_batch, process_items_keys_first,
}
use snjs.Sync.Loading.Partition.{LoadLaws}
use snjs.Sync.Loading.Once.{IsLoaded, load-IsLoaded}

-- A note has the uuids from 10 on; 3 is the uuid of the deleted items key.
abbrev numbered : ℕ → Payload
numbered u = record { uuid = u; content_type = if ltb u 10 then 7 else 8; server_updated_at = u }

abbrev create : ℕ → Option Payload
create u = if u == 0 then none else some (numbered u)

abbrev same : Payload → Payload → Bool
same p q =
    (p.uuid == q.uuid)
    && ((p.content_type == q.content_type) && (p.server_updated_at == q.server_updated_at))

same_refl : (p : Payload) → same p p ≡ true
same_refl p = ground arith

same_eq : (p q : Payload) → same p q ≡ true → p ≡ q
same_eq p q h = λ i. record { uuid = uuids i; content_type = types i; server_updated_at = dates i }
  where
    uuids : p.uuid ≡ q.uuid
    uuids = ground arith

    types : p.content_type ≡ q.content_type
    types = ground arith

    dates : p.server_updated_at ≡ q.server_updated_at
    dates = ground arith

abbrev subtract : List Payload → List Payload → List Payload
subtract ps qs = filter (λ p. not (any (same p) qs)) ps

filter_ext :
    (f g : Payload → Bool) (ps : List Payload)
    → ((p : Payload) → Memᴰ p ps → f p ≡ g p)
    → filter f ps ≡ filter g ps
filter_ext f g [] h = refl
filter_ext f g (p ∷ ps) h =
    ground (arith, h p (Memᴰ.head refl), filter_ext f g ps (λ q k. h q (Memᴰ.tail k)))

subtract_lem :
    (test : Payload → Bool) (ps : List Payload)
    → subtract ps (filter test ps) ≡ filter (λ p. not (test p)) ps
subtract_lem test ps =
    filter_ext (λ p. not (any (same p) (filter test ps))) (λ p. not (test p)) ps
      (λ p k. ap not (found p k))
  where
    found : (p : Payload) → Memᴰ p ps → any (same p) (filter test ps) ≡ test p
    found p k = elim (Bool-cases (test p)) [
      | inl passes ↦
          Mem-any (same p) p (filter test ps) (Mem-filter test p ps k passes) (same_refl p)
          ∙ sym passes
      | inr fails ↦ elim (Bool-cases (any (same p) (filter test ps))) [
        | inl hit ↦
            let (q, l, e) = any_found (same p) (filter test ps) hit in
            hit ∙ sym (ap test (same_eq p q e) ∙ (Mem-passes test q ps l).1)
        | inr miss ↦ miss ∙ sym fails
      ]
    ]

abbrev models : LoadModels
models = record {
  Raw = ℕ;
  create_payload = create;
  is_encrypted_payload = λ p. ltb 11 p.uuid;
  is_decrypted_payload = λ p. not (ltb 11 p.uuid) && not (p.uuid == 3);
  decrypt_items_keys = λ ps. ps;
  decrypt_items = λ ps. ps;
  subtract_from_array = subtract;
  items_key = 7;
  local_load_priority = 7 ∷ [];
  load_batch_size = 2;
}

laws : LoadLaws models
laws = record {
  items_keys_same = λ u ps. refl;
  items_same = λ u ps. refl;
  subtract_filter = subtract_lem;
  one_kind = λ p h. ground (arith, h);
  size_positive = omega arith;
}

abbrev unloaded : LoadState
unloaded = record { database_loaded = false; emitted = []; incremental_loads = 0; op_status = new }

abbrev raws : List ℕ
raws = 12 ∷ 3 ∷ 0 ∷ 10 ∷ 2 ∷ 11 ∷ []

-- The key that could be read comes first, then the notes, the newest first and the encrypted ones of a
-- batch last; the deleted key is missing.
emitted_batches :
    load_database_payloads models raws unloaded
    ≡ ok (record {
      database_loaded = true;
      emitted = (numbered 2 ∷ []) ∷ (numbered 11 ∷ numbered 12 ∷ []) ∷ (numbered 10 ∷ []) ∷ [];
      incremental_loads = 2;
      op_status =
          set_database_load_status 0 0 true
            (set_database_load_status 2 3 false (set_database_load_status 0 3 false new));
    })
unfolding load_database_payloads created_payloads sort_payloads compare_payloads priority_of sort
    sort_into insert load_batches load_batch process_batch process_items_keys_first
emitted_batches = refl

load-IsLoaded_example :
    (s' : LoadState) × (load_database_payloads models raws unloaded ≡ ok s')
    × IsLoaded models (created_payloads models raws) unloaded s'
load-IsLoaded_example = load-IsLoaded models laws raws unloaded refl
