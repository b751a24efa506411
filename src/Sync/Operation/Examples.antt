-- ===== src/Sync/Operation/Examples.antt =====
-- Sync operations on concrete payloads.
use snjs.Prelude.{
  ℕ, ◌≤◌, ◌≡◌, String, true, false, Option, none, some, [], ◌∷◌, arith, ltb, if◌then◌else◌, All,
}
use snjs.Samples.{subtract_from_array, subtract_prefix, defined}
use snjs.Sync.Response.{RawSyncResponse, RawData, is_truthy, from_data}
use snjs.Sync.Operation.{Operation, Request, new, run, done}
use snjs.Sync.Operation.Rounds.{uploads, IsWithinLimit, run_complete}

abbrev page : Option String → RawData ℕ
page token = record {
  saved_items = none;
  retrieved_items = some (7 ∷ []);
  conflicts = none;
  unsaved = none;
  error = none;
  last_sync_token = some "t";
  pagination_token = token;
}

-- A server with two pages.
abbrev two_pages : ℕ → Request ℕ → RawSyncResponse ℕ
two_pages k q = record {
  status = 200;
  error = none;
  data_field = some (page (if ltb k 1 then some "next" else none));
}

two_pages_stop :
    (k : ℕ) (q : Request ℕ)
    → 1 ≤ k
    → is_truthy (from_data (two_pages k q) (λ d. d.pagination_token)) ≡ false
two_pages_stop k q h = ground arith

abbrev identity : ℕ → ℕ
identity x = x

run_complete_example :
    (op' : Operation ℕ _) × (run subtract_from_array defined identity two_pages 3
        (new (1 ∷ 2 ∷ []) none none)
      ≡ some op')
    × (done op' ≡ true)
    × (uploads op'.requests ≡ 1 ∷ 2 ∷ [])
    × All IsWithinLimit op'.requests
run_complete_example =
    run_complete subtract_from_array subtract_prefix defined identity two_pages 1 two_pages_stop
      (1 ∷ 2 ∷ []) none none 1 (omega arith)
