-- ===== src/Sync/Response/Examples.antt =====
-- A response with three conflicts.
use snjs.Prelude.{ℕ, ◌+◌, ◌≡◌, none, some, [], ◌∷◌, length}
use snjs.Sync.Response.{RawSyncResponse, construct, uuid_conflict, conflicting_data, other}
use snjs.Sync.Response.Conflicts.{sort_out, sent_conflicts, construct-eq-sort_out}
use snjs.Samples.{defined}

abbrev conflicted : RawSyncResponse ℕ
conflicted = record {
  status = 200;
  error = none;
  data_field = some (record {
    saved_items = none;
    retrieved_items = none;
    conflicts = some (
        record { type = uuid_conflict; unsaved_item = some 1; server_item = none; item = none }
        ∷ record { type = conflicting_data; unsaved_item = none; server_item = some 2; item = none }
        ∷ []);
    unsaved =
        some (
          record { type = other "x"; unsaved_item = none; server_item = none; item = some 3 } ∷ []);
    error = none;
    last_sync_token = none;
    pagination_token = none;
  });
}

construct-eq-sort_out_example :
    (let response = construct defined (λ n. n) conflicted in
      let sent = sent_conflicts conflicted.data_field in
      let sorted = sort_out sent in
      (response.uuid_conflict_payloads ≡ defined sorted.uuids)
      × (response.data_conflict_payloads ≡ defined sorted.data_items)
      × (response.rejected_payloads ≡ defined sorted.rejections)
      × (length sorted.uuids + length sorted.data_items + length sorted.rejections + sorted.unknown
          ≡ length sent))
construct-eq-sort_out_example = construct-eq-sort_out defined (λ n. n) conflicted
