-- ===== src/Sync/Operation.antt =====
-- A sync operation with the server: rounds of uploads and downloads until nothing is left to send
-- and the server has no further page (packages/snjs/lib/Services/Sync/Account/Operation.ts).
-- The server answers through `api`, which is given the number of the round, since its answer
-- depends on its own state. `requests` lists what was sent, and `signals` what the receiver got;
-- what the receiver throws is caught, so its outcome does not matter here.
pub mod Rounds
mod Examples
use snjs.Prelude.{
  ℕ, zero, suc, ◌+◌, ◌-◌, String, Bool, true, false, ◌&&◌, not, Option, none, some, List, [], ◌∷◌,
  ◌++◌, take, length, is_empty, if◌then◌else◌,
}
use snjs.Sync.Response.{
  RawSyncResponse, ServerSyncResponse, construct, last_sync_token, pagination_token, is_truthy,
  number_of_items_involved,
}

-- SyncUpDownLimit
abbrev pub sync_up_down_limit : ℕ
sync_up_down_limit = 150

pub record Request (Payload : Type 0) : Type 0 where
  pub payloads : List Payload
  pub sync_token : Option String
  pub page_token : Option String
  pub limit : ℕ

pub data Signal (Response : Type 0) : Type 0 where
  status_changed : (completed_upload_count total_upload_count : ℕ) → Signal Response
  response : Response → Signal Response

pub record Operation (Payload Response : Type 0) : Type 0 where
  pub payloads : List Payload
  pub pending_payloads : List Payload
  pub responses : List Response
  pub sync_token : Option String
  pub page_token : Option String
  pub requests : List (Request Payload)
  pub signals : List (Signal Response)

-- the constructor
abbrev pub new :
    {Payload Response : Type 0}
    → List Payload
    → Option String
    → Option String
    → Operation Payload Response
new payloads sync_token page_token = record {
  payloads = payloads;
  pending_payloads = payloads;
  responses = [];
  sync_token = sync_token;
  page_token = page_token;
  requests = [];
  signals = [];
}

abbrev pub done : {Payload Response : Type 0} → Operation Payload Response → Bool
done op = is_empty op.pending_payloads && not (is_truthy op.page_token)

module _ {Payload : Type 0} (subtract_from_array : List Payload → List Payload → List Payload) where
  unfoldable pub pop_payloads :
      {Response : Type 0}
      → ℕ
      → Operation Payload Response
      → List Payload × Operation Payload Response
  pop_payloads count op =
      let payloads = take count op.pending_payloads in
      (payloads, record op { pending_payloads = subtract_from_array op.pending_payloads payloads })

  module _ {Item Filtered Saved : Type 0} (filter_disallowed : List (Option Item) → List Filtered)
      (create_saved : Filtered → Saved) (api : ℕ → Request Payload → RawSyncResponse Item) where
    -- One pass of `run`, up to its test of `done`.
    unfoldable pub round :
        Operation Payload (ServerSyncResponse Item Filtered Saved)
        → Operation Payload (ServerSyncResponse Item Filtered Saved)
    unfolding pop_payloads
    round op =
        let total = length op.payloads in
        let status = status_changed (total - length op.pending_payloads) total in
        let (payloads, popped) = pop_payloads sync_up_down_limit op in
        let request : Request Payload = record {
          payloads = payloads;
          sync_token = op.sync_token;
          page_token = op.page_token;
          limit = sync_up_down_limit;
        } in
        let answer = construct filter_disallowed create_saved (api (length op.responses) request) in
        record popped {
          responses = op.responses ++ answer ∷ [];
          sync_token = last_sync_token answer;
          page_token = pagination_token answer;
          requests = op.requests ++ request ∷ [];
          signals = op.signals ++ status ∷ response answer ∷ [];
        }

    -- `none`: the rounds ran out.
    unfoldable pub run :
        ℕ
        → Operation Payload (ServerSyncResponse Item Filtered Saved)
        → Option (Operation Payload (ServerSyncResponse Item Filtered Saved))
    run zero op = none
    run (suc rounds) op =
        let op' = round op in let rest = run rounds op' in if done op' then some op' else rest

unfoldable pub payloads_saved_or_saving :
    {Payload Response : Type 0}
    → (array_by_difference : List Payload → List Payload → List Payload)
    → Operation Payload Response
    → List Payload
payloads_saved_or_saving array_by_difference op =
    array_by_difference op.payloads op.pending_payloads

unfoldable pub sum_of_items :
    {Item Filtered Saved : Type 0} → ℕ → List (ServerSyncResponse Item Filtered Saved) → ℕ
sum_of_items total [] = total
sum_of_items total (r ∷ rs) = sum_of_items (total + number_of_items_involved r) rs

-- `numberOfItemsInvolved` of the operation
unfoldable pub items_involved :
    {Payload Item Filtered Saved : Type 0}
    → Operation Payload (ServerSyncResponse Item Filtered Saved)
    → ℕ
unfolding sum_of_items
items_involved op = sum_of_items 0 op.responses
