-- ===== src/Sync/Loading.antt =====
-- How the payloads of the device are loaded (loadDatabasePayloads of packages/snjs/lib/Services/Sync/
-- SyncService.ts): items keys first, then the others in batches. Creating a payload, its kind,
-- decryption and subtractFromArray belong to other packages and are parameters; `none` is a payload whose
-- creation threw.
pub mod Partition
pub mod Once
mod Examples
use snjs.Prelude.{
  ℕ, zero, suc, ◌+◌, ◌-◌, ◌*◌, ◌/◌, ◌≤◌, Bool, true, false, not, ◌≡◌, Option, none, some, List, [],
  ◌∷◌, ◌++◌, ◌==◌, filter, map, length, take, drop, is_empty, if◌then◌else◌, Result, ok, throw,
}
use snjs.Sync.OpStatus.{OpStatus, set_database_load_status}
use snjs.Sync.Priority.{Payload, sort_payloads}

pub record LoadModels : Type 1 where
  pub Raw : Type 0
  pub create_payload : Raw → Option Payload
  pub is_encrypted_payload : Payload → Bool
  pub is_decrypted_payload : Payload → Bool
  -- decryptSplit with the root key, and with the items keys
  pub decrypt_items_keys : List Payload → List Payload
  pub decrypt_items : List Payload → List Payload
  pub subtract_from_array : List Payload → List Payload → List Payload
  pub items_key : ℕ
  pub local_load_priority : List ℕ
  pub load_batch_size : ℕ

-- `emitted` are the calls of emitPayloads; `incremental_loads` counts the events.
pub record LoadState : Type 0 where
  pub database_loaded : Bool
  pub emitted : List (List Payload)
  pub incremental_loads : ℕ
  pub op_status : OpStatus

-- `Math.ceil(count / size)`
abbrev pub ceil_div : ℕ → ℕ → ℕ
ceil_div count size = (count + size - 1) / size

abbrev pub emit_payloads : List Payload → LoadState → LoadState
emit_payloads payloads s = record s { emitted = s.emitted ++ payloads ∷ [] }

module _ (m : LoadModels) where
  open m use {
    Raw, create_payload, is_encrypted_payload, is_decrypted_payload, decrypt_items_keys,
    decrypt_items, subtract_from_array, items_key, local_load_priority, load_batch_size,
  }

  abbrev pub pushed : Option Payload → List Payload → List Payload
  pushed none payloads = payloads
  pushed (some p) payloads = p ∷ payloads

  -- The payloads that could be created.
  unfoldable pub created_payloads : List Raw → List Payload
  created_payloads [] = []
  created_payloads (raw ∷ raws) = pushed (create_payload raw) (created_payloads raws)

  abbrev pub is_items_key : Payload → Bool
  is_items_key p = p.content_type == items_key

  unfoldable pub process_items_keys_first : List Payload → LoadState → LoadState
  process_items_keys_first payloads s =
      emit_payloads
        (filter is_decrypted_payload payloads
          ++ decrypt_items_keys (filter is_encrypted_payload payloads))
        s

  -- The payloads of a batch as they are emitted.
  unfoldable pub process_batch : List Payload → List Payload
  process_batch batch =
      filter (λ p. not (is_encrypted_payload p)) batch
      ++ decrypt_items (filter is_encrypted_payload batch)

  unfoldable pub load_batch : ℕ → List Payload → LoadState → LoadState
  unfolding process_batch
  load_batch batch_index payloads s =
      let current_position = batch_index * load_batch_size in
      let batch = take load_batch_size (drop current_position payloads) in
      let s' = emit_payloads (process_batch batch) s in
      record s' {
        incremental_loads = s'.incremental_loads + 1;
        op_status = set_database_load_status current_position (length payloads) false s'.op_status;
      }

  -- The batches that are left, from the next one on.
  unfoldable pub load_batches : ℕ → ℕ → List Payload → LoadState → LoadState
  load_batches zero batch_index payloads s = s
  load_batches (suc left) batch_index payloads s =
      load_batches left (suc batch_index) payloads (load_batch batch_index payloads s)

  abbrev pub finish_load : LoadState → LoadState
  finish_load s = record s {
    database_loaded = true;
    op_status = set_database_load_status 0 0 true s.op_status;
  }

  abbrev pub load_sorted : List Payload → LoadState → LoadState
  load_sorted sorted s =
      let items_keys_payloads = filter is_items_key sorted in
      let payloads = subtract_from_array sorted items_keys_payloads in
      let s' = process_items_keys_first items_keys_payloads s in
      finish_load (load_batches (ceil_div (length payloads) load_batch_size) 0 payloads s')

  unfoldable pub load_database_payloads : List Raw → LoadState → Result LoadState
  unfolding created_payloads
  load_database_payloads raws s =
      if s.database_loaded
      then throw "Attempting to initialize already initialized local database."
      else if is_empty raws
      then ok (finish_load s)
      else ok (load_sorted (sort_payloads (created_payloads raws) local_load_priority) s)
