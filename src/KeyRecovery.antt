-- ===== src/KeyRecovery.antt =====
-- The recovery of items keys that could not be decrypted (packages/snjs/lib/Services/KeyRecovery/
-- KeyRecoveryService.ts): the queue, the keys kept in isolated storage, and what a correct root key does to
-- them. Keys and their params, decryption, the operation that asks the user and removeFromArray
-- are parameters; the operation's results come by the number of the attempt. Params are numbers, as they
-- are only compared. A loop takes rounds, and `none` means that they ran out. Where a passcode is needed
-- to store a root key, the code asks for it again and again, with an alert each time, until the user does
-- not cancel; that they cancel finitely often is assumed, and how often is a parameter, by the attempt.
pub mod Kept
pub mod Ends
mod Examples
use snjs.Prelude.{
  ℕ, zero, suc, ◌+◌, Bool, true, false, not, ◌&&◌, Option, none, some, List, [], ◌∷◌, ◌++◌, ◌==◌,
  filter, map, any, is_empty, if◌then◌else◌,
}

pub record KeyModels : Type 1 where
  pub Key : Type 0
  pub RootKey : Type 0
  pub uuid : Key → ℕ
  -- getKeyEmbeddedKeyParams
  pub embedded_key_params : Key → Option ℕ
  pub root_key_params : RootKey → ℕ
  -- `copy({ dirty: true, ... })` and `dirty`
  pub make_dirty : Key → Key
  pub is_dirty : Key → Bool
  -- decryptSplit with the root key, the decrypted ones of its results
  pub decrypt : RootKey → List Key → List Key

module _ (m : KeyModels) where
  open m use {
    Key, RootKey, uuid, embedded_key_params, root_key_params, make_dirty, is_dirty, decrypt,
  }

  pub record DecryptionQueueItem : Type 0 where
    pub encrypted_key : Key
    pub key_params : ℕ

  pub data OperationResult : Type 0 where
    success : RootKey → Bool → OperationResult
    failed aborted : OperationResult

  -- `undecryptables` is the record in storage; `emitted` are the calls of emitPayloads.
  pub record KeyRecovery : Type 0 where
    pub decryption_queue : List DecryptionQueueItem
    pub is_processing_queue : Bool
    pub undecryptables : List Key
    pub client_params : Option ℕ
    pub emitted : List (List Key)
    pub saved : List (List Key)
    pub attempts : ℕ
    pub alerts : ℕ
    pub syncs : ℕ

  -- `record[key.uuid] = key.ejected()`
  unfoldable pub put_key : Key → List Key → List Key
  put_key key [] = key ∷ []
  put_key key (k ∷ ks) = if uuid k == uuid key then key ∷ ks else k ∷ put_key key ks

  unfoldable pub save_to_undecryptables : List Key → KeyRecovery → KeyRecovery
  save_to_undecryptables [] s = s
  save_to_undecryptables (key ∷ keys) s =
      save_to_undecryptables keys (record s { undecryptables = put_key key s.undecryptables })

  -- `delete record[id]` for each
  unfoldable pub remove_from_undecryptables : List ℕ → KeyRecovery → KeyRecovery
  remove_from_undecryptables ids s = record s {
    undecryptables = filter (λ k. not (any (λ id. uuid k == id) ids)) s.undecryptables;
  }

  abbrev pub queue_item : Key → Option ℕ → List DecryptionQueueItem
  queue_item key none = []
  queue_item key (some params) = record { encrypted_key = key; key_params = params } ∷ []

  unfoldable pub add_keys_to_queue : List Key → KeyRecovery → KeyRecovery
  add_keys_to_queue [] s = s
  add_keys_to_queue (key ∷ keys) s = add_keys_to_queue keys (record s {
    decryption_queue = s.decryption_queue ++ queue_item key (embedded_key_params key);
  })

  -- Where the server's params are those of the client, a key of other params is to be synced again.
  abbrev pub needs_resync : Option ℕ → Option ℕ → ℕ → Bool
  needs_resync (some client) (some server) params = (client == server) && not (server == params)
  needs_resync _ _ params = false

  abbrev pub matching_key : Option ℕ → Option ℕ → DecryptionQueueItem → Key
  matching_key client server item =
      if needs_resync client server item.key_params
      then make_dirty item.encrypted_key
      else item.encrypted_key

  -- `cancels` is how often the user cancels the challenge before the passcode is given.
  abbrev pub get_wrapping_key_if_applicable : Bool → ℕ → KeyRecovery → KeyRecovery
  get_wrapping_key_if_applicable has_passcode cancels s = record s {
    alerts = s.alerts + (if has_passcode then cancels else 0);
  }

  abbrev pub set_root_key : Bool → ℕ → Bool → RootKey → KeyRecovery → KeyRecovery
  set_root_key has_passcode cancels replaces root_key s =
      if replaces
      then record (get_wrapping_key_if_applicable has_passcode cancels s) {
        client_params = some (root_key_params root_key);
      }
      else s

  abbrev pub has_params : RootKey → DecryptionQueueItem → Bool
  has_params root_key item = item.key_params == root_key_params root_key

  unfoldable pub handle_decryption_of_all_keys :
      Bool → ℕ → RootKey → Bool → Option ℕ → KeyRecovery → KeyRecovery
  unfolding remove_from_undecryptables
  handle_decryption_of_all_keys has_passcode cancels root_key replaces server_params s0 =
      let s = set_root_key has_passcode cancels replaces root_key s0 in
      let matching_keys =
        map (matching_key s.client_params server_params)
          (filter (has_params root_key) s.decryption_queue) in
      let decrypted = decrypt root_key matching_keys in
      remove_from_undecryptables (map uuid decrypted) (record s {
        decryption_queue = filter (λ i. not (has_params root_key i)) s.decryption_queue;
        emitted = s.emitted ++ decrypted ∷ [];
        saved = s.saved ++ decrypted ∷ [];
        alerts = s.alerts + 1;
        syncs = if any is_dirty decrypted then s.syncs + 1 else s.syncs;
      })

  module _ (run : ℕ → DecryptionQueueItem → OperationResult) (has_passcode : Bool) (cancels : ℕ → ℕ)
      (remove_from_array : List DecryptionQueueItem
        → DecryptionQueueItem
        → List DecryptionQueueItem)
      (server_params : Option ℕ) where
    -- What a result of the operation does; a key that failed goes back to the head of the queue.
    abbrev pub handle_result : OperationResult → DecryptionQueueItem → KeyRecovery → KeyRecovery
    handle_result (success root_key replaces) item s =
        handle_decryption_of_all_keys has_passcode (cancels s.attempts) root_key replaces
          server_params s
    handle_result failed item s = record s {
      alerts = s.alerts + 1;
      decryption_queue = item ∷ s.decryption_queue;
    }
    handle_result aborted item s = s

    abbrev pub is_aborted : OperationResult → Bool
    is_aborted aborted = true
    is_aborted _ = false

    abbrev pub leave_queue : DecryptionQueueItem → KeyRecovery → KeyRecovery
    leave_queue item s = record s { decryption_queue = remove_from_array s.decryption_queue item }

    -- One pass of the loop in processQueue, and whether it was aborted.
    unfoldable pub process_first : DecryptionQueueItem → KeyRecovery → Bool × KeyRecovery
    process_first item s =
        let result = run s.attempts item in
        (
          is_aborted result,
          leave_queue item (handle_result result item (record s { attempts = suc s.attempts })),
        )

    abbrev pub first_pass : List DecryptionQueueItem → KeyRecovery → Option (Bool × KeyRecovery)
    first_pass [] s = none
    first_pass (item ∷ queue) s = some (process_first item s)

    abbrev pub finished : KeyRecovery → KeyRecovery
    finished s = record s { is_processing_queue = false }

    -- The loop ends where the queue is empty or the operation was aborted.
    abbrev pub go_on :
        Option (Bool × KeyRecovery)
        → (KeyRecovery → Option KeyRecovery)
        → KeyRecovery
        → Option KeyRecovery
    go_on none next s = some (finished s)
    go_on (some (true, s')) next s = some (finished s')
    go_on (some (false, s')) next s = next s'

    -- `rounds` is how many passes may follow the first.
    unfoldable pub process_queue : ℕ → KeyRecovery → Option KeyRecovery
    process_queue zero s = go_on (first_pass s.decryption_queue s) (λ s'. none) s
    process_queue (suc rounds) s =
        go_on (first_pass s.decryption_queue s) (λ s'. process_queue rounds s') s

    -- Keys that arrived and were ignored; a call while the queue is processed only adds to it. This is the
    -- case with credentials: the sign-ins before and after the queue, and the check of
    -- integrity, are left out.
    unfoldable pub handle_ignored_items_keys :
        ℕ → Bool → List Key → KeyRecovery → Option KeyRecovery
    unfolding save_to_undecryptables add_keys_to_queue process_queue
    handle_ignored_items_keys rounds persist_incoming keys s =
        let s' : KeyRecovery = if persist_incoming then save_to_undecryptables keys s else s in
        let s'' : KeyRecovery = add_keys_to_queue keys s' in
        if s''.is_processing_queue
        then some s''
        else process_queue rounds (record s'' { is_processing_queue = true })
