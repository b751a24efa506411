-- ===== src/Sync/Service.antt =====
-- The scheduling core of the sync service (packages/snjs/lib/Services/Sync/SyncService.ts): which
-- call of `sync` may run, what becomes of the others, and what follows a finished operation. A
-- promise is a number, handed out in order. A call of `performSync` is cut where it awaits; the
-- pieces are the functions below, and Service/Schedule puts them together.
pub mod Schedule
pub mod World
use snjs.Prelude.{
  ℕ, zero, suc, ◌+◌, ◌≤◌, String, Bool, true, false, ◌&&◌, not, Option, none, some, List, [], ◌∷◌,
  ◌++◌, map, leb, length, is_empty, or_else, if◌then◌else◌, Result, ok, throw,
}
use snjs.Sync.OpStatus.{
  OpStatus, set_did_begin, set_did_end, set_error, clear_error, set_download_status, reset,
  has_error,
}

pub data SyncMode : Type 0 where
  default_mode download_first : SyncMode

pub data QueueStrategy : Type 0 where
  resolve_on_next force_spawn_new : QueueStrategy

pub data SyncSource : Type 0 where
  external spawn_queue_source resolve_queue_source more_dirty_items after_download_first
        resolve_out_of_sync :
      SyncSource

pub record SyncOptions : Type 0 where
  pub mode : Option SyncMode
  pub queue_strategy : Option QueueStrategy
  pub source : SyncSource
  pub check_integrity : Bool
  pub await_all : Bool

pub record SyncState : Type 0 where
  pub client_locked : Bool
  pub database_loaded : Bool
  pub sync_lock : Bool
  pub completed_online_download_first_sync : Bool
  pub dealloced : Bool
  pub status : OpStatus
  pub resolve_queue : List ℕ
  pub spawn_queue : List (ℕ × SyncOptions)
  pub resolved : List ℕ
  pub next_promise : ℕ
  pub last_sync_date : Option ℕ

unfoldable pub lock_syncing : SyncState → SyncState
lock_syncing s = record s { client_locked = true }

unfoldable pub unlock_syncing : SyncState → SyncState
unlock_syncing s = record s { client_locked = false }

-- Whether the call may execute, and the lock that it took.
unfoldable pub configure_sync_lock : SyncState → Bool × SyncState
configure_sync_lock s =
    if not s.sync_lock && s.database_loaded && not s.status.syncing
    then (true, record s { sync_lock = true })
    else (false, s)

unfoldable pub release_lock : SyncState → SyncState
release_lock s = record s { sync_lock = false }

unfoldable pub queue_strategy_resolve_on_next : SyncState → ℕ × SyncState
queue_strategy_resolve_on_next s = (
  s.next_promise,
  record s {
    resolve_queue = s.resolve_queue ++ s.next_promise ∷ [];
    next_promise = s.next_promise + 1;
  },
)

unfoldable pub queue_strategy_force_spawn_new : SyncOptions → SyncState → ℕ × SyncState
queue_strategy_force_spawn_new options s = (
  s.next_promise,
  record s {
    spawn_queue = s.spawn_queue ++ (s.next_promise, options) ∷ [];
    next_promise = s.next_promise + 1;
  },
)

-- Only three options of a deferred request are kept.
unfoldable pub defer_sync_request : SyncOptions → SyncState → ℕ × SyncState
unfolding queue_strategy_resolve_on_next queue_strategy_force_spawn_new
defer_sync_request options s = elim (or_else options.queue_strategy resolve_on_next) [
  | resolve_on_next ↦ queue_strategy_resolve_on_next s
  | force_spawn_new ↦
      queue_strategy_force_spawn_new
        (record {
          mode = options.mode;
          queue_strategy = none;
          source = options.source;
          check_integrity = options.check_integrity;
          await_all = false;
        })
        s
]

-- `getPendingRequestsMadeInTimeToPiggyBackOnCurrentRequest`
abbrev pub requests_made_in_time : SyncState → List ℕ
requests_made_in_time s = s.resolve_queue

unfoldable pub resolve_pending_sync_requests : List ℕ → SyncState → SyncState
resolve_pending_sync_requests in_time s = record s { resolved = s.resolved ++ in_time }

unfoldable pub get_offline_sync_parameters {ℓ} :
    {Payload : Type ℓ} → List Payload → Option SyncMode → List Payload
get_offline_sync_parameters payloads mode = elim (or_else mode default_mode) [
  | default_mode ↦ payloads
  | download_first ↦ []
]

-- The payloads to upload and the mode in use; `prepare` stands for the encryption of payloads.
unfoldable pub get_online_sync_parameters {ℓ} :
    {Payload Prepared : Type ℓ}
    → (List Payload → List Prepared)
    → SyncState
    → List Payload
    → Option SyncMode
    → Result (List Prepared × SyncMode)
get_online_sync_parameters prepare s payloads mode =
    let use_mode =
      if not s.completed_online_download_first_sync
      then download_first
      else or_else mode default_mode in
    elim use_mode [
      | default_mode ↦
          if not s.completed_online_download_first_sync
          then throw "Attempting to default mode sync without having completed initial."
          else ok (prepare payloads, default_mode)
      | download_first ↦ ok ([], download_first)
    ]

-- The mode that `createSyncOperation` reports.
unfoldable pub sync_mode : Bool → SyncState → SyncOptions → SyncMode
sync_mode online s options =
    if online && not s.completed_online_download_first_sync
    then download_first
    else or_else options.mode default_mode

-- What a server response does to the status.
pub data Answer : Type 0 where
  failed : (error : ℕ) → Answer
  succeeded : (retrieved : ℕ) → Answer

unfoldable pub handle_answer : OpStatus → Answer → OpStatus
handle_answer status (failed e) = set_error e status
handle_answer status (succeeded n) = set_download_status n (clear_error status)

unfoldable pub handle_answers : OpStatus → List Answer → OpStatus
unfolding handle_answer
handle_answers status [] = status
handle_answers status (a ∷ answers) = handle_answers (handle_answer status a) answers

-- Up to the first event; the flag is `hasError`.
unfoldable pub handle_sync_operation_finish : ℕ → SyncState → Bool × SyncState
handle_sync_operation_finish now s =
    let ended = set_did_end s.status in
    if has_error ended
    then (true, record s { status = ended })
    else (false, record s { status = reset ended; last_sync_date = some now })
