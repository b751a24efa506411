-- ===== src/Sync/Service/World.antt =====
-- The sync service with all the calls of `sync` under way, and its moves.
pub mod Counts
pub mod Pieces
mod Examples
pub mod Exclusion
use snjs.Prelude.{ℕ, ◌≡◌, Bool, true, false, none, List, [], ◌∷◌, ◌++◌}
use snjs.Sync.OpStatus.{deinit}
use snjs.Sync.Service.{SyncState, SyncOptions, lock_syncing, unlock_syncing}
use snjs.Sync.Service.Schedule.{Task, Env, sync, resume}

pub record World : Type 0 where
  pub state : SyncState
  pub tasks : List Task

-- `deinit`: the queues are emptied. The flag is never taken back.
unfoldable pub deinit_service : SyncState → SyncState
deinit_service s = record s { dealloced = true; resolve_queue = []; spawn_queue = [] }

module _ (subtract_from_array : List ℕ → List ℕ → List ℕ) where
  pub data Move (w : World) (u : World) : Type 0 where
    call :
        (options : SyncOptions)
        → u ≡ record {
          state = (sync options none w.state).0;
          tasks = w.tasks ++ (sync options none w.state).1;
        }
        → Move w u
    resume_task :
        (before : List Task) (t : Task) (after : List Task) (env : Env)
        → w.tasks ≡ before ++ (t ∷ after)
        → u ≡ record {
          state = (resume subtract_from_array env w.state t).0;
          tasks =
              before
              ++ ((resume subtract_from_array env w.state t).1
                  ∷ (after ++ (resume subtract_from_array env w.state t).2));
        }
        → Move w u
    lock_client : u ≡ record w { state = lock_syncing w.state } → Move w u
    unlock_client : u ≡ record w { state = unlock_syncing w.state } → Move w u
    database_load : u ≡ record w { state = record w.state { database_loaded = true } } → Move w u
    deinit_move : u ≡ record w { state = deinit_service w.state } → Move w u

  pub data Reach (w : World) : World → Type 0 where
    here : Reach w w
    next : {u v : World} → Reach w u → Move u v → Reach w v
