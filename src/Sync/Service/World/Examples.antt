-- ===== src/Sync/Service/World/Examples.antt =====
-- Two calls of `sync`, of which the second is deferred.
use snjs.Prelude.{◌≤◌, refl, true, false, none, [], ◌∷◌}
use snjs.Samples.{subtract_from_array}
use snjs.Sync.OpStatus
use snjs.Sync.Service.{SyncState, SyncOptions, external}
use snjs.Sync.Service.Schedule.{Task, Env, preparing, sync, resume, resume_at}
use snjs.Sync.Service.World.{World, Reach, here, next, call, resume_task}
use snjs.Sync.Service.World.Counts.{is_running, count}
use snjs.Sync.Service.World.Exclusion.{IsExclusive, sync-IsExclusive}

abbrev start : SyncState
start = record {
  client_locked = false;
  database_loaded = true;
  sync_lock = false;
  completed_online_download_first_sync = true;
  dealloced = false;
  status = OpStatus.new;
  resolve_queue = [];
  spawn_queue = [];
  resolved = [];
  next_promise = 0;
  last_sync_date = none;
}

abbrev plain : SyncOptions
plain = record {
  mode = none;
  queue_strategy = none;
  source = external;
  check_integrity = false;
  await_all = false;
}

abbrev env : Env
env = record { now = 5; online = true; answers = []; has_dirty_items = false }

abbrev first : Task
first = record { options = plain; stage = preparing true; reply = none }

abbrev second : Task
second = record { options = plain; stage = preparing false; reply = none }

abbrev called_twice : World
called_twice = record { state = record start { sync_lock = true }; tasks = first ∷ second ∷ [] }

abbrev begun : World
begun = record {
  state = (resume subtract_from_array env called_twice.state first).0;
  tasks = (resume subtract_from_array env called_twice.state first).1 ∷ second ∷ [];
}

begun-Reach : Reach subtract_from_array (record { state = start; tasks = [] }) begun
unfolding sync resume_at
begun-Reach =
    next (next (next here (call plain refl)) (call plain refl))
      (resume_task [] first (second ∷ []) env refl refl)

sync-IsExclusive_example : IsExclusive begun × (count is_running begun.tasks ≤ 1)
unfolding resume_at
sync-IsExclusive_example = sync-IsExclusive subtract_from_array start (refl, refl) begun-Reach refl
