-- ===== src/Sync/OpStatus/Examples.antt =====
-- A status with a running monitor.
use snjs.Prelude.{refl, [], ◌∷◌, true, some}
use snjs.Sync.OpStatus.{OpStatus, new}
use snjs.Sync.OpStatus.Laws.{calls, did_begin, start_monitor, poll, IsTracked, calls-IsTracked}

abbrev monitored : OpStatus
monitored = record new {
  syncing = true;
  sync_start = some 1000;
  timing_monitor = some 1;
  next_interval = 2;
  intervals = 1 ∷ [];
}

calls-IsTracked_example :
    IsTracked (calls new (start_monitor ∷ start_monitor ∷ did_begin 3 ∷ poll 9000 ∷ []))
calls-IsTracked_example =
    calls-IsTracked new (start_monitor ∷ start_monitor ∷ did_begin 3 ∷ poll 9000 ∷ []) refl
