-- ===== src/Sync/OpStatus.antt =====
-- The status of the current sync operation (packages/snjs/lib/Services/Sync/SyncOpStatus.ts).
-- Times are milliseconds. `intervals` holds the identifiers of the running intervals, which the
-- host hands out in order, and `events` what the receiver was given, latest first.
pub mod Laws
mod Examples
use snjs.Prelude.{
  ℕ, ◌+◌, ◌-◌, Bool, true, false, not, Option, none, some, List, [], ◌∷◌, ltb, ◌==◌, if◌then◌else◌,
  filter, is_some,
}

pub data StatusEvent : Type 0 where
  status_changed local_data_loaded local_data_incremental_load sync_taking_too_long : StatusEvent

pub record OpStatus : Type 0 where
  pub error : Option ℕ
  pub completed_upload : ℕ
  pub total_upload : ℕ
  pub downloaded : ℕ
  pub database_load_current : ℕ
  pub database_load_total : ℕ
  pub database_load_done : Bool
  pub syncing : Bool
  pub sync_start : Option ℕ
  pub timing_monitor : Option ℕ
  pub next_interval : ℕ
  pub intervals : List ℕ
  pub events : List StatusEvent

abbrev pub new : OpStatus
new = record {
  error = none;
  completed_upload = 0;
  total_upload = 0;
  downloaded = 0;
  database_load_current = 0;
  database_load_total = 0;
  database_load_done = false;
  syncing = false;
  sync_start = none;
  timing_monitor = none;
  next_interval = 1;
  intervals = [];
  events = [];
}

-- HEALTHY_SYNC_DURATION_THRESHOLD_S, in milliseconds
abbrev pub healthy_sync_duration_threshold : ℕ
healthy_sync_duration_threshold = 5000

unfoldable pub set_upload_status : ℕ → ℕ → OpStatus → OpStatus
set_upload_status completed total s = record s {
  completed_upload = completed;
  total_upload = total;
  events = status_changed ∷ s.events;
}

unfoldable pub set_download_status : ℕ → OpStatus → OpStatus
set_download_status downloaded s = record s {
  downloaded = s.downloaded + downloaded;
  events = status_changed ∷ s.events;
}

unfoldable pub set_database_load_status : ℕ → ℕ → Bool → OpStatus → OpStatus
set_database_load_status current total is_done s = record s {
  database_load_current = current;
  database_load_total = total;
  database_load_done = is_done;
  events = (if is_done then local_data_loaded else local_data_incremental_load) ∷ s.events;
}

pub record Stats : Type 0 where
  pub upload_completion_count : ℕ
  pub upload_total_count : ℕ
  pub download_count : ℕ
  pub local_data_done : Bool
  pub local_data_current : ℕ
  pub local_data_total : ℕ

unfoldable pub get_stats : OpStatus → Stats
get_stats s = record {
  upload_completion_count = s.completed_upload;
  upload_total_count = s.total_upload;
  download_count = s.downloaded;
  local_data_done = s.database_load_done;
  local_data_current = s.database_load_current;
  local_data_total = s.database_load_total;
}

unfoldable pub set_did_begin : ℕ → OpStatus → OpStatus
set_did_begin now s = record s { syncing = true; sync_start = some now }

unfoldable pub set_did_end : OpStatus → OpStatus
set_did_end s = record s { syncing = false }

-- `interval.cancel` or `clearInterval`, then `timingMonitor = null`
unfoldable pub stop_timing_monitor : OpStatus → OpStatus
stop_timing_monitor s = elim s.timing_monitor [
  | none ↦ s
  | some t ↦ record s { timing_monitor = none; intervals = filter (λ i. not (i == t)) s.intervals }
]

unfoldable pub start_timing_monitor : OpStatus → OpStatus
unfolding stop_timing_monitor
start_timing_monitor s =
    let s' = if is_some s.timing_monitor then stop_timing_monitor s else s in
    record s' {
      timing_monitor = some s'.next_interval;
      next_interval = s'.next_interval + 1;
      intervals = s'.next_interval ∷ s'.intervals;
    }

-- The callback of the interval. With no start date it throws, and changes nothing.
unfoldable pub poll_timing_monitor : ℕ → OpStatus → OpStatus
unfolding stop_timing_monitor
poll_timing_monitor now s = elim s.sync_start [
  | none ↦ s
  | some start ↦
      if ltb healthy_sync_duration_threshold (now - start)
      then stop_timing_monitor (record s { events = sync_taking_too_long ∷ s.events })
      else s
]

unfoldable pub has_error : OpStatus → Bool
has_error s = is_some s.error

unfoldable pub set_error : ℕ → OpStatus → OpStatus
set_error e s = record s { error = some e }

unfoldable pub clear_error : OpStatus → OpStatus
clear_error s = record s { error = none }

unfoldable pub reset : OpStatus → OpStatus
unfolding stop_timing_monitor
reset s =
    let s' = stop_timing_monitor (record s {
      downloaded = 0;
      completed_upload = 0;
      total_upload = 0;
      syncing = false;
      error = none;
    }) in
    record s' { events = status_changed ∷ s'.events }

unfoldable pub deinit : OpStatus → OpStatus
deinit = stop_timing_monitor
