-- ===== src/Sync/OpStatus/Laws.antt =====
-- The status keeps at most one timing monitor running, and never loses track of it.
use snjs.Prelude.{
  ℕ, ◌≤◌, ◌<◌, ◌≡◌, ◌-◌, Bool, false, Option, none, some, List, [], ◌∷◌, arith, ==_iff,
  Option-cases, inl, inr,
}
use snjs.Sync.OpStatus.{
  OpStatus, set_upload_status, set_download_status, set_database_load_status, set_did_begin,
  set_did_end, stop_timing_monitor, start_timing_monitor, poll_timing_monitor, set_error,
  clear_error, reset, has_error, get_stats, healthy_sync_duration_threshold, sync_taking_too_long,
}

-- The calls that the sync service and the host make on a status.
pub data Call : Type 0 where
  upload_status : ℕ → ℕ → Call
  download_status : ℕ → Call
  database_load_status : ℕ → ℕ → Bool → Call
  did_begin : ℕ → Call
  did_end start_monitor stop_monitor clear_error_call reset_call : Call
  poll : ℕ → Call
  fail : ℕ → Call

abbrev pub call : OpStatus → Call → OpStatus
call s (upload_status c t) = set_upload_status c t s
call s (download_status d) = set_download_status d s
call s (database_load_status c t b) = set_database_load_status c t b s
call s (did_begin now) = set_did_begin now s
call s did_end = set_did_end s
call s start_monitor = start_timing_monitor s
call s stop_monitor = stop_timing_monitor s
call s clear_error_call = clear_error s
call s reset_call = reset s
call s (poll now) = poll_timing_monitor now s
call s (fail e) = set_error e s

abbrev pub calls : OpStatus → List Call → OpStatus
calls s [] = s
calls s (c ∷ cs) = calls (call s c) cs

-- The running intervals, as the recorded monitor says.
abbrev pub monitored : Option ℕ → List ℕ
monitored none = []
monitored (some t) = t ∷ []

-- The running intervals are exactly the recorded monitor.
abbrev pub IsTracked : OpStatus → Type 0
IsTracked s = s.intervals ≡ monitored s.timing_monitor

-- Stopping leaves no interval and no recorded monitor.
pub stop_all :
    (s : OpStatus)
    → IsTracked s
    → ((stop_timing_monitor s).intervals ≡ []) × ((stop_timing_monitor s).timing_monitor ≡ none)
unfolding stop_timing_monitor
stop_all s h = elim (Option-cases s.timing_monitor) [
  | inl e ↦ ground arith
  | inr (t, e) ↦ ground (arith, ==_iff t t)
]

stop-IsTracked : (s : OpStatus) → IsTracked s → IsTracked (stop_timing_monitor s)
stop-IsTracked s h = let (none_left, forgotten) = stop_all s h in rw (none_left, forgotten)

start-IsTracked : (s : OpStatus) → IsTracked s → IsTracked (start_timing_monitor s)
unfolding start_timing_monitor stop_timing_monitor
start-IsTracked s h = elim (Option-cases s.timing_monitor) [
  | inl e ↦ ground arith
  | inr (t, e) ↦ ground (arith, ==_iff t t)
]

reset-IsTracked : (s : OpStatus) → IsTracked s → IsTracked (reset s)
unfolding reset stop_timing_monitor
reset-IsTracked s h = elim (Option-cases s.timing_monitor) [
  | inl e ↦ ground arith
  | inr (t, e) ↦ ground (arith, ==_iff t t)
]

poll-IsTracked : (now : ℕ) (s : OpStatus) → IsTracked s → IsTracked (poll_timing_monitor now s)
unfolding poll_timing_monitor stop_timing_monitor
poll-IsTracked now s h = elim (Option-cases s.timing_monitor) [
  | inl e ↦ ground arith
  | inr (t, e) ↦ ground (arith, ==_iff t t)
]

call-IsTracked : (s : OpStatus) (c : Call) → IsTracked s → IsTracked (call s c)
unfolding set_upload_status set_download_status set_database_load_status set_did_begin set_did_end
    set_error clear_error
call-IsTracked s start_monitor h = start-IsTracked s h
call-IsTracked s stop_monitor h = stop-IsTracked s h
call-IsTracked s reset_call h = reset-IsTracked s h
call-IsTracked s (poll now) h = poll-IsTracked now s h
call-IsTracked s _ h = h

-- From a status whose running intervals are exactly the recorded timing monitor, every sequence of
-- calls and polls leads to such a status: at most one interval runs, and it can be stopped.
pub calls-IsTracked : (s : OpStatus) (cs : List Call) → IsTracked s → IsTracked (calls s cs)
calls-IsTracked s [] h = h
calls-IsTracked s (c ∷ cs) h = calls-IsTracked (call s c) cs (call-IsTracked s c h)

-- On a status whose monitor is tracked, a poll more than five seconds after the start reports the
-- slow sync and leaves no interval running; an earlier poll changes nothing.
pub poll_reports :
    (s : OpStatus) (start now : ℕ)
    → IsTracked s
    → s.sync_start ≡ some start
    → ((healthy_sync_duration_threshold < now - start)
        → ((poll_timing_monitor now s).events ≡ sync_taking_too_long ∷ s.events)
          × ((poll_timing_monitor now s).intervals ≡ []))
      × ((now - start ≤ healthy_sync_duration_threshold) → poll_timing_monitor now s ≡ s)
unfolding poll_timing_monitor stop_timing_monitor
poll_reports s start now h e = elim (Option-cases s.timing_monitor) [
  | inl m ↦ (λ late. ground arith, λ early. ground arith)
  | inr (t, m) ↦ (λ late. ground (arith, ==_iff t t), λ early. ground arith)
]

-- After `reset`, on a status whose monitor is tracked: no error, no sync in progress, no running
-- interval, all transfer counts zero, and the counts of the database load as before.
pub reset_clean :
    (s : OpStatus)
    → IsTracked s
    → (has_error (reset s) ≡ false)
      × ((reset s).syncing ≡ false)
      × ((reset s).intervals ≡ [])
      × (get_stats (reset s) ≡ record {
        upload_completion_count = 0;
        upload_total_count = 0;
        download_count = 0;
        local_data_done = s.database_load_done;
        local_data_current = s.database_load_current;
        local_data_total = s.database_load_total;
      })
unfolding reset has_error get_stats stop_timing_monitor
reset_clean s h = elim (Option-cases s.timing_monitor) [
  | inl e ↦ ground arith
  | inr (t, e) ↦ ground (arith, ==_iff t t)
]
