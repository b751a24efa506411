-- ===== src/Sync/Service/World/Pieces.antt =====
-- What each piece of `performSync` does to the sync lock and to the status of the operation.
use snjs.Prelude.{
  ℕ, ◌+◌, ◌≡◌, refl, Bool, true, false, Option, none, some, List, [], ◌∷◌, ◌++◌, arith, inl, inr,
  Bool-cases, if◌then◌else◌, is_empty, append-nil, subst, any, ◌∙◌, ◌==◌,
}
use snjs.Sync.OpStatus.{OpStatus, set_did_begin, set_did_end, reset, stop_timing_monitor}
use snjs.Sync.Service.{
  SyncState, SyncOptions, SyncMode, resolve_on_next, force_spawn_new, default_mode, download_first,
  configure_sync_lock, release_lock, defer_sync_request, resolve_pending_sync_requests,
  handle_answers, handle_sync_operation_finish,
}
use snjs.Sync.Service.Schedule.{
  Task, Stage, Env, preparing, deferred, beginning, operating, finishing, downloaded, syncing_again,
  completing, ended, abandoned, sync, settle, return_at, after_finish, pop_spawn_queue,
  sync_new_dirty_items, potentially_sync_again, resume_at,
}
use snjs.Sync.Service.World.Counts.{to_number, holds_lock, is_running, count, count-append}

-- What one piece of the code does to the lock and to the status, as seen by the calls that it
-- leaves behind: `stage` and `stage'` are where the resumed call stands before and after.
pub record Fair (s s' : SyncState) (stage stage' : Stage) (new : List Task) : Type 0 where
  pub locks :
      to_number s'.sync_lock + to_number (holds_lock stage)
      ≡ to_number s.sync_lock + to_number (holds_lock stage') + count holds_lock new
  pub runs :
      to_number s'.status.syncing + to_number (is_running stage)
      ≡ to_number s.status.syncing + to_number (is_running stage') + count is_running new
  pub kept : s'.dealloced ≡ s.dealloced

-- A call that neither holds the lock nor runs, before and after.
abbrev pub IsIdle : Stage → Type 0
IsIdle stage = (holds_lock stage ≡ false) × (is_running stage ≡ false)

pub sync-Fair :
    (options : SyncOptions) (reply : Option ℕ) (s : SyncState) (stage stage' : Stage)
    → IsIdle stage
    → IsIdle stage'
    → Fair s (sync options reply s).0 stage stage' (sync options reply s).1
unfolding sync configure_sync_lock settle resolve_pending_sync_requests
sync-Fair options none s stage stage' h h' = ground arith
sync-Fair options (some p) s stage stage' h h' = ground arith

reset-syncing : (s : OpStatus) → (reset s).syncing ≡ false
unfolding reset stop_timing_monitor
reset-syncing s = ground arith

finish_lem :
    (now : ℕ) (s : SyncState)
    → ((handle_sync_operation_finish now s).1.status.syncing ≡ false)
      × ((handle_sync_operation_finish now s).1.sync_lock ≡ s.sync_lock)
      × ((handle_sync_operation_finish now s).1.dealloced ≡ s.dealloced)
unfolding handle_sync_operation_finish set_did_end
finish_lem now s = ground (arith, reset-syncing (set_did_end s.status))

settle_lem :
    (reply : Option ℕ) (s : SyncState)
    → ((settle reply s).sync_lock ≡ s.sync_lock)
      × ((settle reply s).status ≡ s.status)
      × ((settle reply s).dealloced ≡ s.dealloced)
unfolding settle resolve_pending_sync_requests
settle_lem none s = (refl, refl, refl)
settle_lem (some p) s = (refl, refl, refl)

-- Two pieces in a row.
Fair-trans :
    {s s' s'' : SyncState} {stage stage' stage'' : Stage} (new new' : List Task)
    → Fair s s' stage stage' new
    → Fair s' s'' stage' stage'' new'
    → Fair s s'' stage stage'' (new ++ new')
Fair-trans new new' f g = record {
  locks = omega (arith, f.locks, g.locks, count-append holds_lock new new');
  runs = omega (arith, f.runs, g.runs, count-append is_running new new');
  kept = g.kept ∙ f.kept;
}

Fair-idle :
    (s : SyncState) (stage stage' : Stage) → IsIdle stage → IsIdle stage' → Fair s s stage stage' []
Fair-idle s stage stage' h h' = record {
  locks = ground arith;
  runs = ground arith;
  kept = ground arith;
}

Fair-resolved :
    (s : SyncState) (resolved : List ℕ) {s' : SyncState} {stage stage' : Stage} {new : List Task}
    → Fair (record s { resolved = resolved }) s' stage stage' new
    → Fair s s' stage stage' new
Fair-resolved s resolved f = record { locks = f.locks; runs = f.runs; kept = f.kept }

Fair-else :
    (test : Bool) (s : SyncState) (stage : Stage) (x y : SyncState × Task × List Task)
    → test ≡ false
    → Fair s y.0 stage y.1.stage y.2
    → Fair s
        (if test then x else y).0
        stage
        (if test then x else y).1.stage
        (if test then x else y).2
Fair-else true s stage x y e f = cc
Fair-else false s stage x y e f = f

dirty-Fair :
    (env : Env) (s₀ s : SyncState) (t : Task) (in_time : List ℕ) (stage : Stage) (new : List Task)
    → Fair s₀ s stage ended new
    → Fair s₀
        (sync_new_dirty_items env s t in_time new).0
        stage
        (sync_new_dirty_items env s t in_time new).1.stage
        (sync_new_dirty_items env s t in_time new).2
unfolding sync_new_dirty_items
dirty-Fair env s₀ s t in_time stage new f = elim (Bool-cases env.has_dirty_items) [
  | inl e ↦ rw e (
      Fair-trans new _ f
        (sync-Fair _ none s ended (syncing_again in_time) (refl, refl) (refl, refl)))
  | inr e ↦ rw e (
      subst (λ l. Fair s₀ s stage (completing in_time) l) (append-nil new)
        (Fair-trans new [] f (Fair-idle s ended (completing in_time) (refl, refl) (refl, refl))))
]

-- Taking a request off the spawn queue matters to neither count.
Fair-popped :
    (s : SyncState) (queue : List (ℕ × SyncOptions)) {s' : SyncState} {stage stage' : Stage}
    {new : List Task}
    → Fair (record s { spawn_queue = queue }) s' stage stage' new
    → Fair s s' stage stage' new
Fair-popped s queue f = record { locks = f.locks; runs = f.runs; kept = f.kept }

again-Fair :
    (env : Env) (s : SyncState) (t : Task) (in_time : List ℕ) (stage : Stage)
    (queue : List (ℕ × SyncOptions))
    → s.spawn_queue ≡ queue
    → IsIdle stage
    → Fair s
        (potentially_sync_again env s t in_time).0
        stage
        (potentially_sync_again env s t in_time).1.stage
        (potentially_sync_again env s t in_time).2
unfolding potentially_sync_again pop_spawn_queue
again-Fair env s t in_time stage ((p, options) ∷ rest) q h =
    let s' : SyncState = record s { spawn_queue = rest } in
    rw q (
      Fair-popped (record s { spawn_queue = (p, options) ∷ rest }) rest
        (dirty-Fair env s' (sync _ (some p) s').0 t in_time stage (sync _ (some p) s').1
          (sync-Fair _ (some p) s' stage ended h (refl, refl))))
again-Fair env s t in_time stage [] q h =
    let s' : SyncState = record s { spawn_queue = [] } in
    elim (Bool-cases (is_empty s.resolve_queue)) [
      | inl e ↦
          rw (q, e)
            (dirty-Fair env s' s' t in_time stage [] (Fair-idle s' stage ended h (refl, refl)))
      | inr e ↦ rw (q, e) (sync-Fair _ none s' stage (syncing_again in_time) h (refl, refl))
    ]

-- What the resumed call knows, if it holds the lock.
abbrev pub Knows : SyncState → Stage → Type 0
Knows s stage =
    holds_lock stage ≡ true → (s.sync_lock ≡ true) × (s.status.syncing ≡ is_running stage)

defer-Fair :
    (options : SyncOptions) (s : SyncState) (stage stage' : Stage)
    → IsIdle stage
    → IsIdle stage'
    → Fair s (defer_sync_request options s).1 stage stage' []
unfolding defer_sync_request
defer-Fair options s stage stage' h h' =
    elim options.queue_strategy
      as (λ q.
        Fair s (defer_sync_request (record options { queue_strategy = q }) s).1 stage stage' []) [
          | none ↦ record { locks = ground arith; runs = ground arith; kept = ground arith }
          | some resolve_on_next ↦ record {
            locks = ground arith;
            runs = ground arith;
            kept = ground arith;
          }
          | some force_spawn_new ↦ record {
            locks = ground arith;
            runs = ground arith;
            kept = ground arith;
          }
        ]

settle-Fair :
    (reply : Option ℕ) (s : SyncState) (stage stage' : Stage)
    → IsIdle stage
    → IsIdle stage'
    → Fair s (settle reply s) stage stage' []
settle-Fair reply s stage stage' h h' =
    let (l, r, d) = settle_lem reply s in
    record { locks = ground arith; runs = ground arith; kept = ground arith }

-- After an operation nothing is locked and nothing runs, whether it had an error or not.
after_finish-Fair :
    (mode : SyncMode) (online : Bool) (in_time : List ℕ) (t : Task) (s : SyncState)
    (result : Bool × SyncState)
    → (s.sync_lock ≡ true) × (s.status.syncing ≡ true)
    → (result.1.status.syncing ≡ false)
      × (result.1.sync_lock ≡ false)
      × (result.1.dealloced ≡ s.dealloced)
    → Fair s
        (after_finish mode online in_time t result).0
        (operating mode online in_time)
        (after_finish mode online in_time t result).1.stage
        (after_finish mode online in_time t result).2
unfolding after_finish return_at
after_finish-Fair mode online in_time t s (true, s') h h' =
    let (l, r, d) = settle_lem t.reply s' in
    record { locks = ground arith; runs = ground arith; kept = ground arith }
after_finish-Fair mode online in_time t s (false, s') h h' = record {
  locks = ground arith;
  runs = ground arith;
  kept = ground arith;
}

pub resume-Fair :
    (subtract_from_array : List ℕ → List ℕ → List ℕ) (stage : Stage) (env : Env) (s : SyncState)
    (t : Task)
    → t.stage ≡ stage
    → (holds_lock stage ≡ true → s.dealloced ≡ false)
    → Knows s stage
    → Fair s
        (resume_at subtract_from_array stage env s t).0
        stage
        (resume_at subtract_from_array stage env s t).1.stage
        (resume_at subtract_from_array stage env s t).2
unfolding resume_at return_at defer_sync_request release_lock set_did_begin
    resolve_pending_sync_requests
resume-Fair sub (preparing false) env s t e alive k =
    defer-Fair t.options s (preparing false) _ (refl, refl) (refl, refl)
resume-Fair sub (preparing true) env s t e alive k = rw (alive refl) (
    let (locked, idle) = k refl in
    record { locks = ground arith; runs = ground arith; kept = ground arith })
resume-Fair sub (deferred p) env s t e alive k = elim (Bool-cases (any (λ q. q == p) s.resolved)) [
  | inl r ↦ rw r (settle-Fair t.reply s (deferred p) ended (refl, refl) (refl, refl))
  | inr r ↦ rw (r, e) (Fair-idle s (deferred p) (deferred p) (refl, refl) (refl, refl))
]
resume-Fair sub (beginning in_time) env s t e alive k = record {
  locks = ground arith;
  runs = ground arith;
  kept = ground arith;
}
resume-Fair sub (operating mode online in_time) env s t e alive k =
    let released : SyncState =
      release_lock (record s { status = handle_answers s.status env.answers }) in
    let result : Bool × SyncState = handle_sync_operation_finish env.now released in
    Fair-else s.dealloced s (operating mode online in_time) (return_at abandoned s t)
      (after_finish mode online in_time t result) (alive refl)
      (after_finish-Fair mode online in_time t s result (k refl) (finish_lem env.now released))
resume-Fair sub (finishing download_first online in_time) env s t e alive k =
    elim (Bool-cases online) [
      | inl o ↦ rw o (record { locks = ground arith; runs = ground arith; kept = ground arith })
      | inr o ↦ rw o (record { locks = ground arith; runs = ground arith; kept = ground arith })
    ]
resume-Fair sub (finishing default_mode online in_time) env s t e alive k =
    again-Fair env s t in_time _ s.spawn_queue refl (refl, refl)
resume-Fair sub (downloaded online in_time) env s t e alive k =
    sync-Fair _ none s (downloaded online in_time) (syncing_again in_time) (refl, refl) (refl, refl)
resume-Fair sub (syncing_again in_time) env s t e alive k =
    Fair-resolved s (s.resolved ++ in_time)
      (settle-Fair t.reply _ (syncing_again in_time) ended (refl, refl) (refl, refl))
resume-Fair sub (completing in_time) env s t e alive k =
    Fair-resolved s (s.resolved ++ in_time)
      (settle-Fair t.reply _ (completing in_time) ended (refl, refl) (refl, refl))
resume-Fair sub ended env s t e alive k = rw e (Fair-idle s ended ended (refl, refl) (refl, refl))
resume-Fair sub (Stage.failed in_time) env s t e alive k =
    rw e (Fair-idle s _ _ (refl, refl) (refl, refl))
resume-Fair sub abandoned env s t e alive k = rw e (Fair-idle s _ _ (refl, refl) (refl, refl))

after_finish-kept :
    (mode : SyncMode) (online : Bool) (in_time : List ℕ) (t : Task) (result : Bool × SyncState)
    → (after_finish mode online in_time t result).0.dealloced ≡ result.1.dealloced
unfolding after_finish return_at
after_finish-kept mode online in_time t (true, s) = (settle_lem t.reply s).2
after_finish-kept mode online in_time t (false, s) = refl

-- No piece takes the service down, or up again.
pub resume-kept :
    (subtract_from_array : List ℕ → List ℕ → List ℕ) (stage : Stage) (env : Env) (s : SyncState)
    (t : Task)
    → t.stage ≡ stage
    → (resume_at subtract_from_array stage env s t).0.dealloced ≡ s.dealloced
unfolding resume_at return_at release_lock set_did_begin
resume-kept sub (preparing true) env s t e = ground (arith, settle_lem t.reply s)
resume-kept sub (beginning in_time) env s t e = refl
resume-kept sub (operating mode online in_time) env s t e =
    let released : SyncState =
      release_lock (record s { status = handle_answers s.status env.answers }) in
    let result : Bool × SyncState = handle_sync_operation_finish env.now released in
    let (_, _, down) = settle_lem t.reply s in
    let up = after_finish-kept mode online in_time t result ∙ (finish_lem env.now released).2 in
    elim s.dealloced
      as (λ b.
        (if b
          then return_at abandoned s t
          else after_finish mode online in_time t result).0.dealloced
        ≡ s.dealloced) [ true ↦ down | false ↦ up ]
resume-kept sub stage env s t e = (resume-Fair sub stage env s t e (λ h. cc) (λ h. cc)).kept
