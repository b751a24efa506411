-- ===== src/Sync/Service/Schedule.antt =====
-- Calls of `sync` that interleave: a task is one call of `performSync`, at the await where it
-- stands, and a move resumes one task or makes a new call. When an awaited call finishes is left
-- open: a task may be resumed at any time.
use snjs.Prelude.{
  ℕ, Bool, true, false, Option, none, some, List, [], ◌∷◌, ◌++◌, is_empty, if◌then◌else◌, any, ◌==◌,
}
use snjs.Sync.OpStatus.{set_did_begin}
use snjs.Sync.Service.{
  SyncState, SyncOptions, SyncMode, default_mode, download_first, force_spawn_new, external,
  resolve_queue_source, more_dirty_items, after_download_first, Answer, configure_sync_lock,
  release_lock, defer_sync_request, requests_made_in_time, resolve_pending_sync_requests, sync_mode,
  handle_answers, handle_sync_operation_finish,
}

-- Where a call of `performSync` stands. The lists are its `inTimeResolveQueue`.
pub data Stage : Type 0 where
  -- in `prepareForSync`; the flag is `shouldExecuteSync`
  preparing : (should_execute : Bool) → Stage
  -- returned the promise of a deferred request
  deferred : (promise : ℕ) → Stage
  -- waits for the listeners of SyncWillBegin
  beginning : (in_time : List ℕ) → Stage
  -- the operation runs
  operating : (mode : SyncMode) (online : Bool) (in_time : List ℕ) → Stage
  -- waits for what `handleSyncOperationFinish` started
  finishing : (mode : SyncMode) (online : Bool) (in_time : List ℕ) → Stage
  -- waits for the listeners of DownloadFirstSyncCompleted
  downloaded : (online : Bool) (in_time : List ℕ) → Stage
  -- waits for a further sync
  syncing_again : (in_time : List ℕ) → Stage
  -- waits for the last listeners
  completing : (in_time : List ℕ) → Stage
  ended : Stage
  -- returned early: the operation had an error
  failed : (in_time : List ℕ) → Stage
  -- returned early: the service is gone
  abandoned : Stage

-- `reply` is the promise of the spawn queue that the end of the call resolves.
pub record Task : Type 0 where
  pub options : SyncOptions
  pub stage : Stage
  pub reply : Option ℕ

-- What the world decides when a task is resumed.
pub record Env : Type 0 where
  pub now : ℕ
  pub online : Bool
  pub answers : List Answer
  pub has_dirty_items : Bool

-- A call that the spawn queue made resolves its promise when it returns.
unfoldable pub settle : Option ℕ → SyncState → SyncState
unfolding resolve_pending_sync_requests
settle none s = s
settle (some promise) s = resolve_pending_sync_requests (promise ∷ []) s

-- `sync`: nothing if the client locked syncing; else `performSync`, up to its first await.
unfoldable pub sync : SyncOptions → Option ℕ → SyncState → SyncState × List Task
unfolding configure_sync_lock settle
sync options reply s =
    if s.client_locked
    then (settle reply s, [])
    else (let (should_execute, s') = configure_sync_lock s in
        (s', record { options = options; stage = preparing should_execute; reply = reply } ∷ []))

abbrev at_stage : Task → Stage → Task
at_stage t stage = record t { stage = stage }

-- The call returns.
unfoldable pub return_at : Stage → SyncState → Task → SyncState × Task × List Task
unfolding settle
return_at stage s t = (settle t.reply s, record t { stage = stage; reply = none }, [])

-- `popSpawnQueue`: the options of the request override those given here.
unfoldable pub pop_spawn_queue : SyncState → Option (SyncState × List Task)
unfolding sync
pop_spawn_queue s = elim s.spawn_queue [
  | [] ↦ none
  | (promise, options) ∷ rest ↦ some (
      sync (record options { queue_strategy = some force_spawn_new }) (some promise)
        (record s { spawn_queue = rest }))
]

abbrev further : SyncOptions → SyncOptions
further options = record {
  mode = none;
  queue_strategy = none;
  source = external;
  check_integrity = options.check_integrity;
  await_all = false;
}

-- The second half of `potentiallySyncAgainAfterSyncCompletion`, after the spawn queue.
unfoldable pub sync_new_dirty_items :
    Env → SyncState → Task → List ℕ → List Task → SyncState × Task × List Task
unfolding sync
sync_new_dirty_items env s t in_time new =
    if env.has_dirty_items
    then (let (s', task) =
          sync
            (record (further t.options) {
              source = more_dirty_items;
              await_all = t.options.await_all;
            })
            none s in
        (s', at_stage t (syncing_again in_time), new ++ task))
    else (s, at_stage t (completing in_time), new)

unfoldable pub potentially_sync_again :
    Env → SyncState → Task → List ℕ → SyncState × Task × List Task
unfolding sync pop_spawn_queue sync_new_dirty_items
potentially_sync_again env s t in_time = elim (pop_spawn_queue s) [
  | some (s', spawned) ↦ sync_new_dirty_items env s' t in_time spawned
  | none ↦
      if is_empty s.resolve_queue
      then sync_new_dirty_items env s t in_time []
      else (let (s', task) =
            sync (record (further t.options) { source = resolve_queue_source }) none s in
          (s', at_stage t (syncing_again in_time), task))
]

-- `if (hasError) return`
unfoldable pub after_finish :
    SyncMode → Bool → List ℕ → Task → Bool × SyncState → SyncState × Task × List Task
unfolding return_at
after_finish mode online in_time t (true, s) = return_at (failed in_time) s t
after_finish mode online in_time t (false, s) = (s, at_stage t (finishing mode online in_time), [])

module _ (subtract_from_array : List ℕ → List ℕ → List ℕ) where
  -- One piece of `performSync`, from one await to the next.
  unfoldable pub resume_at : Stage → Env → SyncState → Task → SyncState × Task × List Task
  unfolding sync return_at release_lock defer_sync_request resolve_pending_sync_requests
      handle_sync_operation_finish after_finish potentially_sync_again
  resume_at (preparing false) env s t =
      let (promise, s') = defer_sync_request t.options s in (s', at_stage t (deferred promise), [])
  resume_at (preparing true) env s t = if s.dealloced then return_at abandoned s t else (
    record s { status = set_did_begin env.now s.status },
    at_stage t (beginning (requests_made_in_time s)),
    [],
  )
  resume_at (deferred promise) env s t =
      if any (λ p. p == promise) s.resolved then return_at ended s t else (s, t, [])
  resume_at (beginning in_time) env s t = (
    record s { resolve_queue = subtract_from_array s.resolve_queue in_time },
    at_stage t (operating (sync_mode env.online s t.options) env.online in_time),
    [],
  )
  resume_at (operating mode online in_time) env s t =
      if s.dealloced
      then return_at abandoned s t
      else (let released =
            release_lock (record s { status = handle_answers s.status env.answers }) in
          after_finish mode online in_time t (handle_sync_operation_finish env.now released))
  resume_at (finishing download_first online in_time) env s t = (
    if online then record s { completed_online_download_first_sync = true } else s,
    at_stage t (downloaded online in_time),
    [],
  )
  resume_at (finishing default_mode online in_time) env s t = potentially_sync_again env s t in_time
  resume_at (downloaded online in_time) env s t =
      let (s', task) =
        sync
          (record (further t.options) {
            source = after_download_first;
            check_integrity = true;
            await_all = t.options.await_all;
          })
          none s in
      (s', at_stage t (syncing_again in_time), task)
  resume_at (syncing_again in_time) env s t =
      return_at ended (resolve_pending_sync_requests in_time s) t
  resume_at (completing in_time) env s t =
      return_at ended (resolve_pending_sync_requests in_time s) t
  resume_at ended env s t = (s, t, [])
  resume_at (failed in_time) env s t = (s, t, [])
  resume_at abandoned env s t = (s, t, [])

  abbrev pub resume : Env → SyncState → Task → SyncState × Task × List Task
  resume env s t = resume_at t.stage env s t
