-- ===== src/Sync/Service/World/Exclusion.antt =====
-- At most one sync operation at a time, however the calls of `sync` interleave.
use snjs.Prelude.{
  ℕ, ◌≤◌, ◌≡◌, refl, sym, subst, ◌∙◌, Bool, true, false, none, List, [], ◌∷◌, ◌++◌, arith,
}
use snjs.Sync.Service.{SyncState, SyncOptions, lock_syncing, unlock_syncing}
use snjs.Sync.Service.Schedule.{Task, Env, ended, sync, resume}
use snjs.Sync.Service.World.{
  World, Move, Reach, here, next, call, resume_task, lock_client, unlock_client, database_load,
  deinit_move, deinit_service,
}
use snjs.Sync.Service.World.Counts.{
  to_number, holds_lock, is_running, count, count-append, running-le-holding,
}
use snjs.Sync.Service.World.Pieces.{Fair, Knows, sync-Fair, resume-Fair, resume-kept}

to_number_inj : (a b : Bool) → to_number a ≡ to_number b → a ≡ b
to_number_inj a b h = ground arith

to_number-le : (a : Bool) → to_number a ≤ 1
to_number-le a = ground arith

-- The lock is held exactly if one call stands between taking and releasing it, and the status says
-- that a sync is in progress exactly if one call stands between its begin and its end.
pub record IsExclusive (w : World) : Type 0 where
  pub locked : count holds_lock w.tasks ≡ to_number w.state.sync_lock
  pub syncing : count is_running w.tasks ≡ to_number w.state.status.syncing

module _ (before : List Task) (t : Task) (after : List Task) (s : SyncState) where
  abbrev Before : World
  Before = record { state = s; tasks = before ++ (t ∷ after) }

  -- Only the resumed call can hold the lock, if it does.
  knows : IsExclusive Before → Knows s t.stage
  knows x h =
      let held : to_number (holds_lock t.stage) ≡ 1 = rw h refl in
      let split = count-append holds_lock before (t ∷ after) in
      let most = to_number-le s.sync_lock in
      (
        to_number_inj s.sync_lock true (omega (arith, x.locked)),
        to_number_inj s.status.syncing (is_running t.stage) (
            omega (
              arith,
              x.locked,
              x.syncing,
              count-append is_running before (t ∷ after),
              running-le-holding before,
              running-le-holding after,
            )),
      )

  resumed-IsExclusive :
      (s' : SyncState) (t' : Task) (new : List Task)
      → Fair s s' t.stage t'.stage new
      → IsExclusive Before
      → IsExclusive (record { state = s'; tasks = before ++ (t' ∷ (after ++ new)) })
  resumed-IsExclusive s' t' new f x = record {
    locked = omega (
      arith,
      f.locks,
      x.locked,
      count-append holds_lock before (t ∷ after),
      count-append holds_lock before (t' ∷ (after ++ new)),
      count-append holds_lock after new,
    );
    syncing = omega (
      arith,
      f.runs,
      x.syncing,
      count-append is_running before (t ∷ after),
      count-append is_running before (t' ∷ (after ++ new)),
      count-append is_running after new,
    );
  }

-- What holds of the service as long as it is not deinitialised.
abbrev pub Holds : World → Type 0
Holds w = w.state.dealloced ≡ false → IsExclusive w

module _ (subtract_from_array : List ℕ → List ℕ → List ℕ) where
  resume-Holds :
      (before : List Task) (t : Task) (after : List Task) (env : Env) (s : SyncState)
      → Holds (Before before t after s)
      → Holds (record {
        state = (resume subtract_from_array env s t).0;
        tasks =
            before
            ++ ((resume subtract_from_array env s t).1
                ∷ (after ++ (resume subtract_from_array env s t).2));
      })
  resume-Holds before t after env s h alive =
      let up : s.dealloced ≡ false =
        sym (resume-kept subtract_from_array t.stage env s t refl) ∙ alive in
      let x = h up in
      resumed-IsExclusive before t after s _ _ _
        (resume-Fair subtract_from_array t.stage env s t refl (λ _. up) (knows before t after s x))
        x

  call-Holds :
      (options : SyncOptions) (w : World)
      → Holds w
      → Holds (record {
        state = (sync options none w.state).0;
        tasks = w.tasks ++ (sync options none w.state).1;
      })
  call-Holds options w h alive =
      let f = sync-Fair options none w.state ended ended (refl, refl) (refl, refl) in
      let x = h (sym f.kept ∙ alive) in
      record {
        locked = omega (
          arith,
          f.locks,
          x.locked,
          count-append holds_lock w.tasks (sync options none w.state).1,
        );
        syncing = omega (
          arith,
          f.runs,
          x.syncing,
          count-append is_running w.tasks (sync options none w.state).1,
        );
      }

  Move-Holds : (w u : World) → Move subtract_from_array w u → Holds w → Holds u
  unfolding lock_syncing unlock_syncing deinit_service
  Move-Holds w u (call options e) h = rw e (call-Holds options w h)
  Move-Holds w u (resume_task before t after env e e') h = rw e' (
      resume-Holds before t after env w.state
        (subst (λ ts. Holds (record { state = w.state; tasks = ts })) e h))
  Move-Holds w u (lock_client e) h =
      rw e (λ alive. record { locked = (h alive).locked; syncing = (h alive).syncing })
  Move-Holds w u (unlock_client e) h =
      rw e (λ alive. record { locked = (h alive).locked; syncing = (h alive).syncing })
  Move-Holds w u (database_load e) h =
      rw e (λ alive. record { locked = (h alive).locked; syncing = (h alive).syncing })
  Move-Holds w u (deinit_move e) h = rw e (λ alive. cc)

  Reach-Holds : {w u : World} → Holds w → Reach subtract_from_array w u → Holds u
  Reach-Holds h here = h
  Reach-Holds h (next {u} {v} r m) = Move-Holds u v m (Reach-Holds h r)

  -- However calls of `sync` interleave, from a service with no call under way, no lock taken and no
  -- sync in progress, and as long as the service is not deinitialised: the lock is held exactly
  -- while one call is between taking and releasing it, the status reports a sync in progress exactly
  -- while one operation is between its begin and its end, and at most one operation runs.
  pub sync-IsExclusive :
      (start : SyncState) {u : World}
      → (start.sync_lock ≡ false) × (start.status.syncing ≡ false)
      → Reach subtract_from_array (record { state = start; tasks = [] }) u
      → u.state.dealloced ≡ false
      → IsExclusive u × (count is_running u.tasks ≤ 1)
  sync-IsExclusive start {u} (unlocked, idle) r alive =
      let x =
        Reach-Holds (λ _. record { locked = rw unlocked refl; syncing = rw idle refl }) r alive in
      (x, omega (arith, x.syncing, to_number-le u.state.status.syncing))
