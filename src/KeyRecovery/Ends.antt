-- ===== src/KeyRecovery/Ends.antt =====
-- The loop over the queue ends once the operation stops failing.
use snjs.Prelude.{
  ℕ, zero, suc, ◌+◌, ◌-◌, ◌≤◌, ◌<◌, Bool, true, false, not, ◌≡◌, ◌≢◌, refl, sym, ap, ◌∙◌, subst,
  inl, inr, Option, none, some, List, [], ◌∷◌, filter, length, length-filter-le, if_intro, leb,
  leb→le, arith, Bool-cases,
}
use snjs.KeyRecovery.{
  KeyModels, DecryptionQueueItem, OperationResult, KeyRecovery, has_params,
  handle_decryption_of_all_keys, remove_from_undecryptables, is_aborted, process_first, first_pass,
  finished, go_on, process_queue,
}
use snjs.KeyRecovery.OperationResult.{success, failed, aborted}
use snjs.KeyRecovery.Kept.{IsKept, after, pass-IsKept, same-IsKept}

module _ (m : KeyModels) (run : ℕ → DecryptionQueueItem m → OperationResult m) (has_passcode : Bool)
    (cancels : ℕ → ℕ)
    (remove_from_array : List (DecryptionQueueItem m)
      → DecryptionQueueItem m
      → List (DecryptionQueueItem m))
    (server_params : Option ℕ) where
  -- What the code relies on of removeFromArray: it takes out the first of the same elements, and at most
  -- one; and, for the loop to end, that the operation does not fail from the attempt `last` on.
  pub record LoopLaws (last : ℕ) : Type 0 where
    pub remove_first :
        (x : DecryptionQueueItem m) (xs : List (DecryptionQueueItem m))
        → remove_from_array (x ∷ xs) x ≡ xs
    pub remove_le :
        (x : DecryptionQueueItem m) (xs : List (DecryptionQueueItem m))
        → length (remove_from_array xs x) ≤ length xs
    pub settles : (n : ℕ) (item : DecryptionQueueItem m) → last ≤ n → run n item ≢ failed

  module _ (last : ℕ) (laws : LoopLaws last) where
    -- The failures that may still come, and the keys in the queue.
    abbrev pub passes_left : KeyRecovery m → ℕ
    passes_left s = (last - s.attempts) + length s.decryption_queue

    decrypted_lem :
        (n : ℕ) (root_key : m.RootKey) (replaces : Bool) (s : KeyRecovery m)
        → (let s' =
              handle_decryption_of_all_keys m has_passcode n root_key replaces server_params s in
            (s'.decryption_queue ≡ filter (λ i. not (has_params m root_key i)) s.decryption_queue)
            × (s'.attempts ≡ s.attempts))
    unfolding handle_decryption_of_all_keys remove_from_undecryptables
    decrypted_lem n root_key true s = (refl, refl)
    decrypted_lem n root_key false s = (refl, refl)

    filtered_lem :
        (test : DecryptionQueueItem m → Bool) (item : DecryptionQueueItem m)
        (queue : List (DecryptionQueueItem m))
        → length (remove_from_array (filter test (item ∷ queue)) item) ≤ length queue
    filtered_lem test item queue =
        if_intro (λ q. length (remove_from_array q item) ≤ length queue) (test item) _ _
          (λ _.
            subst (λ q. length q ≤ length queue) (sym (laws.remove_first item (filter test queue)))
              (length-filter-le test queue))
          (λ _. omega (arith, laws.remove_le item (filter test queue), length-filter-le test queue))

    queue_lem :
        (n : ℕ) (root_key : m.RootKey) (replaces : Bool) (item : DecryptionQueueItem m)
        (queue : List (DecryptionQueueItem m)) (s : KeyRecovery m)
        → s.decryption_queue ≡ item ∷ queue
        → length (
            remove_from_array
              (handle_decryption_of_all_keys m has_passcode n root_key replaces server_params
                s).decryption_queue
              item)
          ≤ length queue
    queue_lem n root_key replaces item queue s eq =
        subst (λ q. length (remove_from_array q item) ≤ length queue)
          (sym (
            (decrypted_lem n root_key replaces s).0
            ∙ ap (filter (λ i. not (has_params m root_key i))) eq))
          (filtered_lem (λ i. not (has_params m root_key i)) item queue)

    less_lem :
        (r : OperationResult m) (item : DecryptionQueueItem m)
        (queue : List (DecryptionQueueItem m)) (s : KeyRecovery m)
        → run s.attempts item ≡ r
        → s.decryption_queue ≡ item ∷ queue
        → is_aborted m run has_passcode cancels remove_from_array server_params r ≡ false
        → passes_left (after m run has_passcode cancels remove_from_array server_params r item s)
          < passes_left s
    less_lem (success root_key replaces) item queue s eq q h =
        let counted : KeyRecovery m = record s { attempts = suc s.attempts } in
        omega (
          arith,
          queue_lem (cancels counted.attempts) root_key replaces item queue counted q,
          (decrypted_lem (cancels counted.attempts) root_key replaces counted).1,
          ap length q,
        )
    less_lem failed item queue s eq q h =
        omega (arith, ap length (laws.remove_first item s.decryption_queue), before)
      where
        before : s.attempts < last
        before = elim (Bool-cases (leb last s.attempts)) [
          | inl late ↦ absurd (laws.settles s.attempts item (leb→le _ _ late) eq)
          | inr early ↦ ground arith
        ]
    less_lem aborted item queue s eq q h = absurd (ground (arith, h))

    -- The loop ended, and no stored key was lost.
    pub record IsDone (s s' : KeyRecovery m) : Type 0 where
      pub idle : s'.is_processing_queue ≡ false
      pub kept : (key : m.Key) → IsKept m key s → IsKept m key s'

    Done : KeyRecovery m → Option (KeyRecovery m) → Type 0
    Done s o = (s' : KeyRecovery m) × (o ≡ some s') × IsDone s s'

    finished-Done :
        (s s' : KeyRecovery m)
        → ((key : m.Key) → IsKept m key s → IsKept m key s')
        → Done s (some (finished m run has_passcode cancels remove_from_array server_params s'))
    unfolding Done
    finished-Done s s' kept = (
      _,
      refl,
      record { idle = refl; kept = λ key k. same-IsKept m key s' _ refl refl (kept key k) },
    )

    -- One pass, after which the loop goes on by `next`.
    pass-Done :
        (next : KeyRecovery m → Option (KeyRecovery m)) (s : KeyRecovery m)
        → ((s' : KeyRecovery m) → passes_left s' < passes_left s → Done s' (next s'))
        → Done s (
            go_on m run has_passcode cancels remove_from_array server_params
              (first_pass m run has_passcode cancels remove_from_array server_params
                s.decryption_queue s)
              next
              s)
    unfolding process_first Done
    pass-Done next s below = go s.decryption_queue refl
      where
        go :
            (q : List (DecryptionQueueItem m))
            → s.decryption_queue ≡ q
            → Done s (
                go_on m run has_passcode cancels remove_from_array server_params
                  (first_pass m run has_passcode cancels remove_from_array server_params q s)
                  next
                  s)
        go [] eq = finished-Done s s (λ key k. k)
        go (item ∷ queue) eq = at_result (run s.attempts item) refl
          where
            on :
                (r : OperationResult m)
                → Done (after m run has_passcode cancels remove_from_array server_params r item s) (
                    next
                      (after m run has_passcode cancels remove_from_array server_params r item s))
                → Done s (
                    next
                      (after m run has_passcode cancels remove_from_array server_params r item s))
            on r (s', ended, done) = (
              s',
              ended,
              record {
                idle = done.idle;
                kept = λ key k. done.kept key (
                    pass-IsKept m run has_passcode cancels remove_from_array server_params r item
                      key s k);
              },
            )

            at_result :
                (r : OperationResult m)
                → run s.attempts item ≡ r
                → Done s (
                    go_on m run has_passcode cancels remove_from_array server_params
                      (some (
                        is_aborted m run has_passcode cancels remove_from_array server_params r,
                        after m run has_passcode cancels remove_from_array server_params r item s,
                      ))
                      next
                      s)
            at_result aborted result = finished-Done s _ (λ key k.
                pass-IsKept m run has_passcode cancels remove_from_array server_params aborted item
                  key s k)
            at_result failed result =
                on failed (below _ (less_lem failed item queue s result eq refl))
            at_result (success root_key replaces) result =
                on (success root_key replaces)
                  (below _ (less_lem (success root_key replaces) item queue s result eq refl))

    -- Enough rounds: one for each key in the queue and one for each failure that may come.
    rounds_lem :
        (rounds : ℕ) (s : KeyRecovery m)
        → passes_left s ≤ rounds
        → Done s (process_queue m run has_passcode cancels remove_from_array server_params rounds s)
    unfolding process_queue
    rounds_lem zero s enough = pass-Done (λ s'. none) s (λ s' less. absurd (omega arith))
    rounds_lem (suc rounds) s enough =
        pass-Done
          (λ s'. process_queue m run has_passcode cancels remove_from_array server_params rounds s')
          s (λ s' less. rounds_lem rounds s' (omega arith))

    -- Where the operation does not fail from some attempt on, and the user cancels each request for the
    -- passcode only finitely often, the loop over the queue ends, whatever is recovered or aborted in
    -- it, with one round for each key in the queue and one for each attempt up to
    -- then; the queue is then no longer being processed; and each key in isolated storage is still there,
    -- or a decrypted key with its uuid was emitted.
    pub process_queue-IsDone :
        (s : KeyRecovery m)
        → (s' : KeyRecovery m) × (process_queue m run has_passcode cancels remove_from_array
              server_params
              (passes_left s)
              s
            ≡ some s')
          × IsDone s s'
    unfolding Done
    process_queue-IsDone s = rounds_lem (passes_left s) s (omega arith)
