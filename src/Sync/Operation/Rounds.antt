-- ===== src/Sync/Operation/Rounds.antt =====
-- An operation uploads every payload once and ends when the server stops paging.
use snjs.Prelude.{
  String, ℕ, zero, suc, ◌+◌, ◌*◌, ◌≤◌, ◌≡◌, refl, sym, ◌∙◌, ap, true, false, Option, some, List, [],
  ◌∷◌, ◌++◌, take, drop, length, All, arith, take-append-drop, length-take-le, length-drop,
  append_assoc, append-nil, Bool-cases, inl, inr,
}
use snjs.Sync.Response.{RawSyncResponse, ServerSyncResponse, construct, is_truthy, from_data}
use snjs.Sync.Operation.{
  Operation, Request, sync_up_down_limit, new, done, pop_payloads, round, run,
}

-- The payloads of all requests, in the order sent.
abbrev pub uploads : {Payload : Type 0} → List (Request Payload) → List Payload
uploads [] = []
uploads (r ∷ rs) = r.payloads ++ uploads rs

-- A request within the limits of the client.
abbrev pub IsWithinLimit : {Payload : Type 0} → Request Payload → Type 0
IsWithinLimit r = (length r.payloads ≤ sync_up_down_limit) × (r.limit ≡ sync_up_down_limit)

uploads-snoc :
    {Payload : Type 0} (rs : List (Request Payload)) (r : Request Payload)
    → uploads (rs ++ r ∷ []) ≡ uploads rs ++ r.payloads
uploads-snoc [] r = rw append-nil
uploads-snoc (q ∷ rs) r = rw (uploads-snoc rs r, append_assoc)

All-snoc :
    {A : Type 0} (P : A → Type 0) (xs : List A) (x : A) → All P xs → P x → All P (xs ++ x ∷ [])
All-snoc P [] x h p = (p, tt)
All-snoc P (y ∷ ys) x h p = (h.0, All-snoc P ys x h.1 p)

length-snoc : {A : Type 0} (xs : List A) (x : A) → length (xs ++ x ∷ []) ≡ suc (length xs)
length-snoc [] x = refl
length-snoc (y ∷ ys) x = ap suc (length-snoc ys x)

nil_of_length : {A : Type 0} (xs : List A) → length xs ≤ 0 → xs ≡ []
nil_of_length [] h = refl
nil_of_length (x ∷ xs) h = absurd (omega arith)

module _ {Payload Item Filtered Saved : Type 0}
    (subtract_from_array : List Payload → List Payload → List Payload)
    (subtract_prefix : (xs ys : List Payload) → subtract_from_array (xs ++ ys) xs ≡ ys)
    (filter_disallowed : List (Option Item) → List Filtered) (create_saved : Filtered → Saved)
    (api : ℕ → Request Payload → RawSyncResponse Item) where
  abbrev Op : Type 0
  Op = Operation Payload (ServerSyncResponse Item Filtered Saved)

  abbrev step : Op → Op
  step = round subtract_from_array filter_disallowed create_saved api

  -- A round takes the first payloads off the pending ones.
  pending-round :
      (op : Op) → (step op).pending_payloads ≡ drop sync_up_down_limit op.pending_payloads
  unfolding round pop_payloads
  pending-round op =
      ap (λ l. subtract_from_array l (take sync_up_down_limit op.pending_payloads))
        (sym (take-append-drop sync_up_down_limit op.pending_payloads))
      ∙ subtract_prefix _ _

  uploads-round :
      (op : Op)
      → uploads (step op).requests ++ (step op).pending_payloads
        ≡ uploads op.requests ++ op.pending_payloads
  uploads-round op = rw pending-round (
      unfold round pop_payloads in
      rw (uploads-snoc, append_assoc, take-append-drop sync_up_down_limit op.pending_payloads))

  limits-round : (op : Op) → All IsWithinLimit op.requests → All IsWithinLimit (step op).requests
  unfolding round pop_payloads
  limits-round op h =
      All-snoc IsWithinLimit op.requests _ h
        (length-take-le sync_up_down_limit op.pending_payloads, refl)

  responses-round : (op : Op) → length (step op).responses ≡ suc (length op.responses)
  unfolding round pop_payloads
  responses-round op = length-snoc op.responses _

  -- What an operation promises when it has run.
  pub record IsComplete (op op' : Op) : Type 0 where
    pub is_done : done op' ≡ true
    pub uploaded : uploads op'.requests ≡ uploads op.requests ++ op.pending_payloads
    pub within_limits : All IsWithinLimit op.requests → All IsWithinLimit op'.requests

  pending-done : (op : Op) → done op ≡ true → op.pending_payloads ≡ []
  pending-done op h = ground arith

  finish : (op : Op) → done (step op) ≡ true → IsComplete op (step op)
  finish op e = record {
    is_done = e;
    uploaded =
        sym (append-nil _)
        ∙ ap (λ l. uploads (step op).requests ++ l) (sym (pending-done (step op) e))
        ∙ uploads-round op;
    within_limits = limits-round op;
  }

  after_round : (op op' : Op) → IsComplete (step op) op' → IsComplete op op'
  after_round op op' c = record {
    is_done = c.is_done;
    uploaded = c.uploaded ∙ uploads-round op;
    within_limits = λ h. c.within_limits (limits-round op h);
  }

  module _ (last : ℕ)
      (stops : (k : ℕ) (q : Request Payload)
        → last ≤ k
        → is_truthy (from_data (api k q) (λ d. d.pagination_token)) ≡ false) where
    page_token-round :
        (op : Op) → last ≤ length op.responses → is_truthy (step op).page_token ≡ false
    unfolding round pop_payloads construct
    page_token-round op h = stops _ _ h

    -- The last round of the budget ends the operation.
    done-last :
        (op : Op)
        → length op.pending_payloads ≤ sync_up_down_limit
        → last ≤ length op.responses
        → done (step op) ≡ true
    done-last op few late = rw (
      page_token-round op late,
      nil_of_length (step op).pending_payloads (
          rw (pending-round op)
            (omega (arith, length-drop sync_up_down_limit op.pending_payloads))),
    )

    run_from :
        (rounds : ℕ) (op : Op)
        → length op.pending_payloads ≤ sync_up_down_limit * suc rounds
        → last ≤ length op.responses + rounds
        → (op' : Op) × (run subtract_from_array filter_disallowed create_saved api (suc rounds) op
            ≡ some op')
          × IsComplete op op'
    unfolding run
    run_from zero op few late =
        let e = done-last op (omega arith) (omega arith) in (step op, rw e, finish op e)
    run_from (suc rounds) op few late = elim (Bool-cases (done (step op))) [
      | inl e ↦ (step op, rw e, finish op e)
      | inr e ↦
          let (op', ran, c) =
            run_from rounds (step op)
              (rw (pending-round op)
                (omega (arith, length-drop sync_up_down_limit op.pending_payloads)))
              (rw (responses-round op) (omega arith)) in
          (op', rw e ran, after_round op op' c)
    ]

    -- If the server gives no pagination token from round `last` on, an operation over some payloads
    -- ends with one round for every 150 payloads and `last` more: nothing is pending, no page is
    -- left, its requests carry exactly the payloads, in order, and none is above the limit.
    pub run_complete :
        (payloads : List Payload) (sync_token page_token : Option String) (rounds : ℕ)
        → length payloads ≤ sync_up_down_limit * rounds
        → (op' : Op) × (run subtract_from_array filter_disallowed create_saved api
              (suc (last + rounds))
              (new payloads sync_token page_token)
            ≡ some op')
          × (done op' ≡ true)
          × (uploads op'.requests ≡ payloads)
          × All IsWithinLimit op'.requests
    run_complete payloads sync_token page_token rounds few =
        let (op', ran, c) =
          run_from (last + rounds) (new payloads sync_token page_token) (omega arith)
            (omega arith) in
        (op', ran, c.is_done, c.uploaded, c.within_limits tt)
