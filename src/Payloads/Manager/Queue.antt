-- ===== src/Payloads/Manager/Queue.antt =====
-- Emits are applied in the order in which they came.
use snjs.Prelude.{
  ℕ, suc, ◌≡◌, refl, ◌∙◌, ap, some, List, [], ◌∷◌, ◌++◌, map, length, append-nil, append_assoc,
  is_empty, ◌≢◌, if◌then◌else◌,
}
use mathlib.Core.List.{map-append}
use snjs.Payloads.Models.{PayloadModels}
use snjs.Payloads.Manager.{
  Element, ChangeData, PayloadManager, apply_payloads, process, pop_queue, emitted,
}

module _ (m : PayloadModels)
    (remove_from_array : List (Element m.Payload) → Element m.Payload → List (Element m.Payload))
    (remove_first : (e : Element m.Payload) (es : List (Element m.Payload))
      → remove_from_array (e ∷ es) e ≡ es)
    (react : ChangeData m.Payload → List (Element m.Payload)) where
  -- The collection after some emits, one after the other.
  abbrev pub after_emits : List (Element m.Payload) → m.Collection → m.Collection
  after_emits [] c = c
  after_emits (e ∷ es) c = after_emits es (apply_payloads m c e.emits).collection

  -- Promises of resolved emits.
  abbrev pub promises : List (ℕ × List m.Payload) → List ℕ
  promises rs = map (λ r. r.0) rs

  module _ (quiet : (n : ChangeData m.Payload) → react n ≡ []) where
    emitted-nil : (ns : List (ChangeData m.Payload)) → emitted m remove_from_array react ns ≡ []
    unfolding emitted
    emitted-nil [] = refl
    emitted-nil (n ∷ ns) = rw (quiet n) (emitted-nil ns)

    queue-process :
        (e : Element m.Payload) (es : List (Element m.Payload)) (s : PayloadManager m)
        → (process m remove_from_array react e (record s { emit_queue = e ∷ es })).emit_queue ≡ es
    unfolding process
    queue-process e es s = rw (emitted-nil, append-nil, remove_first)

    -- What popping the queue leaves: nothing queued, every emit applied in order, every promise
    -- resolved in order.
    pub record IsDrained (queue : List (Element m.Payload)) (s s' : PayloadManager m) : Type 0 where
      pub queue_empty : s'.emit_queue ≡ []
      pub applied : s'.collection ≡ after_emits queue s.collection
      pub answered : promises s'.resolved ≡ promises s.resolved ++ map (λ e. e.promise) queue

    abbrev popped :
        Element m.Payload → List (Element m.Payload) → PayloadManager m → PayloadManager m
    popped e es s = process m remove_from_array react e (record s { emit_queue = e ∷ es })

    answered-process :
        (e : Element m.Payload) (es : List (Element m.Payload)) (s : PayloadManager m)
        → promises (popped e es s).resolved ≡ promises s.resolved ++ e.promise ∷ []
    unfolding process
    answered-process e es s = map-append (λ (r : ℕ × List m.Payload). r.0) s.resolved _

    collection-process :
        (e : Element m.Payload) (es : List (Element m.Payload)) (s : PayloadManager m)
        → (popped e es s).collection ≡ (apply_payloads m s.collection e.emits).collection
    unfolding process
    collection-process e es s = refl

    one-IsDrained :
        (e : Element m.Payload) (s : PayloadManager m) → IsDrained (e ∷ []) s (popped e [] s)
    one-IsDrained e s = record {
      queue_empty = queue-process e [] s;
      applied = collection-process e [] s;
      answered = answered-process e [] s;
    }

    more-IsDrained :
        (e : Element m.Payload) (es : List (Element m.Payload)) (s s' : PayloadManager m)
        → IsDrained es (popped e es s) s'
        → IsDrained (e ∷ es) s s'
    more-IsDrained e es s s' d = record {
      queue_empty = d.queue_empty;
      applied = d.applied ∙ ap (after_emits es) (collection-process e es s);
      answered =
          d.answered
          ∙ (ap (λ l. l ++ map (λ x. x.promise) es) (answered-process e es s)
              ∙ append_assoc (promises s.resolved) (e.promise ∷ []) (map (λ x. x.promise) es));
    }

    pop_again :
        (rounds : ℕ) (e e' : Element m.Payload) (es : List (Element m.Payload))
        (s : PayloadManager m)
        → pop_queue m remove_from_array react (suc rounds) (record s { emit_queue = e ∷ e' ∷ es })
          ≡ pop_queue m remove_from_array react rounds
              (record (popped e (e' ∷ es) s) { emit_queue = e' ∷ es })
    unfolding pop_queue
    pop_again rounds e e' es s =
        ap
          (λ (q : List (Element m.Payload)).
            let x : PayloadManager m = record (popped e (e' ∷ es) s) { emit_queue = q } in
            if is_empty q then some x else pop_queue m remove_from_array react rounds x)
          (queue-process e (e' ∷ es) s)

    drain :
        (e : Element m.Payload) (es : List (Element m.Payload)) (s : PayloadManager m)
        → (s' : PayloadManager m) × (pop_queue m remove_from_array react
              (suc (length es))
              (record s { emit_queue = e ∷ es })
            ≡ some s')
          × IsDrained (e ∷ es) s s'
    unfolding pop_queue
    drain e [] s = (_, rw (queue-process e [] s) refl, one-IsDrained e s)
    drain e (e' ∷ es) s =
        let (s', ran, d) = drain e' es (popped e (e' ∷ es) s) in
        (
          s',
          pop_again (suc (length es)) e e' es s ∙ ran,
          more-IsDrained e (e' ∷ es) s s'
              (record { queue_empty = d.queue_empty; applied = d.applied; answered = d.answered }),
        )

    -- If observers emit nothing while they are notified, popping a queue takes one round for each
    -- emit, applies the emits in the order queued, resolves their promises in this order, each once,
    -- and leaves the queue empty.
    pub pop_queue-IsDrained :
        (s : PayloadManager m)
        → s.emit_queue ≢ []
        → (s' : PayloadManager m) × (pop_queue m remove_from_array react (length s.emit_queue) s
            ≡ some s')
          × IsDrained s.emit_queue s s'
    pop_queue-IsDrained s = by_queue s.emit_queue s
      where
        by_queue :
            (q : List (Element m.Payload)) (r : PayloadManager m)
            → q ≢ []
            → (s' : PayloadManager m) × (pop_queue m remove_from_array react
                  (length q)
                  (record r { emit_queue = q })
                ≡ some s')
              × IsDrained q r s'
        by_queue [] r h = absurd (h refl)
        by_queue (e ∷ es) r h = drain e es r
