-- ===== src/Payloads/Manager/Examples.antt =====
-- The payload manager on concrete payloads.
use snjs.Prelude.{ℕ, ◌≡◌, refl, none, some, List, [], ◌∷◌, if◌then◌else◌, ◌==◌, arith, ==_iff}
use snjs.Samples.{SamplePayload, payload_models, note, deleted_note}
use snjs.Payloads.Manager.{Observer, Element, ChangeData, PayloadManager, apply_payloads, pop_queue}
use snjs.Payloads.Manager.Apply.{last_write, lookup-apply_payloads}
use snjs.Payloads.Manager.Queue.{IsDrained, pop_queue-IsDrained}

abbrev two : List SamplePayload
two = note ∷ deleted_note ∷ []

lookup-apply_payloads_example :
    (apply_payloads payload_models (λ u. none) two).collection "n"
    ≡ last_write payload_models two "n" none
lookup-apply_payloads_example = lookup-apply_payloads payload_models (λ u. none) two "n"

abbrev late : Observer
late = record { types = "Note" ∷ []; priority = 2; callback = 1 }

abbrev early : Observer
early = record { types = "*" ∷ []; priority = 1; callback = 2 }

abbrev emit : ℕ → List SamplePayload → Element SamplePayload
emit n ps = record { emits = ps; ignored = none; source = 0; source_key = none; promise = n }

abbrev queued : PayloadManager payload_models
queued = record {
  change_observers = late ∷ early ∷ [];
  collection = λ u. none;
  emit_queue = emit 0 two ∷ emit 1 (note ∷ []) ∷ [];
  notified = [];
  resolved = [];
}

-- Emits are told apart by their promises.
abbrev remove_emit :
    List (Element SamplePayload) → Element SamplePayload → List (Element SamplePayload)
remove_emit [] e = []
remove_emit (x ∷ xs) e = if x.promise == e.promise then xs else x ∷ remove_emit xs e

remove_emit_first :
    (e : Element SamplePayload) (es : List (Element SamplePayload)) → remove_emit (e ∷ es) e ≡ es
remove_emit_first e es = ground (arith, ==_iff e.promise e.promise)

abbrev silent : ChangeData SamplePayload → List (Element SamplePayload)
silent n = []

pop_queue-IsDrained_example :
    (s' : PayloadManager payload_models) × (pop_queue payload_models remove_emit silent 2 queued
      ≡ some s')
    × IsDrained payload_models remove_emit remove_emit_first silent
        (λ n. refl)
        queued.emit_queue
        queued
        s'
pop_queue-IsDrained_example =
    pop_queue-IsDrained payload_models remove_emit remove_emit_first silent (λ n. refl) queued
      (λ e. cc)
