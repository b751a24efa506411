-- ===== src/Payloads/Manager.antt =====
-- The state of all payloads, the queue of emits and the observers
-- (packages/snjs/lib/Services/Payloads/PayloadManager.ts). A promise is a number. What observers
-- emit while they are notified is given by `react`; those emits join the queue, which is then not
-- empty, and are popped after the current one.
pub mod Apply
pub mod Queue
mod Examples
use snjs.Prelude.{
  ℕ, zero, suc, String, Bool, true, false, ◌&&◌, ◌||◌, Option, none, some, List, [], ◌∷◌, ◌++◌, map,
  ltb, is_empty, is_some, or_else, any, filter, if◌then◌else◌, str_eq,
}
use snjs.Prelude.Sort.{ℤ, pos, negsuc, sort}
use snjs.Payloads.Models.{PayloadModels}

pub record Observer : Type 0 where
  pub types : List String
  pub priority : ℕ
  pub callback : ℕ

-- DeltaEmit and QueueElement
pub record Element (Payload : Type 0) : Type 0 where
  pub emits : List Payload
  pub ignored : Option (List Payload)
  pub source : ℕ
  pub source_key : Option String
  pub promise : ℕ

-- PayloadManagerChangeData, and the callback that gets it
pub record ChangeData (Payload : Type 0) : Type 0 where
  pub callback : ℕ
  pub changed : List Payload
  pub inserted : List Payload
  pub discarded : List Payload
  pub ignored : List Payload
  pub unerrored : List Payload
  pub source : ℕ
  pub source_key : Option String

-- priority order of `notifyChangeObservers`
abbrev pub compare_priority : Observer → Observer → ℤ
compare_priority a b = if ltb a.priority b.priority then negsuc 0 else pos 1

unfoldable pub ordered_observers : List Observer → List Observer
ordered_observers observers = sort compare_priority observers

module _ (m : PayloadModels) where
  open m use {
    Payload, uuid, content_type, is_deleted, is_discardable, is_encrypted, is_decrypted, any_type,
    Collection, empty, lookup, store, discard,
  }

  pub record Applied : Type 0 where
    pub collection : Collection
    pub changed : List Payload
    pub inserted : List Payload
    pub discarded : List Payload
    pub unerrored : List Payload

  abbrev pub is_corrupt : Payload → Bool
  is_corrupt p = str_eq (uuid p) "" || str_eq (content_type p) ""

  abbrev pub is_discarded : Payload → Bool
  is_discarded p = is_deleted p && is_discardable p

  -- `base` is there, and the payload is its decryption.
  abbrev pub unerrors : Option Payload → Payload → Bool
  unerrors none p = false
  unerrors (some base) p = is_encrypted base && is_decrypted p

  -- One round of the loop of `applyPayloads`.
  unfoldable pub apply_payload : Applied → Payload → Applied
  apply_payload a p =
      let base = lookup a.collection (uuid p) in
      if is_corrupt p
      then a
      else if is_discarded p
      then record a { collection = discard a.collection p; discarded = a.discarded ++ p ∷ [] }
      else if is_some base
      then record a {
        collection = store a.collection p;
        changed = a.changed ++ p ∷ [];
        unerrored = if unerrors base p then a.unerrored ++ p ∷ [] else a.unerrored;
      }
      else record a { collection = store a.collection p; inserted = a.inserted ++ p ∷ [] }

  unfoldable pub apply_from : Applied → List Payload → Applied
  unfolding apply_payload
  apply_from a [] = a
  apply_from a (p ∷ ps) = apply_from (apply_payload a p) ps

  unfoldable pub apply_payloads : Collection → List Payload → Applied
  unfolding apply_from
  apply_payloads c ps =
      apply_from
        (record { collection = c; changed = []; inserted = []; discarded = []; unerrored = [] }) ps

  -- The filter of `notifyChangeObservers`.
  unfoldable pub filter_types : List String → List Payload → List Payload
  filter_types types payloads =
      if any (λ t. str_eq t any_type) types
      then payloads
      else filter (λ p. any (λ t. str_eq t (content_type p)) types) payloads

  -- What one observer gets.
  unfoldable pub change_data : Applied → Element Payload → Observer → ChangeData Payload
  unfolding filter_types
  change_data a e o = record {
    callback = o.callback;
    changed = filter_types o.types a.changed;
    inserted = filter_types o.types a.inserted;
    discarded = filter_types o.types a.discarded;
    ignored = filter_types o.types (or_else e.ignored []);
    unerrored = filter_types o.types a.unerrored;
    source = e.source;
    source_key = e.source_key;
  }

  unfoldable pub notify_change_observers :
      List Observer → Applied → Element Payload → List (ChangeData Payload)
  unfolding change_data ordered_observers
  notify_change_observers observers a e = map (change_data a e) (ordered_observers observers)

  pub record PayloadManager : Type 0 where
    pub change_observers : List Observer
    pub collection : Collection
    pub emit_queue : List (Element Payload)
    pub notified : List (ChangeData Payload)
    pub resolved : List (ℕ × List Payload)

  unfoldable pub reset_state : PayloadManager → PayloadManager
  reset_state s = record s { collection = empty }

  unfoldable pub add_observer : List String → ℕ → ℕ → PayloadManager → PayloadManager
  add_observer types callback priority s = record s {
    change_observers =
        s.change_observers
        ++ record { types = types; priority = priority; callback = callback } ∷ [];
  }

  unfoldable pub remove_payload_locally : Payload → PayloadManager → PayloadManager
  remove_payload_locally p s = record s { collection = discard s.collection p }

  unfoldable pub find_one : String → PayloadManager → Option Payload
  find_one u s = lookup s.collection u

  module _ (remove_from_array : List (Element Payload) → Element Payload → List (Element Payload))
      (react : ChangeData Payload → List (Element Payload)) where
    emitted : List (ChangeData Payload) → List (Element Payload)
    emitted [] = []
    emitted (n ∷ ns) = react n ++ emitted ns

    -- `popQueue`, without its last call of itself
    unfoldable pub process : Element Payload → PayloadManager → PayloadManager
    unfolding emitted apply_payloads notify_change_observers
    process first s =
        let a = apply_payloads s.collection first.emits in
        let ns = notify_change_observers s.change_observers a first in
        record s {
          collection = a.collection;
          notified = s.notified ++ ns;
          emit_queue = remove_from_array (s.emit_queue ++ emitted ns) first;
          resolved = s.resolved ++ (first.promise, a.changed ++ (a.inserted ++ a.discarded)) ∷ [];
        }

    -- `none`: the rounds ran out.
    unfoldable pub pop_queue : ℕ → PayloadManager → Option PayloadManager
    pop_queue zero s = none
    pop_queue (suc rounds) s = elim s.emit_queue [
      | [] ↦ some s
      | first ∷ _ ↦
          let s' = process first s in
          let rest = pop_queue rounds s' in if is_empty s'.emit_queue then some s' else rest
    ]

    -- `emits.length === 0 && ignored?.length === 0`
    abbrev pub is_void : Element Payload → Bool
    is_void e = is_empty e.emits && elim e.ignored [ none ↦ false | some i ↦ is_empty i ]

    -- An emit joins the queue, and starts it if it is alone there.
    unfoldable pub emit_delta_emit : ℕ → Element Payload → PayloadManager → Option PayloadManager
    emit_delta_emit rounds e s =
        if is_void e
        then some (record s { resolved = s.resolved ++ (e.promise, []) ∷ [] })
        else (let s' : PayloadManager = record s { emit_queue = s.emit_queue ++ e ∷ [] } in
            if is_empty s.emit_queue then pop_queue rounds s' else some s')
