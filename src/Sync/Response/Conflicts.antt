-- ===== src/Sync/Response/Conflicts.antt =====
-- What becomes of each conflict of a response.
use snjs.Prelude.{
  ℕ, suc, ◌+◌, ◌≡◌, refl, ap, Option, none, some, List, [], ◌∷◌, ◌++◌, length, filter, arith, map,
}
use snjs.Sync.Response.{
  uuid_conflict, conflicting_data, content_type_error, content_error, read_only_error, other,
  ConflictType, ConflictParams, RawData, RawSyncResponse, is_uuid_conflict, is_data_conflict,
  is_rejection, raw_conflict_objects, raw_uuid_conflict_items, raw_data_conflict_items,
  raw_rejected_payloads, construct, first_defined,
}

-- The items of conflicts by what the client does with them, and how many have a type that it does not know.
pub record Sorted (Item : Type 0) : Type 0 where
  pub uuids : List (Option Item)
  pub data_items : List (Option Item)
  pub rejections : List (Option Item)
  pub unknown : ℕ

module _ {Item : Type 0} where
  abbrev pub either : Option Item → Option Item → Option Item
  either (some i) later = some i
  either none later = later

  -- A conflict of a uuid or of data gives its own item, or the plain one; a rejection gives the item
  -- that was not saved.
  abbrev pub place : ConflictType → ConflictParams Item → Sorted Item → Sorted Item
  place uuid_conflict c s = record s { uuids = either c.unsaved_item c.item ∷ s.uuids }
  place conflicting_data c s = record s { data_items = either c.server_item c.item ∷ s.data_items }
  place content_type_error c s = record s { rejections = c.unsaved_item ∷ s.rejections }
  place content_error c s = record s { rejections = c.unsaved_item ∷ s.rejections }
  place read_only_error c s = record s { rejections = c.unsaved_item ∷ s.rejections }
  place (other t) c s = record s { unknown = suc s.unknown }

  abbrev pub sort_out : List (ConflictParams Item) → Sorted Item
  sort_out [] = record { uuids = []; data_items = []; rejections = []; unknown = 0 }
  sort_out (c ∷ cs) = place c.type c (sort_out cs)

  abbrev pub listed : Option (List (ConflictParams Item)) → List (ConflictParams Item)
  listed none = []
  listed (some cs) = cs

  -- The conflicts that the server sent, and those of its older versions.
  abbrev pub sent_conflicts : Option (RawData Item) → List (ConflictParams Item)
  sent_conflicts none = []
  sent_conflicts (some d) = listed d.conflicts ++ listed d.unsaved

  sent_lem : (r : RawSyncResponse Item) → raw_conflict_objects r ≡ sent_conflicts r.data_field
  unfolding raw_conflict_objects
  sent_lem r = ground arith

  either_lem : (a b : Option Item) → first_defined a b ≡ either a b
  either_lem none b = refl
  either_lem (some i) b = refl

  uuids_lem :
      (cs : List (ConflictParams Item))
      → map
          (λ (c : ConflictParams Item). first_defined c.unsaved_item c.item)
          (filter (λ (c : ConflictParams Item). is_uuid_conflict c.type) cs)
        ≡ (sort_out cs).uuids
  uuids_lem [] = refl
  uuids_lem (c ∷ cs) = ground (arith, uuids_lem cs, either_lem c.unsaved_item c.item)

  data_lem :
      (cs : List (ConflictParams Item))
      → map
          (λ (c : ConflictParams Item). first_defined c.server_item c.item)
          (filter (λ (c : ConflictParams Item). is_data_conflict c.type) cs)
        ≡ (sort_out cs).data_items
  data_lem [] = refl
  data_lem (c ∷ cs) = ground (arith, data_lem cs, either_lem c.server_item c.item)

  rejections_lem :
      (cs : List (ConflictParams Item))
      → map
          (λ (c : ConflictParams Item). c.unsaved_item)
          (filter (λ (c : ConflictParams Item). is_rejection c.type) cs)
        ≡ (sort_out cs).rejections
  rejections_lem [] = refl
  rejections_lem (c ∷ cs) = ground (arith, rejections_lem cs)

  count_lem :
      (cs : List (ConflictParams Item))
      → (let s = sort_out cs in
          length s.uuids + length s.data_items + length s.rejections + s.unknown ≡ length cs)
  count_lem [] = refl
  count_lem (c ∷ cs) = ground (arith, count_lem cs)

  module _ {Filtered Saved : Type 0} (filter_disallowed : List (Option Item) → List Filtered)
      (create_saved : Filtered → Saved) where
    -- The uuid conflicts, data conflicts and rejections of a constructed response are what the filter
    -- leaves of the items of all conflicts that the server sent, those under the older name included,
    -- each sorted by its type and in the order sent; and the sorting loses none: those of the three
    -- kinds and of unknown types are together as many as were sent.
    pub construct-eq-sort_out :
        (r : RawSyncResponse Item)
        → (let response = construct filter_disallowed create_saved r in
            let sent = sent_conflicts r.data_field in
            let sorted = sort_out sent in
            (response.uuid_conflict_payloads ≡ filter_disallowed sorted.uuids)
            × (response.data_conflict_payloads ≡ filter_disallowed sorted.data_items)
            × (response.rejected_payloads ≡ filter_disallowed sorted.rejections)
            × (length sorted.uuids
                  + length sorted.data_items
                  + length sorted.rejections
                  + sorted.unknown
                ≡ length sent))
    unfolding construct raw_uuid_conflict_items raw_data_conflict_items raw_rejected_payloads
    construct-eq-sort_out r =
        let sent = sent_conflicts r.data_field in
        rw (sent_lem r) (
          ap filter_disallowed (uuids_lem sent),
          ap filter_disallowed (data_lem sent),
          ap filter_disallowed (rejections_lem sent),
          count_lem sent,
        )
