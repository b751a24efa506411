-- ===== src/Sync/Response.antt =====
-- A sync response of the server (packages/snjs/lib/Services/Sync/Account/Response.ts), and the
-- payload that a raw item becomes (Account/Utilities.ts). The types of items and payloads, the
-- filter of disallowed items and the maker of saved payloads belong to @standardnotes/models.
pub mod Conflicts
mod Examples
use snjs.Prelude.{
  ℕ, String, Bool, true, false, ◌||◌, not, Option, none, some, List, [], ◌++◌, map, length, filter,
  is_some, or_else, if◌then◌else◌, str_eq, Result, ok, throw,
}

-- `other` is a type of conflict that the client does not handle.
pub data ConflictType : Type 0 where
  uuid_conflict conflicting_data content_type_error content_error read_only_error : ConflictType
  other : String → ConflictType

pub record ConflictParams (Item : Type 0) : Type 0 where
  pub type : ConflictType
  pub unsaved_item : Option Item
  pub server_item : Option Item
  pub item : Option Item

pub record RawData (Item : Type 0) : Type 0 where
  pub saved_items : Option (List Item)
  pub retrieved_items : Option (List Item)
  pub conflicts : Option (List (ConflictParams Item))
  pub unsaved : Option (List (ConflictParams Item))
  pub error : Option String
  pub last_sync_token : Option String
  pub pagination_token : Option String

pub record RawSyncResponse (Item : Type 0) : Type 0 where
  pub status : ℕ
  pub error : Option String
  pub data_field : Option (RawData Item)

pub record ServerSyncResponse (Item Filtered Saved : Type 0) : Type 0 where
  pub raw_response : RawSyncResponse Item
  pub saved_payloads : List Saved
  pub retrieved_payloads : List Filtered
  pub uuid_conflict_payloads : List Filtered
  pub data_conflict_payloads : List Filtered
  pub rejected_payloads : List Filtered

-- `a || b` on objects
abbrev pub first_defined {ℓ} : {A : Type ℓ} → Option A → Option A → Option A
first_defined none b = b
first_defined (some a) b = some a

-- `response.data?.field`
abbrev pub from_data :
    {Item A : Type 0} → RawSyncResponse Item → (RawData Item → Option A) → Option A
from_data r field = elim r.data_field [ none ↦ none | some d ↦ field d ]

-- A token is truthy if it is there and not empty.
abbrev pub is_truthy : Option String → Bool
is_truthy none = false
is_truthy (some s) = not (str_eq s "")

abbrev pub is_uuid_conflict : ConflictType → Bool
is_uuid_conflict uuid_conflict = true
is_uuid_conflict _ = false

abbrev pub is_data_conflict : ConflictType → Bool
is_data_conflict conflicting_data = true
is_data_conflict _ = false

abbrev pub is_rejection : ConflictType → Bool
is_rejection content_type_error = true
is_rejection content_error = true
is_rejection read_only_error = true
is_rejection _ = false

module _ {Item : Type 0} where
  unfoldable pub raw_conflict_objects : RawSyncResponse Item → List (ConflictParams Item)
  raw_conflict_objects r =
      or_else (from_data r (λ d. d.conflicts)) [] ++ or_else (from_data r (λ d. d.unsaved)) []

  unfoldable pub raw_uuid_conflict_items : RawSyncResponse Item → List (Option Item)
  raw_uuid_conflict_items r =
      map (λ c. first_defined c.unsaved_item c.item)
        (filter (λ c. is_uuid_conflict c.type) (raw_conflict_objects r))

  unfoldable pub raw_data_conflict_items : RawSyncResponse Item → List (Option Item)
  raw_data_conflict_items r =
      map (λ c. first_defined c.server_item c.item)
        (filter (λ c. is_data_conflict c.type) (raw_conflict_objects r))

  unfoldable pub raw_rejected_payloads : RawSyncResponse Item → List (Option Item)
  raw_rejected_payloads r =
      map (λ c. c.unsaved_item) (filter (λ c. is_rejection c.type) (raw_conflict_objects r))

  module _ {Filtered Saved : Type 0} (filter_disallowed : List (Option Item) → List Filtered)
      (create_saved : Filtered → Saved) where
    -- the constructor
    unfoldable pub construct : RawSyncResponse Item → ServerSyncResponse Item Filtered Saved
    construct r = record {
      raw_response = r;
      saved_payloads =
          map create_saved
            (filter_disallowed (map some (or_else (from_data r (λ d. d.saved_items)) [])));
      retrieved_payloads =
          filter_disallowed (map some (or_else (from_data r (λ d. d.retrieved_items)) []));
      uuid_conflict_payloads = filter_disallowed (raw_uuid_conflict_items r);
      data_conflict_payloads = filter_disallowed (raw_data_conflict_items r);
      rejected_payloads = filter_disallowed (raw_rejected_payloads r);
    }

module _ {Item Filtered Saved : Type 0} where
  unfoldable pub error : ServerSyncResponse Item Filtered Saved → Option String
  error s = first_defined s.raw_response.error (from_data s.raw_response (λ d. d.error))

  abbrev pub last_sync_token : ServerSyncResponse Item Filtered Saved → Option String
  last_sync_token s = from_data s.raw_response (λ d. d.last_sync_token)

  abbrev pub pagination_token : ServerSyncResponse Item Filtered Saved → Option String
  pagination_token s = from_data s.raw_response (λ d. d.pagination_token)

  unfoldable pub all_fully_formed_payloads : ServerSyncResponse Item Filtered Saved → List Filtered
  all_fully_formed_payloads s =
      s.retrieved_payloads
      ++ (s.data_conflict_payloads ++ (s.uuid_conflict_payloads ++ s.rejected_payloads))

  unfoldable pub number_of_items_involved : ServerSyncResponse Item Filtered Saved → ℕ
  unfolding all_fully_formed_payloads
  number_of_items_involved s = length (all_fully_formed_payloads s)

  unfoldable pub has_error : ServerSyncResponse Item Filtered Saved → Bool
  has_error s = is_some s.raw_response.error

-- The fields of a filtered item that `CreatePayloadFromRawServerItem` reads.
pub record RawServerItem : Type 0 where
  pub uuid : String
  pub deleted : Bool
  pub content : Option String
  pub items_key_id : Option String

pub data ServerPayload : Type 0 where
  encrypted : (uuid : String) (content : String) (items_key_id : Option String) → ServerPayload
  deleted : (uuid : String) → ServerPayload

unfoldable pub create_payload_from_raw_server_item : RawServerItem → Result ServerPayload
create_payload_from_raw_server_item raw =
    if raw.deleted then ok (deleted raw.uuid) else elim raw.content [
      | some content ↦ ok (encrypted raw.uuid content raw.items_key_id)
      | none ↦ throw "Unhandled case in createPayloadFromRawItem"
    ]
