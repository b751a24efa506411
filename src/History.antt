-- ===== src/History.antt =====
-- The session history of notes (packages/snjs/lib/Services/History/HistoryManager.ts). Entries belong
-- to @standardnotes/models and are a parameter; `ref` is the object that an entry is, which
-- `includes` compares. The maps from uuids are functions.
pub mod Optimize
pub mod Bounds
pub mod Clean
mod Examples
use snjs.Prelude.{
  ℕ, String, Bool, true, false, ◌&&◌, ◌||◌, Option, none, some, List, [], ◌∷◌, length, leb, ltb,
  ◌==◌, filter, any, is_empty, or_else, str_eq, if◌then◌else◌,
}
use snjs.Prelude.Sort.{ℤ, pos, negsuc}

-- DefaultItemRevisionsThreshold
abbrev pub default_item_revisions_threshold : ℕ
default_item_revisions_threshold = 20

-- LargeEntryDeltaThreshold
abbrev pub large_entry_delta_threshold : ℕ
large_entry_delta_threshold = 25

abbrev pub is_minus_one : ℤ → Bool
is_minus_one (pos n) = false
is_minus_one (negsuc n) = n == 0

-- HistoryEntry and the functions on it that the manager uses
pub record HistoryModels : Type 1 where
  pub Entry : Type 0
  pub ref : Entry → ℕ
  pub delta_size : Entry → ℕ
  pub operation_vector : Entry → ℤ
  pub is_discardable : Entry → Bool
  pub is_same_as_entry : Entry → Entry → Bool
  pub get_newest_revision : List Entry → Option Entry
  pub Payload : Type 0
  pub create_entry : Payload → Option Entry → Entry
  -- removeFromArray of @standardnotes/utils
  pub remove_from_array : List Entry → Entry → List Entry

module _ (m : HistoryModels) where
  open m use {
    Entry, ref, delta_size, operation_vector, is_discardable, is_same_as_entry, get_newest_revision,
    Payload, create_entry, remove_from_array,
  }

  -- `entries.includes(entry)`
  abbrev pub includes : List Entry → Entry → Bool
  includes entries entry = any (λ k. ref k == ref entry) entries

  unfoldable pub is_entry_significant : Entry → Bool
  is_entry_significant entry = ltb large_entry_delta_threshold (delta_size entry)

  -- `entries[index + 1]` is the head of the older entries, where there is one.
  abbrev pub hang_on : List Entry → List Entry → List Entry
  hang_on [] keep_entries = keep_entries
  hang_on (previous ∷ older) keep_entries = previous ∷ keep_entries

  unfoldable pub process_entry : Entry → List Entry → Bool → List Entry → List Entry
  unfolding is_entry_significant
  process_entry entry older keep keep_entries =
      if keep
      then (if is_entry_significant entry && is_minus_one (operation_vector entry)
          then hang_on older (entry ∷ keep_entries)
          else entry ∷ keep_entries)
      else remove_from_array keep_entries entry

  -- The loop from the last index, the oldest entry, down to index 0: the older entries are
  -- processed first.
  unfoldable pub keep_entries_of : Bool → List Entry → List Entry
  keep_entries_of is_first [] = []
  keep_entries_of is_first (entry ∷ older) =
      process_entry entry older (is_first || is_empty older || is_entry_significant entry)
        (keep_entries_of false older)

  -- `filtered`
  unfoldable pub filtered_entries : List Entry → List Entry
  unfolding keep_entries_of
  filtered_entries entries = filter (includes (keep_entries_of true entries)) entries

  pub record HistoryManager : Type 0 where
    pub history_staging : String → Option Entry
    pub history : String → Option (List Entry)
    pub item_revision_threshold : ℕ

  abbrev pub update {ℓ} : {A : Type ℓ} → String → A → (String → Option A) → String → Option A
  update key value map j = if str_eq key j then some value else map j

  abbrev pub session_history_for_item : HistoryManager → String → List Entry
  session_history_for_item s uuid = or_else (s.history uuid) []

  unfoldable pub optimize_history_for_item : String → HistoryManager → HistoryManager
  unfolding filtered_entries
  optimize_history_for_item uuid s =
      let entries = session_history_for_item s uuid in
      if leb (length entries) s.item_revision_threshold
      then s
      else record s { history = update uuid (filtered_entries entries) s.history }

  -- `latestEntry && stagedEntry.isSameAsEntry(latestEntry)`
  abbrev pub is_latest : Entry → Option Entry → Bool
  is_latest staged none = false
  is_latest staged (some latest) = is_same_as_entry staged latest

  -- What becomes of the entry that was staged before.
  unfoldable pub consider_staged :
      String → List Entry → Entry → Option Entry → Option Entry → HistoryManager → HistoryManager
  unfolding optimize_history_for_item
  consider_staged uuid item_history current latest none s = s
  consider_staged uuid item_history current latest (some staged) s =
      if is_same_as_entry staged current || is_latest staged latest
      then s
      else optimize_history_for_item uuid
          (record s { history = update uuid (staged ∷ item_history) s.history })

  -- One round of `recordNewHistoryForItems`.
  unfoldable pub record_item : String → Payload → HistoryManager → HistoryManager
  unfolding consider_staged
  record_item uuid payload s =
      let item_history = session_history_for_item s uuid in
      let latest = get_newest_revision item_history in
      let current = create_entry payload latest in
      if is_discardable current
      then s
      else consider_staged uuid item_history current latest (s.history_staging uuid)
          (record s { history_staging = update uuid current s.history_staging })

  unfoldable pub record_new_history_for_items :
      List (String × Payload) → HistoryManager → HistoryManager
  unfolding record_item
  record_new_history_for_items [] s = s
  record_new_history_for_items ((uuid, payload) ∷ items) s =
      record_new_history_for_items items (record_item uuid payload s)
