-- ===== src/History/Examples.antt =====
-- A history of four revisions, the third a large deletion.
use snjs.Prelude.{
  ℕ, ◌≡◌, ◌≤◌, ◌+◌, ◌*◌, max, refl, String, true, false, Option, none, some, List, [], ◌∷◌, ◌==◌,
  leb, length, str_eq, arith, if◌then◌else◌,
}
use snjs.Prelude.Sort.{ℤ, pos, negsuc}
use snjs.History.{
  HistoryModels, HistoryManager, optimize_history_for_item, session_history_for_item,
  record_new_history_for_items, is_entry_significant,
}
use snjs.History.Optimize.{
  RemovesPresent, Distinct, kept_by_rules, significant_count, optimize-eq-kept_by_rules,
  length-optimize-le,
}
use snjs.History.Clean.{IsClean, record_new_history-IsClean}

record Revision : Type 0 where
  ref : ℕ
  size : ℕ
  vector : ℤ

abbrev remove_revision : List Revision → Revision → List Revision
remove_revision [] e = []
remove_revision (x ∷ xs) e = if x.ref == e.ref then xs else x ∷ remove_revision xs e

abbrev newest : List Revision → Option Revision
newest [] = none
newest (x ∷ xs) = some x

abbrev models : HistoryModels
models = record {
  Entry = Revision;
  ref = λ e. e.ref;
  delta_size = λ e. e.size;
  operation_vector = λ e. e.vector;
  is_discardable = λ e. e.size == 0;
  is_same_as_entry = λ a b. a.ref == b.ref;
  get_newest_revision = newest;
  Payload = Revision;
  create_entry = λ p latest. p;
  remove_from_array = remove_revision;
}

models-RemovesPresent : RemovesPresent models
models-RemovesPresent [] e absent = refl
models-RemovesPresent (x ∷ xs) e absent = ground (arith, models-RemovesPresent xs e)

abbrev typed : ℕ → Revision
typed n = record { ref = n; size = 1; vector = pos 1 }

abbrev cut : Revision
cut = record { ref = 2; size = 30; vector = negsuc 0 }

abbrev revisions : List Revision
revisions = typed 5 ∷ typed 4 ∷ cut ∷ typed 3 ∷ typed 1 ∷ typed 0 ∷ []

revisions-Distinct : Distinct models revisions
revisions-Distinct = (refl, (refl, (refl, (refl, (refl, (refl, tt))))))

abbrev manager : HistoryManager models
manager = record {
  history_staging = λ u. none;
  history = λ u. if str_eq u "n" then some revisions else none;
  item_revision_threshold = 2;
}

optimize-eq-kept_by_rules_example :
    (session_history_for_item models (optimize_history_for_item models "n" manager) "n"
      ≡ (if leb (length revisions) 2 then revisions else kept_by_rules models true false revisions))
    × ((other : String)
        → str_eq "n" other ≡ false
        → session_history_for_item models (optimize_history_for_item models "n" manager) other
          ≡ session_history_for_item models manager other)
optimize-eq-kept_by_rules_example =
    optimize-eq-kept_by_rules models models-RemovesPresent "n" manager revisions-Distinct

kept_test : kept_by_rules models true false revisions ≡ typed 5 ∷ cut ∷ typed 3 ∷ typed 0 ∷ []
unfolding kept_by_rules is_entry_significant
kept_test = refl

length-optimize-le_example :
    length (session_history_for_item models (optimize_history_for_item models "n" manager) "n")
    ≤ max 2 (2 + 2 * significant_count models revisions)
length-optimize-le_example =
    length-optimize-le models models-RemovesPresent "n" manager revisions-Distinct

abbrev fresh : HistoryManager models
fresh = record { history_staging = λ u. none; history = λ u. none; item_revision_threshold = 20 }

fresh-IsClean : IsClean models fresh
fresh-IsClean = record { staged = λ u e there. ground arith; recorded = λ u. tt }

abbrev changes : List (String × Revision)
changes = ("n", typed 1) ∷ ("n", cut) ∷ []

record_new_history-IsClean_example :
    IsClean models (record_new_history_for_items models changes fresh)
record_new_history-IsClean_example = record_new_history-IsClean models changes fresh fresh-IsClean
