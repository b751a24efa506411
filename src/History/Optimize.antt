-- ===== src/History/Optimize.antt =====
-- The optimisation keeps exactly the entries that its rules name.
use snjs.Prelude.{
  ℕ, suc, ◌+◌, ◌*◌, ◌≤◌, max, ◌≡◌, refl, ◌∙◌, ap, Bool, true, false, ◌&&◌, ◌||◌, List, [], ◌∷◌,
  length, leb, ◌==◌, ==_iff, filter, is_empty, if◌then◌else◌, All, arith, Bool-cases, inl, inr,
  String, str_eq, eq_refl,
}
use snjs.History.{
  HistoryModels, includes, is_entry_significant, is_minus_one, process_entry, keep_entries_of,
  filtered_entries, optimize_history_for_item, session_history_for_item, HistoryManager,
}

module _ (m : HistoryModels) where
  open m use {Entry, ref, operation_vector, remove_from_array}

  -- Each object is in the list once.
  abbrev pub Distinct : List Entry → Type 0
  Distinct [] = Unit {0}
  Distinct (e ∷ es) = (includes m es e ≡ false) × Distinct es

  -- The rules, newest entry first: an entry is kept if it is the newest, the oldest or significant,
  -- and an entry before a significant deletion hangs on.
  abbrev pub is_worth : Bool → Entry → List Entry → Bool
  is_worth is_first e older = is_first || is_empty older || is_entry_significant m e

  abbrev pub is_large_deletion : Entry → Bool
  is_large_deletion e = is_entry_significant m e && is_minus_one (operation_vector e)

  unfoldable pub kept_by_rules : Bool → Bool → List Entry → List Entry
  kept_by_rules is_first hangs [] = []
  kept_by_rules is_first hangs (e ∷ older) =
      let worth = is_worth is_first e older in
      let rest = kept_by_rules false (worth && is_large_deletion e) older in
      if worth || hangs then e ∷ rest else rest

  -- An array without the object stays as it is.
  abbrev pub RemovesPresent : Type 0
  RemovesPresent =
      (es : List Entry) (e : Entry) → includes m es e ≡ false → remove_from_array es e ≡ es

  filter-cong :
      (p q : Entry → Bool) (es : List Entry) → All (λ x. p x ≡ q x) es → filter p es ≡ filter q es
  filter-cong p q [] same = refl
  filter-cong p q (e ∷ es) same = rw (same.0, filter-cong p q es same.1) refl

  abbrev is_head : List Entry → Entry → Bool
  is_head [] a = false
  is_head (p ∷ es) a = ref p == ref a

  All-apart :
      (e : Entry) (es : List Entry)
      → includes m es e ≡ false
      → All (λ x. (ref e == ref x) ≡ false) es
  All-apart e [] absent = tt
  All-apart e (x ∷ es) absent = (
    ground (arith, ==_iff (ref e) (ref x), ==_iff (ref x) (ref e)),
    All-apart e es (ground arith),
  )

  head_apart : (es : List Entry) (a : Entry) → includes m es a ≡ false → is_head es a ≡ false
  head_apart [] a absent = refl
  head_apart (p ∷ es) a absent = ground arith

  module _ (removes_present : RemovesPresent) where
    -- One entry is processed: it counts, and the one before it where it is a large deletion.
    includes-process_entry :
        (worth : Bool) (e a : Entry) (es keep : List Entry)
        → includes m keep e ≡ false
        → includes m (process_entry m e es worth keep) a ≡ (
            (worth && (ref e == ref a))
            || (((worth && is_large_deletion e) && is_head es a) || includes m keep a))
    unfolding process_entry
    includes-process_entry false e a es keep absent = rw (removes_present keep e absent) refl
    includes-process_entry true e a [] keep absent = ground arith
    includes-process_entry true e a (p ∷ es) keep absent = ground arith

    -- What is kept of some entries is among them.
    includes-keep_entries_of :
        (is_first : Bool) (es : List Entry) (a : Entry)
        → Distinct es
        → includes m es a ≡ false
        → includes m (keep_entries_of m is_first es) a ≡ false
    unfolding keep_entries_of
    includes-keep_entries_of is_first [] a d absent = refl
    includes-keep_entries_of is_first (e ∷ es) a d absent = ground (
      arith,
      includes-process_entry (is_worth is_first e es) e a es (keep_entries_of m false es)
          (includes-keep_entries_of false es e d.1 d.0),
      includes-keep_entries_of false es a d.1,
      head_apart es a,
    )

    step_lem :
        (is_first : Bool) (e a : Entry) (es : List Entry)
        → Distinct (e ∷ es)
        → includes m (keep_entries_of m is_first (e ∷ es)) a ≡ (
            (is_worth is_first e es && (ref e == ref a))
            || (((is_worth is_first e es && is_large_deletion e) && is_head es a)
                || includes m (keep_entries_of m false es) a))
    unfolding keep_entries_of
    step_lem is_first e a es d =
        includes-process_entry (is_worth is_first e es) e a es (keep_entries_of m false es)
          (includes-keep_entries_of false es e d.1 d.0)

    head_lem :
        (is_first hangs : Bool) (e : Entry) (es : List Entry)
        → Distinct (e ∷ es)
        → (includes m (keep_entries_of m is_first (e ∷ es)) e || (hangs && (ref e == ref e)))
          ≡ (is_worth is_first e es || hangs)
    head_lem is_first hangs e es d = ground (
      arith,
      step_lem is_first e e es d,
      ==_iff (ref e) (ref e),
      head_apart es e,
      includes-keep_entries_of false es e d.1,
    )

    tail_lem :
        (is_first hangs : Bool) (e x : Entry) (es : List Entry)
        → Distinct (e ∷ es)
        → (ref e == ref x) ≡ false
        → (includes m (keep_entries_of m is_first (e ∷ es)) x || (hangs && (ref e == ref x))) ≡ (
            includes m (keep_entries_of m false es) x
            || ((is_worth is_first e es && is_large_deletion e) && is_head es x))
    tail_lem is_first hangs e x es d apart = ground (arith, step_lem is_first e x es d)

    All-map :
        (P Q : Entry → Type 0) (f : (x : Entry) → P x → Q x) (es : List Entry) → All P es → All Q es
    All-map P Q f [] h = tt
    All-map P Q f (x ∷ es) h = (f x h.0, All-map P Q f es h.1)

    everywhere : (P : Entry → Type 0) → ((x : Entry) → P x) → (es : List Entry) → All P es
    everywhere P f [] = tt
    everywhere P f (x ∷ es) = (f x, everywhere P f es)

    or_false : (b : Bool) → b ≡ (b || false)
    or_false true = refl
    or_false false = refl

    kept_lem :
        (is_first hangs : Bool) (es : List Entry)
        → Distinct es
        → filter (λ x. includes m (keep_entries_of m is_first es) x || (hangs && is_head es x)) es
          ≡ kept_by_rules is_first hangs es
    unfolding kept_by_rules
    kept_lem is_first hangs [] d = refl
    kept_lem is_first hangs (e ∷ es) d =
        let rest =
          filter-cong _ _ es (
            All-map _ _ (λ x apart. tail_lem is_first hangs e x es d apart) es (All-apart e es d.0))
          ∙ kept_lem false (is_worth is_first e es && is_large_deletion e) es d.1 in
        rw (head_lem is_first hangs e es d)
          (ap (λ r. if is_worth is_first e es || hangs then e ∷ r else r) rest)

    filtered_lem :
        (es : List Entry) → Distinct es → filtered_entries m es ≡ kept_by_rules true false es
    unfolding filtered_entries
    filtered_lem es d =
        filter-cong _ _ es (everywhere _ (λ x. or_false _) es) ∙ kept_lem true false es d

    -- Where each entry is an object of its own, and removing an object that is not there changes
    -- nothing: an item whose entries are at most the threshold keeps them all, and any other keeps,
    -- in order, exactly the newest entry, the oldest, each significant one, and each that comes right
    -- before a significant deletion. The entries of other items stay.
    pub optimize-eq-kept_by_rules :
        (uuid : String) (s : HistoryManager m)
        → Distinct (session_history_for_item m s uuid)
        → (let es = session_history_for_item m s uuid in
            let s' = optimize_history_for_item m uuid s in
            (session_history_for_item m s' uuid ≡ (
              if leb (length es) s.item_revision_threshold
              then es
              else kept_by_rules true false es))
            × ((other : String)
                → str_eq uuid other ≡ false
                → session_history_for_item m s' other ≡ session_history_for_item m s other))
    unfolding optimize_history_for_item
    optimize-eq-kept_by_rules uuid s d =
        elim (Bool-cases
          (leb (length (session_history_for_item m s uuid)) s.item_revision_threshold)) [
            | inl few ↦ (rw few refl, λ other differs. rw few refl)
            | inr many ↦ (
              rw (many, eq_refl uuid) (filtered_lem (session_history_for_item m s uuid) d),
              λ other differs. rw (many, differs) refl,
            )
          ]

  -- How many entries are significant.
  abbrev pub significant_count : List Entry → ℕ
  significant_count [] = 0
  significant_count (e ∷ es) =
      if is_entry_significant m e then suc (significant_count es) else significant_count es

  abbrev bit : Bool → ℕ
  bit true = 1
  bit false = 0

  length-kept_by_rules :
      (is_first hangs : Bool) (es : List Entry)
      → length (kept_by_rules is_first hangs es)
        ≤ bit is_first + bit hangs + 1 + 2 * significant_count es
  unfolding kept_by_rules
  length-kept_by_rules is_first hangs [] = omega arith
  length-kept_by_rules is_first hangs (e ∷ []) = ground arith
  length-kept_by_rules is_first hangs (e ∷ p ∷ es) = ground (
    arith,
    length-kept_by_rules false (is_worth is_first e (p ∷ es) && is_large_deletion e) (p ∷ es),
  )

  module _ (removes_present : RemovesPresent) where
    -- Under the same assumptions, at most the threshold of entries is left, or the two ends and two
    -- entries for each significant one.
    pub length-optimize-le :
        (uuid : String) (s : HistoryManager m)
        → Distinct (session_history_for_item m s uuid)
        → length (session_history_for_item m (optimize_history_for_item m uuid s) uuid)
          ≤ max s.item_revision_threshold
              (2 + 2 * significant_count (session_history_for_item m s uuid))
    length-optimize-le uuid s d =
        rw ((optimize-eq-kept_by_rules removes_present uuid s d).0)
          (ground (arith, length-kept_by_rules true false (session_history_for_item m s uuid)))
