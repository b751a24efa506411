-- ===== src/History/Clean.antt =====
-- No discardable revision is ever recorded.
use snjs.Prelude.{
  ◌≡◌, refl, String, Bool, false, ◌||◌, Option, none, some, List, [], ◌∷◌, filter, or_else, str_eq,
  All, arith, Bool-cases, if_intro, inl, inr,
}
use snjs.History.{
  HistoryModels, HistoryManager, filtered_entries, optimize_history_for_item, record_item,
  consider_staged, record_new_history_for_items, session_history_for_item, update, is_latest,
}

module _ (m : HistoryModels) where
  open m use {Entry, is_discardable, is_same_as_entry, get_newest_revision, Payload, create_entry}

  abbrev pub AllKeepable : List Entry → Type 0
  AllKeepable es = All (λ e. is_discardable e ≡ false) es

  -- Neither what is staged nor what is recorded is discardable.
  pub record IsClean (s : HistoryManager m) : Type 0 where
    pub staged :
        (uuid : String) (e : Entry) → s.history_staging uuid ≡ some e → is_discardable e ≡ false
    pub recorded : (uuid : String) → AllKeepable (session_history_for_item m s uuid)

  All-filter :
      (test : Entry → Bool) (es : List Entry) → AllKeepable es → AllKeepable (filter test es)
  All-filter test [] h = tt
  All-filter test (e ∷ es) h = elim (Bool-cases (test e)) [
    | inl kept ↦ rw kept (h.0, All-filter test es h.1)
    | inr dropped ↦ rw dropped (All-filter test es h.1)
  ]

  updated-AllKeepable :
      (key uuid : String) (es : List Entry) (map : String → Option (List Entry))
      → AllKeepable es
      → AllKeepable (or_else (map uuid) [])
      → AllKeepable (or_else (update m key es map uuid) [])
  updated-AllKeepable key uuid es map h hs = elim (Bool-cases (str_eq key uuid)) [
    | inl same ↦ rw same h
    | inr other ↦ rw other hs
  ]

  optimize-IsClean :
      (uuid : String) (s : HistoryManager m)
      → IsClean s
      → IsClean (optimize_history_for_item m uuid s)
  unfolding optimize_history_for_item filtered_entries
  optimize-IsClean uuid s c =
      if_intro IsClean _ _ _ (λ few. c)
        (λ many. record {
          staged = c.staged;
          recorded = λ u.
              updated-AllKeepable uuid u _ s.history
                (All-filter _ (session_history_for_item m s uuid) (c.recorded uuid)) (c.recorded u);
        })

  staged-IsClean :
      (uuid : String) (e : Entry) (s : HistoryManager m)
      → is_discardable e ≡ false
      → IsClean s
      → IsClean (record s { history_staging = update m uuid e s.history_staging })
  staged-IsClean uuid e s keepable c = record {
    staged = λ u a h. elim (Bool-cases (str_eq uuid u)) [
      | inl same ↦ ground arith
      | inr other ↦ c.staged u a (ground arith)
    ];
    recorded = c.recorded;
  }

  recorded-IsClean :
      (uuid : String) (es : List Entry) (s : HistoryManager m)
      → AllKeepable es
      → IsClean s
      → IsClean (record s { history = update m uuid es s.history })
  recorded-IsClean uuid es s h c = record {
    staged = c.staged;
    recorded = λ u. updated-AllKeepable uuid u es s.history h (c.recorded u);
  }

  consider_staged-IsClean :
      (uuid : String) (es : List Entry) (current : Entry) (latest staged : Option Entry)
      (s : HistoryManager m)
      → AllKeepable es
      → ((e : Entry) → staged ≡ some e → is_discardable e ≡ false)
      → IsClean s
      → IsClean (consider_staged m uuid es current latest staged s)
  unfolding consider_staged
  consider_staged-IsClean uuid es current latest none s h keepable c = c
  consider_staged-IsClean uuid es current latest (some staged) s h keepable c =
      if_intro IsClean (is_same_as_entry staged current || is_latest m staged latest) s
        (optimize_history_for_item m uuid
          (record s { history = update m uuid (staged ∷ es) s.history }))
        (λ same. c)
        (λ differs.
          optimize-IsClean uuid _
            (recorded-IsClean uuid (staged ∷ es) s (keepable staged refl, h) c))

  record_item-IsClean :
      (uuid : String) (payload : Payload) (s : HistoryManager m)
      → IsClean s
      → IsClean (record_item m uuid payload s)
  unfolding record_item
  record_item-IsClean uuid payload s c =
      let es = session_history_for_item m s uuid in
      let latest = get_newest_revision es in
      let current = create_entry payload latest in
      let staging : HistoryManager m = record s {
        history_staging = update m uuid current s.history_staging;
      } in
      if_intro IsClean (is_discardable current) s
        (consider_staged m uuid es current latest (s.history_staging uuid) staging)
        (λ discardable. c)
        (λ keepable.
          consider_staged-IsClean uuid es current latest (s.history_staging uuid) staging
            (c.recorded uuid) (c.staged uuid) (staged-IsClean uuid current s keepable c))

  -- Whatever changes of items come in, no discardable revision is staged, recorded, or left by an
  -- optimisation, if there was none before.
  pub record_new_history-IsClean :
      (items : List (String × Payload)) (s : HistoryManager m)
      → IsClean s
      → IsClean (record_new_history_for_items m items s)
  unfolding record_new_history_for_items
  record_new_history-IsClean [] s c = c
  record_new_history-IsClean ((uuid, payload) ∷ items) s c =
      record_new_history-IsClean items (record_item m uuid payload s)
        (record_item-IsClean uuid payload s c)
