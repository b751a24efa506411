-- ===== src/Singleton/Examples.antt =====
-- Three preferences of one type, and a note that refers to one of them.
use snjs.Prelude.{ℕ, ◌≡◌, refl, true, false, [], ◌∷◌, ok, arith}
use snjs.Singleton.{
  SingletonModels, SingletonManager, SyncEvent, resolve_singletons_for_items, Store, Downloaded,
  find_or_create_content_type_singleton,
}
use snjs.Singleton.Deletion.{SingletonLaws}
use snjs.Prelude.Counts.{count}
use snjs.Singleton.Resolution.{Unique}
use snjs.Singleton.Resolved.{IsResolved, resolve-IsResolved}
use snjs.Singleton.Creation.{IsFound, test, find_or_create-IsFound}

pub record Entry : Type 0 where
  pub id : ℕ
  pub kind : ℕ
  pub created : ℕ

abbrev models : SingletonModels
models = record {
  Item = Entry;
  uuid = λ e. e.id;
  content_type = λ e. e.kind;
  created_at = λ e. e.created;
  is_singleton = λ e. true;
  keeps_earliest = λ e. true;
  satisfies = λ e f. true;
  same_object = λ e f. false;
  uuids_that_reference = λ u es. [];
  remove_relationship = λ gone e. e;
}

laws : SingletonLaws models
laws = record {
  matches_sym = λ x y h. ground (arith, h);
  matches_trans = λ x y z h k. ground (arith, h, k);
  same_object_eq = λ x y h. absurd (ground (arith, h));
  removed_same =
      λ gone x. record { same_uuid = refl; same_created = refl; same_matches = λ z. refl };
}

abbrev young : Entry
young = record { id = 1; kind = 5; created = 30 }

abbrev old : Entry
old = record { id = 2; kind = 5; created = 10 }

abbrev note : Entry
note = record { id = 4; kind = 6; created = 20 }

abbrev manager : SingletonManager models
manager = record { items = young ∷ old ∷ note ∷ []; resolve_queue = []; syncs = 0 }

entries-Unique : Unique models (young ∷ old ∷ note ∷ [])
unfolding count
entries-Unique u = ground arith

resolve-IsResolved_example :
    (s' : SingletonManager models) × (resolve_singletons_for_items models
        (young ∷ note ∷ [])
        SyncEvent.download_first_sync_completed
        manager
      ≡ ok s')
    × IsResolved models (young ∷ note ∷ []) (young ∷ old ∷ note ∷ []) s'.items
resolve-IsResolved_example =
    resolve-IsResolved models laws (young ∷ note ∷ []) SyncEvent.download_first_sync_completed
      manager entries-Unique (refl, (refl, tt))

abbrev store : Store models
store = record {
  all_items = note ∷ [];
  errored_payloads = (9, 5) ∷ [];
  last_sync_date = false;
  sync_requests = 0;
}

abbrev download : Downloaded models
download = record { items_after = note ∷ old ∷ []; notifications = (note ∷ []) ∷ (old ∷ []) ∷ [] }

find_or_create-IsFound_example :
    (let (i, s') = find_or_create_content_type_singleton models 5 download young store in
      IsFound models 5 download young store i s' × (test models 5 i ≡ true))
find_or_create-IsFound_example = find_or_create-IsFound models 5 download young store refl
