-- ===== src/KeyRecovery/Examples.antt =====
-- Two items keys of two passwords; the first attempt fails, and the third is aborted.
use snjs.Prelude.{
  ℕ, ◌≤◌, ◌≡◌, refl, true, false, none, some, List, [], ◌∷◌, ◌==◌, length, if◌then◌else◌, arith,
}
use snjs.KeyRecovery.{
  KeyModels, DecryptionQueueItem, OperationResult, KeyRecovery, process_queue, process_first,
  handle_decryption_of_all_keys, remove_from_undecryptables,
}
use snjs.KeyRecovery.OperationResult.{success, failed, aborted}
use snjs.KeyRecovery.Ends.{LoopLaws, IsDone, process_queue-IsDone}

-- Keys and root keys are numbers, and a root key decrypts what it is given.
abbrev models : KeyModels
models = record {
  Key = ℕ;
  RootKey = ℕ;
  uuid = λ k. k;
  embedded_key_params = λ k. some k;
  root_key_params = λ r. r;
  make_dirty = λ k. k;
  is_dirty = λ k. false;
  decrypt = λ r ks. ks;
}

abbrev Item : Type 0
Item = DecryptionQueueItem models

abbrev attempt : ℕ → Item → OperationResult models
attempt n item = if n == 0 then failed else if n == 1 then success item.key_params true else aborted

-- The passcode is given when it is asked for the third time.
abbrev cancels : ℕ → ℕ
cancels n = 2

abbrev remove : List Item → Item → List Item
remove [] y = []
remove (x ∷ xs) y = if x.encrypted_key == y.encrypted_key then xs else x ∷ remove xs y

remove_le : (x : Item) (xs : List Item) → length (remove xs x) ≤ length xs
remove_le x [] = omega arith
remove_le x (y ∷ ys) = ground (arith, remove_le x ys)

laws : LoopLaws models attempt true cancels remove none 1
laws = record {
  remove_first = λ x xs. ground arith;
  remove_le = remove_le;
  settles = λ n item late same. ground (arith, late, same);
}

abbrev item : ℕ → Item
item k = record { encrypted_key = k; key_params = k }

abbrev recovery : KeyRecovery models
recovery = record {
  decryption_queue = item 7 ∷ item 8 ∷ [];
  is_processing_queue = true;
  undecryptables = 7 ∷ 8 ∷ [];
  client_params = none;
  emitted = [];
  saved = [];
  attempts = 0;
  alerts = 0;
  syncs = 0;
}

-- The first key is recovered at the second attempt, and the second one stays in storage.
recovered :
    process_queue models attempt true cancels remove none 3 recovery
    ≡ some (record recovery {
      decryption_queue = [];
      is_processing_queue = false;
      undecryptables = 8 ∷ [];
      emitted = (7 ∷ []) ∷ [];
      saved = (7 ∷ []) ∷ [];
      attempts = 3;
      client_params = some 7;
      alerts = 4;
    })
unfolding process_queue process_first handle_decryption_of_all_keys remove_from_undecryptables
recovered = refl

process_queue-IsDone_example :
    (s' : KeyRecovery models) × (process_queue models attempt true cancels remove none 3 recovery
      ≡ some s')
    × IsDone models attempt true cancels remove none 1 laws recovery s'
process_queue-IsDone_example =
    process_queue-IsDone models attempt true cancels remove none 1 laws recovery
