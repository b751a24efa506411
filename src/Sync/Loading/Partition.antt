-- ===== src/Sync/Loading/Partition.antt =====
-- The batches cover what is loaded, each payload once.
use snjs.Prelude.{
  ℕ, zero, suc, ◌+◌, ◌-◌, ◌*◌, ◌%◌, ◌≤◌, ◌<◌, Bool, true, false, not, ◌≡◌, refl, sym, ap, ◌∙◌, List,
  [], ◌∷◌, ◌++◌, ◌==◌, filter, take, drop, length, filter-append, length-append, arith,
}
use snjs.Prelude.Counts.{count}
use snjs.Sync.Priority.{Payload}
use native.Mathlib.Nat.{div-add-mod', mod-lt}
use snjs.Sync.Loading.{LoadModels, LoadState, ceil_div, load_batch, load_batches, process_batch}

-- The times that a uuid stands in a list of emitted payloads.
abbrev pub at : ℕ → Payload → Bool
at u p = u == p.uuid

abbrev pub times : ℕ → List (List Payload) → ℕ
times u [] = 0
times u (e ∷ es) = count (at u) e + times u es

pub times-append :
    (u : ℕ) (es : List (List Payload)) (e : List Payload)
    → times u (es ++ e ∷ []) ≡ times u es + count (at u) e
times-append u [] e = omega arith
times-append u (d ∷ es) e = omega (arith, times-append u es e)

pub count-append :
    (test : Payload → Bool) (xs ys : List Payload)
    → count test (xs ++ ys) ≡ count test xs + count test ys
unfolding count
count-append test xs ys =
    ap length (filter-append test xs ys) ∙ length-append (filter test xs) (filter test ys)

count-split :
    (test keep : Payload → Bool) (xs : List Payload)
    → count test (filter (λ p. not (keep p)) xs) + count test (filter keep xs) ≡ count test xs
unfolding count
count-split test keep [] = refl
count-split test keep (x ∷ xs) = ground (arith, count-split test keep xs)

zero_add : (b : ℕ) → 0 + b ≡ b
zero_add b = omega arith

suc_add : (a b : ℕ) → suc a + b ≡ suc (a + b)
suc_add a b = omega arith

take_nil : (n : ℕ) → take {A = Payload} n [] ≡ []
take_nil zero = refl
take_nil (suc n) = refl

drop_nil : (n : ℕ) → drop {A = Payload} n [] ≡ []
drop_nil zero = refl
drop_nil (suc n) = refl

pub count-take :
    (test : Payload → Bool) (a b : ℕ) (xs : List Payload)
    → count test (take (a + b) xs) ≡ count test (take a xs) + count test (take b (drop a xs))
unfolding count
count-take test zero b xs = rw (zero_add b) (omega arith)
count-take test (suc a) b [] = rw (take_nil (suc a + b), take_nil b) (omega arith)
count-take test (suc a) b (x ∷ xs) = rw (suc_add a b) (ground (arith, count-take test a b xs))

pub drop-drop : (a b : ℕ) (xs : List Payload) → drop b (drop a xs) ≡ drop (a + b) xs
drop-drop zero b xs = rw (zero_add b) refl
drop-drop (suc a) b [] = drop_nil b ∙ sym (drop_nil (suc a + b))
drop-drop (suc a) b (x ∷ xs) = rw (suc_add a b) (drop-drop a b xs)

pub take_all : (n : ℕ) (xs : List Payload) → length xs ≤ n → take n xs ≡ xs
take_all zero [] h = refl
take_all zero (x ∷ xs) h = absurd (omega (arith, h))
take_all (suc n) [] h = refl
take_all (suc n) (x ∷ xs) h = ap (◌∷◌ x) (take_all n xs (omega arith))

-- Enough batches.
pub ceil_lem : (n b : ℕ) → 1 ≤ b → n ≤ ceil_div n b * b
ceil_lem n b h = omega (arith, div-add-mod' (n + b - 1) b, rest)
  where
    rest : (n + b - 1) % b < b
    rest = mod-lt (n + b - 1) (omega arith)

pub zero_times : (b : ℕ) → 0 * b ≡ 0
zero_times b = omega arith

suc_times : (a b : ℕ) → suc a * b ≡ b + a * b
suc_times a b = omega arith

suc_times_last : (a b : ℕ) → suc a * b ≡ a * b + b
suc_times_last a b = omega arith

module _ (m : LoadModels) where
  -- What the code relies on of the other packages: decryption gives each payload back once, under its
  -- uuid; subtractFromArray takes out what was filtered; a payload is not both encrypted and decrypted;
  -- and the size of a batch is positive.
  pub record LoadLaws : Type 0 where
    pub items_keys_same :
        (u : ℕ) (ps : List Payload) → count (at u) (m.decrypt_items_keys ps) ≡ count (at u) ps
    pub items_same :
        (u : ℕ) (ps : List Payload) → count (at u) (m.decrypt_items ps) ≡ count (at u) ps
    pub subtract_filter :
        (test : Payload → Bool) (ps : List Payload)
        → m.subtract_from_array ps (filter test ps) ≡ filter (λ p. not (test p)) ps
    pub one_kind :
        (p : Payload) → m.is_encrypted_payload p ≡ true → m.is_decrypted_payload p ≡ false
    pub size_positive : 1 ≤ m.load_batch_size

  module _ (laws : LoadLaws) (u : ℕ) where
    batch_lem : (batch : List Payload) → count (at u) (process_batch m batch) ≡ count (at u) batch
    unfolding process_batch
    batch_lem batch = omega (
      arith,
      count-append (at u) (filter (λ p. not (m.is_encrypted_payload p)) batch)
          (m.decrypt_items (filter m.is_encrypted_payload batch)),
      laws.items_same u (filter m.is_encrypted_payload batch),
      count-split (at u) m.is_encrypted_payload batch,
    )

    load_batch_lem :
        (i : ℕ) (ps : List Payload) (s : LoadState)
        → times u (load_batch m i ps s).emitted
          ≡ times u s.emitted
            + count (at u) (take m.load_batch_size (drop (i * m.load_batch_size) ps))
    unfolding load_batch
    load_batch_lem i ps s =
        let batch = take m.load_batch_size (drop (i * m.load_batch_size) ps) in
        omega (arith, times-append u s.emitted (process_batch m batch), batch_lem batch)

    pub load_batches_lem :
        (left i : ℕ) (ps : List Payload) (s : LoadState)
        → times u (load_batches m left i ps s).emitted
          ≡ times u s.emitted
            + count (at u) (take (left * m.load_batch_size) (drop (i * m.load_batch_size) ps))
    unfolding load_batches count
    load_batches_lem zero i ps s = rw (zero_times m.load_batch_size) (omega arith)
    load_batches_lem (suc left) i ps s = rw (suc_times left m.load_batch_size) (
        omega (
          arith,
          load_batches_lem left (suc i) ps (load_batch m i ps s),
          load_batch_lem i ps s,
          count-take (at u) m.load_batch_size (left * m.load_batch_size)
              (drop (i * m.load_batch_size) ps),
          shifted,
        ))
      where
        shifted :
            count (at u) (take (left * m.load_batch_size) (drop (suc i * m.load_batch_size) ps))
            ≡ count (at u) (
                take
                  (left * m.load_batch_size)
                  (drop m.load_batch_size (drop (i * m.load_batch_size) ps)))
        shifted =
            ap (λ xs. count (at u) (take (left * m.load_batch_size) xs))
              (ap (λ n. drop n ps) (suc_times_last i m.load_batch_size)
                ∙ sym (drop-drop (i * m.load_batch_size) m.load_batch_size ps))
