-- ===== src/Samples.antt =====
-- Concrete functions and data that the examples put in for the parameters of the model.
use snjs.Payloads.Models.{PayloadModels}
use snjs.Prelude.{
  ℕ, ◌≡◌, refl, String, Bool, true, false, not, Option, none, some, List, [], ◌∷◌, ◌++◌, arith,
  ◌==◌, ==_iff, if◌then◌else◌, str_eq,
}

-- Arrays of numbers, as @standardnotes/utils treats arrays of objects.
abbrev pub remove_from_array : List ℕ → ℕ → List ℕ
remove_from_array [] a = []
remove_from_array (x ∷ xs) a = if x == a then xs else x ∷ remove_from_array xs a

abbrev pub subtract_from_array : List ℕ → List ℕ → List ℕ
subtract_from_array xs [] = xs
subtract_from_array xs (y ∷ ys) = subtract_from_array (remove_from_array xs y) ys

pub subtract_prefix : (xs ys : List ℕ) → subtract_from_array (xs ++ ys) xs ≡ ys
subtract_prefix [] ys = refl
subtract_prefix (x ∷ xs) ys = ground (arith, ==_iff x x, subtract_prefix xs ys)

-- `array.filter` on what is there
abbrev pub defined : List (Option ℕ) → List ℕ
defined [] = []
defined (none ∷ xs) = defined xs
defined (some x ∷ xs) = x ∷ defined xs

-- Payloads with the fields that the payload manager reads, in a collection that is a function.
pub record SamplePayload : Type 0 where
  pub uuid : String
  pub content_type : String
  pub is_deleted : Bool
  pub is_encrypted : Bool

abbrev pub payload_models : PayloadModels
payload_models = record {
  Payload = SamplePayload;
  uuid = λ p. p.uuid;
  content_type = λ p. p.content_type;
  is_deleted = λ p. p.is_deleted;
  is_discardable = λ p. p.is_deleted;
  is_encrypted = λ p. p.is_encrypted;
  is_decrypted = λ p. not p.is_encrypted;
  any_type = "*";
  Collection = String → Option SamplePayload;
  empty = λ u. none;
  lookup = λ c u. c u;
  store = λ c p u. if str_eq p.uuid u then some p else c u;
  discard = λ c p u. if str_eq p.uuid u then none else c u;
  lookup-empty = λ u. refl;
  lookup-store = λ c p u. refl;
  lookup-discard = λ c p u. refl;
}

abbrev pub note : SamplePayload
note = record { uuid = "n"; content_type = "Note"; is_deleted = false; is_encrypted = false }

abbrev pub deleted_note : SamplePayload
deleted_note = record note { is_deleted = true }
