-- ===== src/Group/Counts.antt =====
-- How many entries of a descriptor record are primary, stand under a key or hold an object, and
-- what the operations do to these numbers.
use snjs.Prelude.{
  ℕ, ◌+◌, ◌≤◌, ◌≡◌, refl, String, Bool, true, false, Option, some, [], ◌∷◌, ◌==◌, str_eq, arith,
  ==_iff, is_empty, subst, eq_iff, Bool-cases, inl, inr,
}
use snjs.Group.{
  Descriptor, DescriptorRecord, get_elem?, assign, delete, mark_primary, relabel, first_descriptor,
}

abbrev pub bit : Bool → ℕ
bit true = 1
bit false = 0

abbrev pub primaries : DescriptorRecord → ℕ
primaries [] = 0
primaries ((k, d) ∷ es) = bit d.primary + primaries es

abbrev pub keys : String → DescriptorRecord → ℕ
keys key [] = 0
keys key ((k, d) ∷ es) = bit (str_eq k key) + keys key es

abbrev pub objects : ℕ → DescriptorRecord → ℕ
objects a [] = 0
objects a ((k, d) ∷ es) = bit (d.address == a) + objects a es

pub primaries-mark_primary :
    (a : ℕ) (es : DescriptorRecord) → primaries (mark_primary (some a) es) ≡ objects a es
primaries-mark_primary a [] = refl
primaries-mark_primary a ((k, d) ∷ es) = rw (primaries-mark_primary a es) refl

pub keys-mark_primary :
    (key : String) (chosen : Option ℕ) (es : DescriptorRecord)
    → keys key (mark_primary chosen es) ≡ keys key es
keys-mark_primary key chosen [] = refl
keys-mark_primary key chosen ((k, d) ∷ es) = rw (keys-mark_primary key chosen es) refl

pub objects-mark_primary :
    (a : ℕ) (chosen : Option ℕ) (es : DescriptorRecord)
    → objects a (mark_primary chosen es) ≡ objects a es
objects-mark_primary a chosen [] = refl
objects-mark_primary a chosen ((k, d) ∷ es) = rw (objects-mark_primary a chosen es) refl

pub primaries-relabel :
    (a : ℕ) (label : String) (es : DescriptorRecord) → primaries (relabel a label es) ≡ primaries es
primaries-relabel a label [] = refl
primaries-relabel a label ((k, d) ∷ es) = ground (arith, primaries-relabel a label es)

pub keys-relabel :
    (key : String) (a : ℕ) (label : String) (es : DescriptorRecord)
    → keys key (relabel a label es) ≡ keys key es
keys-relabel key a label [] = refl
keys-relabel key a label ((k, d) ∷ es) = rw (keys-relabel key a label es) refl

pub objects-relabel :
    (b a : ℕ) (label : String) (es : DescriptorRecord)
    → objects b (relabel a label es) ≡ objects b es
objects-relabel b a label [] = refl
objects-relabel b a label ((k, d) ∷ es) = ground (arith, objects-relabel b a label es)

pub objects-delete :
    (a : ℕ) (key : String) (es : DescriptorRecord) → objects a (delete key es) ≤ objects a es
objects-delete a key [] = omega arith
objects-delete a key ((k, d) ∷ es) = ground (arith, objects-delete a key es)

pub keys-delete : (j key : String) (es : DescriptorRecord) → keys j (delete key es) ≤ keys j es
keys-delete j key [] = omega arith
keys-delete j key ((k, d) ∷ es) = ground (arith, keys-delete j key es)

-- Without an entry under the key nothing is deleted.
pub delete-absent : (key : String) (es : DescriptorRecord) → keys key es ≡ 0 → delete key es ≡ es
delete-absent key [] none_there = refl
delete-absent key ((k, d) ∷ es) none_there = ground (arith, delete-absent key es)

pub primaries-delete :
    (key : String) (d : Descriptor) (es : DescriptorRecord)
    → keys key es ≤ 1
    → get_elem? es key ≡ some d
    → bit d.primary + primaries (delete key es) ≡ primaries es
primaries-delete key d [] once found = ground arith
primaries-delete key d ((k, e) ∷ es) once found =
    ground (arith, delete-absent key es, primaries-delete key d es)

pub objects-assign :
    (a : ℕ) (key : String) (d : Descriptor) (es : DescriptorRecord)
    → objects a (assign key d es) ≤ objects a es + bit (d.address == a)
objects-assign a key d [] = omega arith
objects-assign a key d ((k, e) ∷ es) = ground (arith, objects-assign a key d es)

-- What was assigned is in the record.
pub assigned_lem :
    (key : String) (d : Descriptor) (es : DescriptorRecord)
    → 1 ≤ objects d.address (assign key d es)
assigned_lem key d [] = ground (arith, ==_iff d.address d.address)
assigned_lem key d ((k, e) ∷ es) = ground (arith, assigned_lem key d es, ==_iff d.address d.address)

keys-other :
    (j key : String) (d : Descriptor) (es : DescriptorRecord)
    → str_eq key j ≡ false
    → keys j (assign key d es) ≡ keys j es
keys-other j key d [] differs = ground arith
keys-other j key d ((k, e) ∷ es) differs = ground (arith, keys-other j key d es)

keys-same :
    (key : String) (d : Descriptor) (es : DescriptorRecord)
    → keys key es ≤ 1
    → keys key (assign key d es) ≤ 1
keys-same key d [] once = ground arith
keys-same key d ((k, e) ∷ es) once = ground (arith, keys-same key d es)

pub keys-assign :
    (j key : String) (d : Descriptor) (es : DescriptorRecord)
    → keys j es ≤ 1
    → keys j (assign key d es) ≤ 1
keys-assign j key d es once = elim (Bool-cases (str_eq key j)) [
  | inl same ↦
      subst (λ i. keys i es ≤ 1 → keys i (assign key d es) ≤ 1) ((eq_iff key j).0 same)
        (keys-same key d es) once
  | inr differs ↦ rw (keys-other j key d es differs) once
]

pub found_lem :
    (key : String) (d : Descriptor) (es : DescriptorRecord)
    → get_elem? es key ≡ some d
    → 1 ≤ objects d.address es
found_lem key d [] found = ground arith
found_lem key d ((k, e) ∷ es) found = ground (arith, found_lem key d es, ==_iff d.address d.address)

pub first_lem :
    (e : Descriptor) (es : DescriptorRecord)
    → first_descriptor es ≡ some e
    → 1 ≤ objects e.address es
first_lem e [] first = ground arith
first_lem e ((k, d) ∷ es) first = ground (arith, ==_iff e.address e.address)

pub is_empty-relabel :
    (a : ℕ) (label : String) (es : DescriptorRecord) → is_empty (relabel a label es) ≡ is_empty es
is_empty-relabel a label [] = refl
is_empty-relabel a label ((k, d) ∷ es) = refl

pub known_lem :
    (key : String) (d : Descriptor) (es : DescriptorRecord)
    → get_elem? es key ≡ some d
    → is_empty es ≡ false
known_lem key d [] known = ground arith
known_lem key d ((k, e) ∷ es) known = refl

pub heir_lem :
    (es : DescriptorRecord)
    → is_empty es ≡ false
    → (e : Descriptor) × (first_descriptor es ≡ some e)
heir_lem [] some_left = ground arith
heir_lem ((k, e) ∷ es) some_left = (e, refl)

pub keys-grow :
    (j key : String) (d : Descriptor) (es : DescriptorRecord) → keys j es ≤ keys j (assign key d es)
keys-grow j key d [] = omega arith
keys-grow j key d ((k, e) ∷ es) = ground (arith, keys-grow j key d es)
