-- ===== src/Group/Primary.antt =====
-- The workspace that is primary after another was activated or created.
use snjs.Prelude.{
  ℕ, ◌+◌, ◌≤◌, ◌≡◌, refl, String, Bool, true, false, Option, some, [], ◌∷◌, ◌==◌, map, str_eq,
  arith, ==_iff, eq_refl, sym, subst, Bool-cases, inl, inr,
}
use snjs.Group.{
  Descriptor, DescriptorRecord, Group, get_elem?, assign, mark_primary, first_primary,
  find_primary_descriptor, unload_current_and_create_new_descriptor,
  create_new_application_descriptor, create_new_primary_descriptor,
  unload_current_and_activate_descriptor, set_descriptor_as_primary, persist_descriptors,
}
use snjs.Group.Counts.{bit, objects, keys, keys-mark_primary, keys-grow, found_lem, objects-assign}
use snjs.Group.Valid.{IsCurrent, IsValid}

bit_lem : (b : Bool) → bit b ≤ 1
bit_lem true = omega arith
bit_lem false = omega arith

abbrev chosen : Descriptor → Descriptor
chosen d = record d { primary = true }

abbrev marked : ℕ → DescriptorRecord → Option Descriptor
marked a es = first_primary (map (λ e. e.1) (mark_primary (some a) es))

here_lem :
    (k key : String) (d e : Descriptor) (es : DescriptorRecord)
    → str_eq k key ≡ true
    → get_elem? ((k, e) ∷ es) key ≡ some d
    → e ≡ d
here_lem k key d e es here found = ground arith

head_lem :
    (k : String) (d : Descriptor) (es : DescriptorRecord)
    → marked d.address ((k, d) ∷ es) ≡ some (chosen d)
head_lem k d es = rw ((==_iff d.address d.address).1 refl) refl

later_lem :
    (k key : String) (d e : Descriptor) (es : DescriptorRecord)
    → str_eq k key ≡ false
    → get_elem? ((k, e) ∷ es) key ≡ some d
    → get_elem? es key ≡ some d
later_lem k key d e es later found = ground arith

other_lem :
    (key : String) (d e : Descriptor) (es : DescriptorRecord)
    → get_elem? es key ≡ some d
    → bit (e.address == d.address) + objects d.address es ≤ 1
    → (e.address == d.address) ≡ false
other_lem key d e es found once = ground (arith, found_lem key d es found)

marked_lem :
    (key : String) (d : Descriptor) (es : DescriptorRecord)
    → get_elem? es key ≡ some d
    → objects d.address es ≤ 1
    → marked d.address es ≡ some (chosen d)
marked_lem key d [] found once = ground arith
marked_lem key d ((k, e) ∷ es) found once = elim (Bool-cases (str_eq k key)) [
  | inl here ↦
      subst (λ x. marked d.address ((k, x) ∷ es) ≡ some (chosen d))
        (sym (here_lem k key d e es here found)) (head_lem k d es)
  | inr later ↦
      let found' = later_lem k key d e es later found in
      rw (other_lem key d e es found' once) (marked_lem key d es found' (omega (arith, once)))
]

assigned-found :
    (key : String) (d : Descriptor) (es : DescriptorRecord)
    → get_elem? (assign key d es) key ≡ some d
assigned-found key d [] = rw (eq_refl key) refl
assigned-found key d ((k, e) ∷ es) = elim (Bool-cases (str_eq k key)) [
  | inl here ↦ rw (here, here) refl
  | inr later ↦ rw (later, later) (assigned-found key d es)
]

-- In a record in which no object stands twice, activating a descriptor of it makes exactly this
-- descriptor the one that is found as primary, and changes nothing else of it.
pub primary-activate :
    (workspace : ℕ → String) (d : Descriptor) (g : Group)
    → IsCurrent d g
    → ((a : ℕ) → objects a g.descriptor_record ≤ 1)
    → find_primary_descriptor (unload_current_and_activate_descriptor workspace d g)
      ≡ some (record d { primary = true })
unfolding unload_current_and_activate_descriptor set_descriptor_as_primary persist_descriptors
primary-activate workspace d g known once =
    marked_lem d.identifier d g.descriptor_record known (once d.address)

-- In a valid group, creating a workspace makes it primary: the descriptor that is found has the
-- identifier that was generated and the label that was given, or a numbered one where the label is
-- missing or empty. No key leaves the record.
pub primary-create :
    (workspace : ℕ → String) (uuid : String) (label : Option String) (g : Group)
    → IsValid g
    → (let g' = unload_current_and_create_new_descriptor workspace uuid label g in
        let new = (create_new_application_descriptor workspace uuid label g).0 in
        (find_primary_descriptor g' ≡ some (record new { primary = true }))
        × ((key : String) → keys key g.descriptor_record ≤ keys key g'.descriptor_record))
unfolding unload_current_and_create_new_descriptor create_new_primary_descriptor
    set_descriptor_as_primary persist_descriptors create_new_application_descriptor
primary-create workspace uuid label g v =
    let new = (create_new_application_descriptor workspace uuid label g).0 in
    (
      marked_lem uuid new (assign uuid new g.descriptor_record)
          (assigned-found uuid new g.descriptor_record)
          (omega (
            arith,
            objects-assign new.address uuid new g.descriptor_record,
            v.sound.fresh new.address (omega arith),
            bit_lem (new.address == new.address),
          )),
      λ key.
          rw (keys-mark_primary key (some new.address) (assign uuid new g.descriptor_record))
            (keys-grow key uuid new g.descriptor_record),
    )
