-- ===== src/Group/Start.antt =====
-- The start of the group succeeds and leaves it valid.
use snjs.Prelude.{
  ℕ, suc, ◌+◌, ◌≤◌, ◌<◌, ◌≡◌, refl, String, true, false, Option, none, some, [], ◌∷◌, ◌++◌, length,
  map, arith, ==_iff, is_empty, ok, ◌∙◌, Option-cases, inl, inr,
}
use snjs.Group.{
  Descriptor, DescriptorRecord, Group, primary_application_set, find_primary_descriptor,
  first_descriptor, persist_descriptors, set_descriptor_as_primary, mark_primary, first_primary,
}
use snjs.Group.Counts.{primaries, keys, objects, first_lem}
use snjs.Group.Valid.{IsValid, mark_primary-IsSound}
use snjs.Group.Lifecycle.{
  readdress, create_new_descriptor_record, load, ensure_primary, load_or_create, initialize,
}

keys-readdress :
    (key : String) (n : ℕ) (es : DescriptorRecord) → keys key (readdress n es) ≡ keys key es
keys-readdress key n [] = refl
keys-readdress key n ((k, d) ∷ es) = rw (keys-readdress key (suc n) es) refl

primaries-readdress : (n : ℕ) (es : DescriptorRecord) → primaries (readdress n es) ≡ primaries es
primaries-readdress n [] = refl
primaries-readdress n ((k, d) ∷ es) = rw (primaries-readdress (suc n) es) refl

objects-below : (a n : ℕ) (es : DescriptorRecord) → a < n → objects a (readdress n es) ≡ 0
objects-below a n [] below = refl
objects-below a n ((k, d) ∷ es) below = ground (arith, objects-below a (suc n) es)

objects-above :
    (a n : ℕ) (es : DescriptorRecord) → n + length es ≤ a → objects a (readdress n es) ≡ 0
objects-above a n [] above = refl
objects-above a n ((k, d) ∷ es) above = ground (arith, objects-above a (suc n) es)

objects-readdress : (a n : ℕ) (es : DescriptorRecord) → objects a (readdress n es) ≤ 1
objects-readdress a n [] = omega arith
objects-readdress a n ((k, d) ∷ es) =
    ground (arith, ==_iff n a, objects-below a (suc n) es, objects-readdress a (suc n) es)

-- A record of which some descriptor is found as primary, and one of which none is.
some_primary :
    (d : Descriptor) (es : DescriptorRecord)
    → first_primary (map (λ e. e.1) es) ≡ some d
    → (1 ≤ primaries es) × (d.primary ≡ true)
some_primary d [] found = ground arith
some_primary d ((k, e) ∷ es) found = ground (arith, some_primary d es)

-- A record as it is loaded: sound, but for a primary descriptor.
record IsLoaded (g : Group) : Type 0 where
  some_there : is_empty g.descriptor_record ≡ false
  primary : primaries g.descriptor_record ≤ 1
  one_key : (key : String) → keys key g.descriptor_record ≤ 1
  one_object : (a : ℕ) → objects a g.descriptor_record ≤ 1
  fresh : (a : ℕ) → g.next_address ≤ a → objects a g.descriptor_record ≡ 0
  stored : g.stored ≡ some g.descriptor_record

-- What the group has after a primary descriptor is ensured.
abbrev Ensured : Group → Type 0
Ensured g =
    (d : Descriptor) × (g' : Group) × (ensure_primary g ≡ (some d, g'))
    × IsValid g'
    × (find_primary_descriptor g' ≡ some d)

headed_lem :
    (k : String) (d : Descriptor) (es : DescriptorRecord)
    → first_primary (map (λ e. e.1) (mark_primary (some d.address) ((k, d) ∷ es)))
      ≡ some (record d { primary = true })
headed_lem k d es = rw ((==_iff d.address d.address).1 refl) refl

first_known :
    (es : DescriptorRecord)
    → is_empty es ≡ false
    → (d : Descriptor) × (first_descriptor es ≡ some d)
      × (first_primary (map (λ e. e.1) (mark_primary (some d.address) es))
          ≡ some (record d { primary = true }))
first_known [] there = ground arith
first_known ((k, d) ∷ es) there = (d, refl, headed_lem k d es)

found-Ensured :
    (g : Group) (d : Descriptor) → IsLoaded g → find_primary_descriptor g ≡ some d → Ensured g
unfolding ensure_primary
found-Ensured g d l found = (
  d,
  g,
  rw (ensure_primary, found) refl,
  record {
    sound = record {
      one_primary = λ _. omega (arith, l.primary, (some_primary d g.descriptor_record found).0);
      one_key = l.one_key;
      one_object = l.one_object;
      fresh = l.fresh;
    };
    stored = l.stored;
  },
  found,
)

missing-Ensured : (g : Group) → IsLoaded g → find_primary_descriptor g ≡ none → Ensured g
unfolding ensure_primary set_descriptor_as_primary persist_descriptors
missing-Ensured g l missing =
    let (e, first, marked) = first_known g.descriptor_record l.some_there in
    (
      record e { primary = true },
      persist_descriptors (set_descriptor_as_primary (some e) g),
      rw (ensure_primary, missing) (rw first refl),
      record {
        sound =
            mark_primary-IsSound e.address g.descriptor_record g.next_address
              (first_lem e g.descriptor_record first) l.one_key l.one_object l.fresh;
        stored = refl;
      },
      marked,
    )

ensure_primary-Ensured : (g : Group) → IsLoaded g → Ensured g
ensure_primary-Ensured g l = elim (Option-cases (find_primary_descriptor g)) [
  | inl missing ↦ missing-Ensured g l missing
  | inr found ↦ found-Ensured g found.0 l found.1
]

-- What a device may hold for the group to start: a record with some descriptor in it, at most one
-- of them primary and no key twice.
pub record IsStartable (stored : DescriptorRecord) : Type 0 where
  pub some_there : is_empty stored ≡ false
  pub primary : primaries stored ≤ 1
  pub one_key : (key : String) → keys key stored ≤ 1

is_empty-readdress : (n : ℕ) (es : DescriptorRecord) → is_empty (readdress n es) ≡ is_empty es
is_empty-readdress n [] = refl
is_empty-readdress n ((k, d) ∷ es) = refl

load-IsLoaded : (es : DescriptorRecord) (g : Group) → IsStartable es → IsLoaded (load es g)
unfolding load
load-IsLoaded es g s = record {
  some_there = is_empty-readdress g.next_address es ∙ s.some_there;
  primary = rw (primaries-readdress g.next_address es) s.primary;
  one_key = λ key. rw (keys-readdress key g.next_address es) (s.one_key key);
  one_object = λ a. objects-readdress a g.next_address es;
  fresh = λ a later. objects-above a g.next_address es later;
  stored = refl;
}

created-IsLoaded : (g : Group) → IsLoaded (create_new_descriptor_record g)
unfolding create_new_descriptor_record persist_descriptors
created-IsLoaded g = record {
  some_there = refl;
  primary = omega arith;
  one_key = λ key. ground arith;
  one_object = λ a. ground arith;
  fresh = λ a later. ground arith;
  stored = refl;
}

-- What the group has after it started.
abbrev pub Started : (Option Descriptor → String) → Group → Type 0
Started application_creator g =
    (d : Descriptor) × (g' : Group) × (initialize application_creator false g ≡ ok g')
    × IsValid g'
    × (find_primary_descriptor g' ≡ some d)
    × (g'.primary_application ≡ some (application_creator (some d)))

abbrev opened : (Option Descriptor → String) → Descriptor → Group → Group
opened application_creator d g = record g {
  primary_application = some (application_creator (some d));
  events = g.events ++ primary_application_set ∷ [];
}

load_or_create-IsLoaded :
    (g : Group)
    → ((es : DescriptorRecord) → g.stored ≡ some es → IsStartable es)
    → IsLoaded (load_or_create g)
unfolding load_or_create create_new_descriptor_record load persist_descriptors
load_or_create-IsLoaded g startable = elim (Option-cases g.stored) [
  | inl nothing ↦ rw (load_or_create, nothing) (created-IsLoaded g)
  | inr something ↦
      let (es, there) = something in
      rw (load_or_create, there) (load-IsLoaded es g (startable es there))
]

-- On a device that is not destroyed and holds nothing, or a record of some descriptors with no key
-- twice and at most one of them primary, the group starts: it is valid then, some descriptor is
-- primary, and the application is made from this descriptor.
pub initialize-IsValid :
    (application_creator : Option Descriptor → String) (g : Group)
    → ((es : DescriptorRecord) → g.stored ≡ some es → IsStartable es)
    → Started application_creator g
unfolding initialize
initialize-IsValid application_creator g startable =
    let (d, g', chosen, v, found) =
      ensure_primary-Ensured (load_or_create g) (load_or_create-IsLoaded g startable) in
    (
      d,
      opened application_creator d g',
      rw (initialize, chosen) refl,
      record { sound = v.sound; stored = v.stored },
      found,
      refl,
    )
