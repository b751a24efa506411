-- ===== src/Group/Valid.antt =====
-- Whatever calls are made on the workspaces, exactly one of them is primary as long as there is any.
use snjs.Prelude.{
  ℕ, suc, ◌≤◌, ◌≡◌, refl, String, false, not, ◌&&◌, Option, some, arith, ==_iff, is_empty,
  Bool-cases, inl, inr,
}
use snjs.Group.{
  Descriptor, DescriptorRecord, Group, get_elem?, assign, delete, mark_primary, relabel,
  first_descriptor, rename_descriptor, remove_descriptor, remove_all_descriptors,
  unload_current_and_create_new_descriptor, unload_current_and_activate_descriptor,
  set_descriptor_as_primary, persist_descriptors, create_new_application_descriptor,
  create_new_primary_descriptor,
}
use snjs.Group.Counts.{
  primaries, keys, objects, primaries-mark_primary, keys-mark_primary, objects-mark_primary,
  primaries-relabel, keys-relabel, objects-relabel, objects-delete, keys-delete, primaries-delete,
  objects-assign, assigned_lem, keys-assign, found_lem, first_lem, heir_lem, is_empty-relabel,
  known_lem,
}

pub record IsSound (es : DescriptorRecord) (next : ℕ) : Type 0 where
  pub one_primary : is_empty es ≡ false → primaries es ≡ 1
  pub one_key : (key : String) → keys key es ≤ 1
  pub one_object : (a : ℕ) → objects a es ≤ 1
  pub fresh : (a : ℕ) → next ≤ a → objects a es ≡ 0

-- The record is sound, and is what the device stores.
pub record IsValid (g : Group) : Type 0 where
  pub sound : IsSound g.descriptor_record g.next_address
  pub stored : g.stored ≡ some g.descriptor_record

-- The public calls that change the record and store it.
pub data Call : Type 0 where
  rename : Descriptor → String → Call
  remove : Descriptor → Call
  remove_all : Call
  create : (uuid : String) → Option String → Call
  activate : Descriptor → Call

unfoldable pub call : (ℕ → String) → Call → Group → Group
unfolding rename_descriptor remove_descriptor remove_all_descriptors
    unload_current_and_create_new_descriptor unload_current_and_activate_descriptor
call workspace (rename d label) g = rename_descriptor d label g
call workspace (remove d) g = remove_descriptor d g
call workspace remove_all g = remove_all_descriptors g
call workspace (create uuid label) g =
    unload_current_and_create_new_descriptor workspace uuid label g
call workspace (activate d) g = unload_current_and_activate_descriptor workspace d g

-- The descriptor that is given is one of the record, as it is there.
abbrev pub IsCurrent : Descriptor → Group → Type 0
IsCurrent d g = get_elem? g.descriptor_record d.identifier ≡ some d

abbrev pub IsKnown : Call → Group → Type 0
IsKnown (rename d label) g = IsCurrent d g
IsKnown (remove d) g = IsCurrent d g
IsKnown remove_all g = 0 ≤ 0
IsKnown (create uuid label) g = 0 ≤ 0
IsKnown (activate d) g = IsCurrent d g

pub mark_primary-IsSound :
    (a : ℕ) (es : DescriptorRecord) (next : ℕ)
    → 1 ≤ objects a es
    → ((key : String) → keys key es ≤ 1)
    → ((b : ℕ) → objects b es ≤ 1)
    → ((b : ℕ) → next ≤ b → objects b es ≡ 0)
    → IsSound (mark_primary (some a) es) next
mark_primary-IsSound a es next there one_key one_object fresh = record {
  one_primary = λ _. omega (arith, primaries-mark_primary a es, one_object a, there);
  one_key = λ key. rw (keys-mark_primary key (some a) es) (one_key key);
  one_object = λ b. rw (objects-mark_primary b (some a) es) (one_object b);
  fresh = λ b later. rw (objects-mark_primary b (some a) es) (fresh b later);
}

relabel-IsSound :
    (a : ℕ) (label : String) (es : DescriptorRecord) (next : ℕ)
    → IsSound es next
    → IsSound (relabel a label es) next
relabel-IsSound a label es next s = record {
  one_primary = rw (is_empty-relabel a label es, primaries-relabel a label es) s.one_primary;
  one_key = λ key. rw (keys-relabel key a label es) (s.one_key key);
  one_object = λ b. rw (objects-relabel b a label es) (s.one_object b);
  fresh = λ b later. rw (objects-relabel b a label es) (s.fresh b later);
}

-- An object that takes the next address is added.
assign-IsSound :
    (key : String) (d : Descriptor) (es : DescriptorRecord)
    → IsSound es d.address
    → IsSound (mark_primary (some d.address) (assign key d es)) (suc d.address)
assign-IsSound key d es s =
    mark_primary-IsSound d.address (assign key d es) (suc d.address) (assigned_lem key d es)
      (λ j. keys-assign j key d es (s.one_key j))
      (λ b.
        ground (arith, objects-assign b key d es, s.one_object b, s.fresh b, ==_iff d.address b))
      (λ b later. ground (arith, objects-assign b key d es, s.fresh b, ==_iff d.address b))

delete-IsSound :
    (d : Descriptor) (es : DescriptorRecord) (next : ℕ)
    → get_elem? es d.identifier ≡ some d
    → IsSound es next
    → (d.primary && not (is_empty (delete d.identifier es))) ≡ false
    → IsSound (delete d.identifier es) next
delete-IsSound d es next known s same = record {
  one_primary = λ some_left. ground (
    arith,
    primaries-delete d.identifier d es (s.one_key d.identifier) known,
    s.one_primary (known_lem d.identifier d es known),
  );
  one_key = λ key. omega (arith, keys-delete key d.identifier es, s.one_key key);
  one_object = λ a. omega (arith, objects-delete a d.identifier es, s.one_object a);
  fresh = λ a later. omega (arith, objects-delete a d.identifier es, s.fresh a later);
}

heir-IsSound :
    (key : String) (e : Descriptor) (es : DescriptorRecord) (next : ℕ)
    → IsSound es next
    → first_descriptor (delete key es) ≡ some e
    → IsSound (mark_primary (some e.address) (delete key es)) next
heir-IsSound key e es next s first =
    mark_primary-IsSound e.address (delete key es) next (first_lem e (delete key es) first)
      (λ j. omega (arith, keys-delete j key es, s.one_key j))
      (λ a. omega (arith, objects-delete a key es, s.one_object a))
      (λ a later. omega (arith, objects-delete a key es, s.fresh a later))

pub remove-IsSound :
    (d : Descriptor) (g : Group)
    → IsCurrent d g
    → IsSound g.descriptor_record g.next_address
    → IsValid (remove_descriptor d g)
unfolding remove_descriptor set_descriptor_as_primary persist_descriptors
remove-IsSound d g known s =
    elim (Bool-cases (d.primary && not (is_empty (delete d.identifier g.descriptor_record)))) [
      | inl heir ↦
          let rest = delete d.identifier g.descriptor_record in
          let (e, first) = heir_lem rest (ground arith) in
          rw heir (record {
            sound =
                rw first (heir-IsSound d.identifier e g.descriptor_record g.next_address s first);
            stored = refl;
          })
      | inr same ↦ rw same (record {
        sound = delete-IsSound d g.descriptor_record g.next_address known s same;
        stored = refl;
      })
    ]

call-IsValid :
    (workspace : ℕ → String) (c : Call) (g : Group)
    → IsKnown c g
    → IsValid g
    → IsValid (call workspace c g)
unfolding call rename_descriptor remove_all_descriptors unload_current_and_create_new_descriptor
    create_new_primary_descriptor create_new_application_descriptor set_descriptor_as_primary
    persist_descriptors unload_current_and_activate_descriptor
call-IsValid workspace (rename d label) g known v = record {
  sound = relabel-IsSound d.address label g.descriptor_record g.next_address v.sound;
  stored = refl;
}
call-IsValid workspace (remove d) g known v = remove-IsSound d g known v.sound
call-IsValid workspace remove_all g known v = record {
  sound = record {
    one_primary = λ h. ground arith;
    one_key = λ k. omega arith;
    one_object = λ a. omega arith;
    fresh = λ a later. refl;
  };
  stored = refl;
}
call-IsValid workspace (create uuid label) g known v = record {
  sound =
      assign-IsSound uuid (create_new_application_descriptor workspace uuid label g).0
        g.descriptor_record v.sound;
  stored = refl;
}
call-IsValid workspace (activate d) g known v = record {
  sound =
      mark_primary-IsSound d.address g.descriptor_record g.next_address
        (found_lem d.identifier d g.descriptor_record known) v.sound.one_key v.sound.one_object
        v.sound.fresh;
  stored = refl;
}

-- The groups that calls lead to.
pub data Reach (workspace : ℕ → String) (g : Group) : Group → Type 0 where
  start : Reach workspace g g
  next :
      (c : Call) (g' : Group)
      → Reach workspace g g'
      → IsKnown c g'
      → Reach workspace g (call workspace c g')

-- From a valid group, any sequence of calls that rename, remove, create or activate workspaces, each
-- on a descriptor that is in the record at that moment, leads to a valid group: exactly one
-- descriptor is primary as long as there is any, no key and no object stands in the record twice,
-- and the device stores the record as it is.
pub calls-IsValid :
    (workspace : ℕ → String) (g g' : Group) → IsValid g → Reach workspace g g' → IsValid g'
calls-IsValid workspace g g' v start = v
calls-IsValid workspace g g' v (next c before r known) =
    call-IsValid workspace c before known (calls-IsValid workspace g before v r)
