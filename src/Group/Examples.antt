-- ===== src/Group/Examples.antt =====
-- Two workspaces of a device.
use snjs.Prelude.{
  Option, none, ℕ, ◌≡◌, ◌≤◌, refl, String, true, false, some, [], ◌∷◌, str_eq, arith, Bool-cases,
  inl, inr, subst, eq_iff,
}
use mathlib.Core.Option.{some-injective}
use snjs.Group.{Descriptor, DescriptorRecord, Group}
use snjs.Group.Start.{Started, IsStartable, initialize-IsValid}
use snjs.Group.Counts.{keys, objects}
use snjs.Group.Valid.{IsValid, Call, Reach, call, calls-IsValid}

abbrev home : Descriptor
home = record { address = 0; identifier = "standardnotes"; label = "Main"; primary = true }

abbrev work : Descriptor
work = record { address = 1; identifier = "w"; label = "Work"; primary = false }

abbrev two : DescriptorRecord
two = ("standardnotes", home) ∷ ("w", work) ∷ []

abbrev group : Group
group = record {
  descriptor_record = two;
  primary_application = some "standardnotes";
  stored = some two;
  next_address = 2;
  events = [];
  deinits = [];
  is_deinited = false;
  cleared = [];
  resets = [];
}

abbrev workspace : ℕ → String
workspace n = "Workspace"

one_object : (a : ℕ) → objects a two ≤ 1
one_object a = ground arith

one_key : (key : String) → keys key two ≤ 1
one_key key = elim (Bool-cases (str_eq "standardnotes" key)) [
  | inl same ↦ subst (λ k. keys k two ≤ 1) ((eq_iff "standardnotes" key).0 same) (omega arith)
  | inr differs ↦ ground arith
]

group-IsValid : IsValid group
group-IsValid = record {
  sound = record {
    one_primary = λ h. refl;
    one_key = one_key;
    one_object = one_object;
    fresh = λ a later. ground arith;
  };
  stored = refl;
}

calls-IsValid_example : IsValid (call workspace (Call.remove home) group)
calls-IsValid_example =
    calls-IsValid workspace group (call workspace (Call.remove home) group) group-IsValid
      (Reach.next (Call.remove home) group Reach.start refl)

-- What an older version may leave: no workspace is primary.
abbrev left_over : Group
left_over = record group { stored = some (("w", work) ∷ []) }

abbrev application_creator : Option Descriptor → String
application_creator none = ""
application_creator (some d) = d.identifier

left_over-IsStartable : (es : DescriptorRecord) → left_over.stored ≡ some es → IsStartable es
left_over-IsStartable es there =
    subst IsStartable (some-injective _ _ there)
      (record { some_there = refl; primary = omega arith; one_key = λ key. ground arith })

initialize-IsValid_example : Started application_creator left_over
initialize-IsValid_example = initialize-IsValid application_creator left_over left_over-IsStartable
