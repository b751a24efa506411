-- ===== src/Group/Lifecycle.antt =====
-- The start of the group (`initialize`) and what follows when an application ends
-- (`onApplicationDeinit`). Loading makes new objects, which get the next addresses; those in what
-- is stored mean nothing. Events that the code sends after an await are logged at once.
use snjs.Prelude.{
  ◌>>=◌, ◌&&◌, ◌||◌, false, is_empty, map, str_eq, ℕ, suc, ◌+◌, String, Bool, true, Option, none,
  some, [], ◌∷◌, ◌++◌, length, if◌then◌else◌, Result, ok, throw,
}
use snjs.Group.{
  DeinitSource, sign_out, sign_out_all, device_will_restart, get_elem?, get_descriptors,
  remove_descriptor, Descriptor, DescriptorRecord, Group, primary_application_set,
  find_primary_descriptor, first_descriptor, persist_descriptors, set_descriptor_as_primary,
}

abbrev pub readdress : ℕ → DescriptorRecord → DescriptorRecord
readdress n [] = []
readdress n ((k, d) ∷ es) = (k, record d { address = n }) ∷ readdress (suc n) es

-- `createNewDescriptorRecord`
unfoldable pub create_new_descriptor_record : Group → Group
unfolding persist_descriptors
create_new_descriptor_record g = persist_descriptors (record g {
  descriptor_record =
      (
        "standardnotes",
        record {
          address = g.next_address;
          identifier = "standardnotes";
          label = "Main Workspace";
          primary = true;
        },
      )
      ∷ [];
  next_address = suc g.next_address;
})

unfoldable pub load : DescriptorRecord → Group → Group
load stored g =
    let es = readdress g.next_address stored in
    record g {
      descriptor_record = es;
      stored = some es;
      next_address = g.next_address + length stored;
    }

unfoldable pub ensure_primary : Group → Option Descriptor × Group
unfolding persist_descriptors set_descriptor_as_primary
ensure_primary g = elim (find_primary_descriptor g) [
  | some d ↦ (some d, g)
  | none ↦
      let first = first_descriptor g.descriptor_record in
      (
        elim first [ none ↦ none | some d ↦ some (record d { primary = true }) ],
        persist_descriptors (set_descriptor_as_primary first g),
      )
]

unfoldable pub load_or_create : Group → Group
unfolding create_new_descriptor_record load
load_or_create g = elim g.stored [ none ↦ create_new_descriptor_record g | some es ↦ load es g ]

-- The creator of applications is a parameter; it is given the descriptor, or undefined.
unfoldable pub initialize : (Option Descriptor → String) → Bool → Group → Result Group
unfolding load_or_create ensure_primary
initialize application_creator is_device_destroyed g =
    if is_device_destroyed
    then throw "Attempting to initialize new application while device is destroyed."
    else (let (descriptor, ready) = ensure_primary (load_or_create g) in
        ok (record ready {
          primary_application = some (application_creator descriptor);
          events = ready.events ++ primary_application_set ∷ [];
        }))

abbrev pub is_app : String → Option String → Bool
is_app app none = false
is_app app (some p) = str_eq p app

abbrev pub is_sign_out_all : DeinitSource → Bool
is_sign_out_all sign_out_all = true
is_sign_out_all _ = false

-- `removeDescriptor(descriptorForApplication(application))` after a sign-out
unfoldable pub remove_signed_out : DeinitSource → String → Group → Result Group
unfolding remove_descriptor
remove_signed_out sign_out app g = elim (get_elem? g.descriptor_record app) [
  | none ↦ throw "identifier of undefined"
  | some d ↦ ok (remove_descriptor d g)
]
remove_signed_out _ app g = ok g

abbrev clear_data : Group → Group
clear_data g = record g {
  cleared = g.cleared ++ map (λ d. d.identifier) (get_descriptors g) ∷ [];
  descriptor_record = [];
}

abbrev restart : Bool → Group → Group
restart is_hard g = record g {
  events = g.events ++ device_will_restart ∷ [];
  primary_application = none;
  is_deinited = true;
  resets = g.resets ++ is_hard ∷ [];
}

-- The part of `onApplicationDeinit` after the removal; `clears` is its test.
unfoldable pub finish : Bool → Bool → Bool → Group → Group
finish kills_application is_hard clears g =
    let g' = if clears then clear_data g else g in
    if clears && kills_application then g' else restart is_hard g'

-- `onApplicationDeinit`; the device says whether clearing its data kills the application.
unfoldable pub on_application_deinit : Bool → Bool → DeinitSource → String → Group → Result Group
unfolding remove_signed_out finish
on_application_deinit kills_application is_hard source app g =
    let left : Group = record g {
      primary_application =
          if is_app app g.primary_application then none else g.primary_application;
    } in
    do
      g' ← remove_signed_out source app left
      ok (
          finish kills_application is_hard (is_empty g'.descriptor_record || is_sign_out_all source)
            g')
