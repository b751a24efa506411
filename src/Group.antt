-- ===== src/Group.antt =====
-- The workspaces of a device and the one that is primary (packages/snjs/lib/ApplicationGroup/
-- ApplicationGroup.ts). The descriptor record is a list of entries in the order of its keys; a
-- descriptor carries the address of its object, which `===` compares. The device is the record
-- that it stores; the application is known by its identifier.
pub mod Counts
pub mod Valid
pub mod Primary
pub mod Lifecycle
pub mod Start
pub mod Ending
mod Examples
use snjs.Prelude.{
  ℕ, suc, ◌+◌, String, Bool, true, false, not, ◌&&◌, Option, none, some, List, [], ◌∷◌, ◌++◌, map,
  length, ltb, ◌==◌, str_eq, is_empty, filter, or_else, if◌then◌else◌,
}

-- ApplicationDescriptor
pub record Descriptor : Type 0 where
  pub address : ℕ
  pub identifier : String
  pub label : String
  pub primary : Bool

-- DescriptorRecord
abbrev pub DescriptorRecord : Type 0
DescriptorRecord = List (String × Descriptor)

-- `record[key]`, the assignment to it and its deletion
abbrev pub get_elem? : DescriptorRecord → String → Option Descriptor
get_elem? [] key = none
get_elem? ((k, d) ∷ es) key = if str_eq k key then some d else get_elem? es key

abbrev pub assign : String → Descriptor → DescriptorRecord → DescriptorRecord
assign key d [] = (key, d) ∷ []
assign key d ((k, e) ∷ es) = if str_eq k key then (k, d) ∷ es else (k, e) ∷ assign key d es

abbrev pub delete : String → DescriptorRecord → DescriptorRecord
delete key [] = []
delete key ((k, d) ∷ es) = if str_eq k key then delete key es else (k, d) ∷ delete key es

pub data DeinitSource : Type 0 where
  sign_out sign_out_all switch_workspace : DeinitSource

pub data GroupEvent : Type 0 where
  primary_application_set device_will_restart descriptors_data_changed : GroupEvent

pub record Group : Type 0 where
  pub descriptor_record : DescriptorRecord
  pub primary_application : Option String
  pub stored : Option DescriptorRecord
  pub next_address : ℕ
  pub events : List GroupEvent
  -- the calls of `deinit` of the primary application
  pub deinits : List (String × DeinitSource)
  pub is_deinited : Bool
  -- the identifiers that `clearAllDataFromDevice` got, and the resets: whether each was a hard one
  pub cleared : List (List String)
  pub resets : List Bool

abbrev pub get_descriptors : Group → List Descriptor
get_descriptors g = map (λ e. e.1) g.descriptor_record

abbrev pub first_primary : List Descriptor → Option Descriptor
first_primary [] = none
first_primary (d ∷ ds) = if d.primary then some d else first_primary ds

abbrev pub find_primary_descriptor : Group → Option Descriptor
find_primary_descriptor g = first_primary (get_descriptors g)

-- The loop of `setDescriptorAsPrimary`; `none` is undefined, which is no descriptor.
abbrev pub mark_primary : Option ℕ → DescriptorRecord → DescriptorRecord
mark_primary chosen [] = []
mark_primary chosen ((k, d) ∷ es) =
    (k, record d { primary = elim chosen [ none ↦ false | some a ↦ d.address == a ] })
    ∷ mark_primary chosen es

unfoldable pub set_descriptor_as_primary : Option Descriptor → Group → Group
set_descriptor_as_primary d g = record g {
  descriptor_record =
      mark_primary (elim d [ none ↦ none | some p ↦ some p.address ]) g.descriptor_record;
}

unfoldable pub persist_descriptors : Group → Group
persist_descriptors g = record g {
  stored = some g.descriptor_record;
  events = g.events ++ descriptors_data_changed ∷ [];
}

-- The label of an object in the record.
abbrev pub relabel : ℕ → String → DescriptorRecord → DescriptorRecord
relabel a label [] = []
relabel a label ((k, d) ∷ es) =
    (k, if d.address == a then record d { label = label } else d) ∷ relabel a label es

unfoldable pub rename_descriptor : Descriptor → String → Group → Group
unfolding persist_descriptors
rename_descriptor d label g =
    persist_descriptors
      (record g { descriptor_record = relabel d.address label g.descriptor_record })

abbrev pub first_descriptor : DescriptorRecord → Option Descriptor
first_descriptor [] = none
first_descriptor ((k, d) ∷ es) = some d

unfoldable pub remove_descriptor : Descriptor → Group → Group
unfolding set_descriptor_as_primary persist_descriptors
remove_descriptor d g =
    let g' : Group = record g { descriptor_record = delete d.identifier g.descriptor_record } in
    persist_descriptors (
      if d.primary && not (is_empty g'.descriptor_record)
      then set_descriptor_as_primary (first_descriptor g'.descriptor_record) g'
      else g')

unfoldable pub remove_all_descriptors : Group → Group
unfolding persist_descriptors
remove_all_descriptors g = persist_descriptors (record g { descriptor_record = [] })

module _ (workspace : ℕ → String) where
  -- `label || ...`; `workspace` makes the text from the number.
  unfoldable pub create_new_application_descriptor :
      String → Option String → Group → Descriptor × Group
  create_new_application_descriptor uuid label g =
      let index = length (get_descriptors g) + 1 in
      (
        record {
          address = g.next_address;
          identifier = uuid;
          label = elim label [
            | none ↦ workspace index
            | some l ↦ if str_eq l "" then workspace index else l
          ];
          primary = false;
        },
        record g { next_address = suc g.next_address },
      )

  unfoldable pub create_new_primary_descriptor : String → Option String → Group → Group
  unfolding create_new_application_descriptor set_descriptor_as_primary persist_descriptors
  create_new_primary_descriptor uuid label g =
      let (d, g') = create_new_application_descriptor uuid label g in
      persist_descriptors (
        set_descriptor_as_primary (some d)
          (record g' { descriptor_record = assign d.identifier d g'.descriptor_record }))

  abbrev deinit_primary : Group → Group
  deinit_primary g = record g {
    deinits = elim g.primary_application [
      | none ↦ g.deinits
      | some app ↦ g.deinits ++ (app, switch_workspace) ∷ []
    ];
  }

  unfoldable pub unload_current_and_create_new_descriptor : String → Option String → Group → Group
  unfolding create_new_primary_descriptor
  unload_current_and_create_new_descriptor uuid label g =
      deinit_primary (create_new_primary_descriptor uuid label g)

  unfoldable pub unload_current_and_activate_descriptor : Descriptor → Group → Group
  unfolding set_descriptor_as_primary persist_descriptors
  unload_current_and_activate_descriptor d g =
      deinit_primary (persist_descriptors (set_descriptor_as_primary (some d) g))
