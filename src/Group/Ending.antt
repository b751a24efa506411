-- ===== src/Group/Ending.antt =====
-- What is left of the workspaces after an application ends.
use snjs.Prelude.{
  ◌≡◌, String, Bool, true, false, none, [], ◌∷◌, ◌&&◌, ◌++◌, if◌then◌else◌, is_empty,
}
use snjs.Group.{Group, delete, descriptors_data_changed, device_will_restart}
use snjs.Group.Counts.{keys}
use snjs.Group.Valid.{IsSound}
use snjs.Group.Lifecycle.{is_app}

abbrev left_by : String → Group → Group
left_by app g = record g {
  primary_application = if is_app app g.primary_application then none else g.primary_application;
}

-- No other descriptor is in the record.
abbrev pub is_last : String → Group → Bool
is_last key g = is_empty (delete key g.descriptor_record)

-- What the removal of a descriptor leaves and sends.
record IsRemoved (key : String) (g r : Group) : Type 0 where
  last : is_empty r.descriptor_record ≡ is_last key g
  events : r.events ≡ g.events ++ descriptors_data_changed ∷ []
  resets : r.resets ≡ g.resets
  cleared : r.cleared ≡ g.cleared
  deinited : r.is_deinited ≡ g.is_deinited

-- The state `g'` after the application of a descriptor of `g` ended.
pub record IsEnded (kills_application is_hard : Bool) (key : String) (g g' : Group) : Type 0 where
  pub sound : IsSound g'.descriptor_record g'.next_address
  pub gone : keys key g'.descriptor_record ≡ 0
  -- the device clears its data just where no other workspace is left
  pub cleared : is_last key g ≡ true → g'.cleared ≡ g.cleared ++ [] ∷ []
  pub kept : is_last key g ≡ false → g'.cleared ≡ g.cleared
  pub killed :
      (is_last key g && kills_application) ≡ true
      → (g'.events ≡ g.events ++ descriptors_data_changed ∷ [])
        × (g'.resets ≡ g.resets)
        × (g'.is_deinited ≡ g.is_deinited)
  pub restarted :
      (is_last key g && kills_application) ≡ false
      → (g'.events ≡ (g.events ++ descriptors_data_changed ∷ []) ++ device_will_restart ∷ [])
        × (g'.resets ≡ g.resets ++ is_hard ∷ [])
        × (g'.is_deinited ≡ true)
        × (g'.primary_application ≡ none)
