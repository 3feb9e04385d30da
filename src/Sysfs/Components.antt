-- ===== src/Sysfs/Components.antt =====
-- `getComponents` and `setKernelName`: the walk, the links between the devices, from the back of
-- the vector to its front, and the removal of duplicates. The lists of a component are libvpd's:
-- `add_name` is `addAIXName`, `add_child` is `addChild`. The items of `scsiGetHTBL` are in Numbers,
-- and `readClassEntries`, which comes last, is left out.
pub mod Laws
use lsvpd.Base.{
  ℕ, zero, suc, Bool, true, false, ◌||◌, List, [], ◌∷◌, ◌++◌, Option, none, some, if◌then◌else◌,
  Bytes, codes, same, split_first, is_nil, length,
}
use lsvpd.Gatherer.{Forest}
use lsvpd.Sysfs.{Device, find_node, has_name, basename}
use lsvpd.Sysfs.Details.{Links}
use lsvpd.Sysfs.Walk.{Entry, find_device_paths}
use lsvpd.Sysfs.Duplicates.{remove_duplicate_devices}

-- The texts before and behind the one colon of a name
abbrev pub one_colon : Bytes → Option (Bytes × Bytes)
one_colon name = elim (split_first b':' name) [
  | none ↦ none
  | some p ↦ elim (split_first b':' p.1) [ none ↦ some p | some _ ↦ none ]
]

-- What is beside a device: the names in its directory, if that can be opened, and the real path of
-- the link `device`, if that is one and realpath succeeds.
pub record Beside : Type 0 where
  pub entries : Option (List Bytes)
  pub target : Option Bytes

-- The messages that the loop writes
pub data Message : Type 0 where
  no_parent : (parent node : Bytes) → Message

-- The first device at a path, with its lists changed
unfoldable pub change_at : Bytes → (Device → Device) → List Device → List Device
change_at path change [] = []
change_at path change (d ∷ devs) =
    let later = change_at path change devs in
    if same d.sys_fs_node path then change d ∷ devs else d ∷ later

-- The device at a place
unfoldable pub change_place : ℕ → (Device → Device) → List Device → List Device
change_place i change [] = []
change_place zero change (d ∷ devs) = change d ∷ devs
change_place (suc i) change (d ∷ devs) = d ∷ change_place i change devs

abbrev pub device_at : ℕ → List Device → Option Device
device_at i [] = none
device_at zero (d ∷ devs) = some d
device_at (suc i) (d ∷ devs) = device_at i devs

module _ (add_name : Bytes → ℕ → List Bytes → List Bytes)
    (add_child : Bytes → List Bytes → List Bytes) (exists : Bytes → Bool)
    (beside : Bytes → Beside) where
  abbrev pub with_name : Bytes → Device → Device
  with_name name d = record d { aix_names = add_name name 90 d.aix_names }

  abbrev pub with_child : Bytes → Device → Device
  with_child node d = record d { children = add_child node d.children }

  abbrev pub is_kernel_name : List Bytes → Bytes × Bytes → Bool
  is_kernel_name names (class, name) =
      if has_name names name
      then false
      else exists (codes "/sys/class/" ++ class ++ b'/' ∷ name) || same class (codes "block")

  abbrev pub kernel_name : List Bytes → Option (Bytes × Bytes) → List Bytes
  kernel_name names none = names
  kernel_name names (some p) = if is_kernel_name names p then add_name p.1 90 names else names

  -- The loop of `setKernelName`, on the names of the device
  unfoldable pub kernel_names : List Bytes → List Bytes → List Bytes
  unfolding split_first has_name
  kernel_names names [] = names
  kernel_names names (entry ∷ entries) = kernel_names (kernel_name names (one_colon entry)) entries

  -- `setKernelName`; its result is not used.
  unfoldable pub set_kernel_name : Device → Device
  unfolding kernel_names
  set_kernel_name d = elim (beside d.sys_fs_node).entries [
    | none ↦ d
    | some entries ↦ record d { aix_names = kernel_names d.aix_names entries }
  ]

  -- A device is put below its parent.
  abbrev pub link_parent : Device → List Device → List Device × List Message
  link_parent d devs = if is_nil d.parent then (devs, []) else elim (find_node devs d.parent) [
    | none ↦ (devs, no_parent d.parent d.sys_fs_node ∷ [])
    | some _ ↦ (change_at d.parent (with_child d.sys_fs_node) devs, [])
  ]

  -- The target of the link `device` takes the name of the device.
  unfoldable pub link_target : Device → List Device → List Device
  unfolding change_at find_node
  link_target d devs = elim (beside d.sys_fs_node).target [
    | none ↦ devs
    | some path ↦ change_at path (with_name (basename d.sys_fs_node)) devs
  ]

  abbrev pub link_found : ℕ → Option Device → List Device → List Device × List Message
  link_found i none devs = (devs, [])
  link_found i (some d) devs =
      let (linked, said) = link_parent d (change_place i set_kernel_name devs) in
      (link_target d linked, said)

  -- The loop, from the place before `i` to the front
  unfoldable pub link_devices : ℕ → List Device → List Device × List Message
  unfolding set_kernel_name find_node change_at change_place link_target
  link_devices zero devs = (devs, [])
  link_devices (suc i) devs =
      let (linked, said) = link_found i (device_at i devs) devs in
      let (all, more) = link_devices i linked in (all, said ++ more)

  -- `getComponents`, but for the entries of /sys/class, from the devices of the vector that it is
  -- handed
  unfoldable pub get_components :
      (Bytes → Bytes → Bool)
      → (Bytes → Links)
      → (Bytes → List Bytes → List Bytes)
      → Forest Entry
      → List Device
      → Option (List Device × List Message)
  unfolding find_device_paths link_devices remove_duplicate_devices
  get_components matches links remove_child forest start =
      let devs = find_device_paths matches links forest start in
      let (linked, said) = link_devices (length devs) devs in
      elim (remove_duplicate_devices remove_child linked) [
        | none ↦ none
        | some left ↦ some (left, said)
      ]
