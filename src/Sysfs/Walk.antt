-- ===== src/Sysfs/Walk.antt =====
-- The walk over /sys/devices that finds the devices. The directories are trees: the inner forest of
-- one is what `fs_getDirContents` lists in it, from the back of the vector, as the loops take it.
pub mod Laws
use lsvpd.Base.{
  ℕ, Bool, true, false, not, ◌&&◌, ◌||◌, List, [], ◌∷◌, ◌++◌, Option, none, some, if◌then◌else◌,
  Bytes, codes, same, ◌==◌, isspace, within, starts_with, drop, length,
}
use lsvpd.Gatherer.{Forest, nil, tree}
use lsvpd.Sysfs.{Device, find_node, basename}
use lsvpd.Sysfs.Details.{Links, get_initial_details}

-- An entry of a directory: its name, whether it is a directory, and whether the files uevent and
-- partition are in it.
pub record Entry : Type 0 where
  pub name : Bytes
  pub is_dir : Bool
  pub has_uevent : Bool
  pub has_partition : Bool

-- `isDevice`
abbrev pub is_device_dir : Entry → Bool
is_device_dir e = e.has_uevent && not e.has_partition

-- `%d` reads a number: white space, a sign, and a digit at least.
abbrev pub begins_digit : Bytes → Bool
begins_digit [] = false
begins_digit (c ∷ cs) = within b'0' b'9' c

abbrev pub begins_signed : Bytes → Bool
begins_signed [] = false
begins_signed (c ∷ cs) = if c == b'-' || c == b'+' then begins_digit cs else begins_digit (c ∷ cs)

unfoldable pub begins_number : Bytes → Bool
begins_number [] = false
begins_number (c ∷ cs) = if isspace c then begins_number cs else begins_signed (c ∷ cs)

-- `filterDevice`: the names that `target%d` fits are left out.
unfoldable pub filter_device : Bytes → Bool
unfolding starts_with begins_number
filter_device name = not (starts_with (codes "target") name && begins_number (drop 6 name))

-- The directories under /sys/devices that are left out.
unfoldable pub is_top_excluded : Bytes → Bool
is_top_excluded name =
    same name (codes "virtual")
    || same name (codes "system")
    || same name (codes "cpu")
    || same name (codes "breakpoint")
    || same name (codes "tracepoint")
    || same name (codes "software")

-- `filterDevicePath`; below /sys/devices itself the parent is the empty text.
unfoldable pub filter_device_path : List Device → Bytes → Bytes → Bool
unfolding find_node is_top_excluded
filter_device_path devs [] name = not (is_top_excluded name)
filter_device_path devs (c ∷ cs) name = elim (find_node devs (c ∷ cs)) [
  | none ↦ true
  | some parent ↦ not (
      same parent.dev_bus (codes "scsi")
      && (same name (codes "scsi_generic") || same name (codes "enclosure")))
]

-- An entry that stands for a device, in the directory of the parent device
abbrev pub is_new_device : Bytes → Entry → Bool
is_new_device parent e =
    not (same (basename parent) e.name) && is_device_dir e && filter_device e.name

module _ (matches : Bytes → Bytes → Bool) (links : Bytes → Links) where
  -- `findDevices`: the vector behind the walk, with what is at each path
  unfoldable pub find_devices : Bytes → Bytes → Forest Entry → List Device → List Device
  unfolding filter_device filter_device_path get_initial_details
  find_devices parent dir nil devs = devs
  find_devices parent dir (tree e inner next) devs =
      let path = dir ++ b'/' ∷ e.name in
      find_devices parent dir next (
        if not e.is_dir
        then devs
        else if is_new_device parent e
        then find_devices path path inner
            (devs ++ get_initial_details matches (links path) parent path ∷ [])
        else if filter_device_path devs parent e.name
        then find_devices parent path inner devs
        else devs)

  -- `findDevicePaths`
  unfoldable pub find_device_paths : Forest Entry → List Device → List Device
  unfolding find_devices filter_device_path
  find_device_paths nil devs = devs
  find_device_paths (tree e inner next) devs = find_device_paths next (
      if filter_device_path devs [] e.name && e.is_dir
      then find_devices [] (codes "/sys/devices/" ++ e.name) inner devs
      else devs)
