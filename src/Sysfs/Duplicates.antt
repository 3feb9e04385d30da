-- ===== src/Sysfs/Duplicates.antt =====
-- `removeDuplicateDevices` and `mergeAttributes`: the one leaf below a device that has a name of
-- the device is taken out of the vector. `removeChild` of libvpd is an argument. The loop runs on
-- fuel: behind the device that it looks at are fewer devices in each round.
pub mod Laws
pub mod Rules
pub mod Runs
use lsvpd.Base.{
  ℕ, zero, suc, Bool, true, false, ◌&&◌, List, [], ◌∷◌, ◌++◌, Option, none, some, if◌then◌else◌,
  Bytes, same, length,
}
use lsvpd.Sysfs.{Device, find_node, has_name, basename}

-- `mergeField`, not forced
abbrev pub or_child : Bytes → Bytes → Bytes
or_child [] text = text
or_child (c ∷ cs) text = c ∷ cs

-- `mergeAttributes`
abbrev pub merge_attributes : Device → Device → Device
merge_attributes parent child = record parent {
  dev_class = or_child parent.dev_class child.dev_class;
  dev_bus = or_child parent.dev_bus child.dev_bus;
  dev_bus_addr = or_child parent.dev_bus_addr child.dev_bus_addr;
}

-- Rule 1
abbrev pub only_child : List Bytes → Option Bytes
only_child [] = none
only_child (c ∷ []) = some c
only_child (c ∷ d ∷ cs) = none

abbrev pub is_leaf : Device → Bool
is_leaf d = elim d.children [ [] ↦ true | _ ∷ _ ↦ false ]

-- Rules 2 and 3, for a child that is found or not
abbrev pub if_duplicate : Device → Bytes → Option Device → Option Bytes
if_duplicate parent child none = none
if_duplicate parent child (some d) =
    if is_leaf d && has_name parent.aix_names (basename child) then some child else none

-- The child that is a duplicate of its parent
unfoldable pub duplicate_child : List Device → Device → Option Bytes
unfolding find_node has_name
duplicate_child devs parent = elim (only_child parent.children) [
  | none ↦ none
  | some child ↦ if_duplicate parent child (find_node devs child)
]

abbrev pub behind : Device → Option (Device × List Device) → Option (Device × List Device)
behind d none = none
behind d (some (found, rest)) = some (found, d ∷ rest)

-- The first device at a path, and the vector without it
unfoldable pub erase_node : Bytes → List Device → Option (Device × List Device)
erase_node path [] = none
erase_node path (d ∷ devs) =
    let later = erase_node path devs in
    if same d.sys_fs_node path then some (d, devs) else behind d later

module _ (remove_child : Bytes → List Bytes → List Bytes) where
  abbrev pub without_child : Bytes → Device → Device
  without_child child d = record d { children = remove_child child d.children }

  -- The vector from the place of the parent on, when a child is deleted. If the parent itself is at
  -- the path of the child, it is erased, and the next device stands at its place; without a next
  -- one the code writes behind the vector, which is none here.
  unfoldable pub delete_child : Bytes → Device → List Device → Option (Device × List Device)
  unfolding erase_node
  delete_child child parent after =
      if same parent.sys_fs_node child
      then elim after [ [] ↦ none | d ∷ rest ↦ some (without_child child d, rest) ]
      else elim (erase_node child after) [
        | none ↦ some (parent, after)
        | some (d, rest) ↦ some (without_child child (merge_attributes parent d), rest)
      ]

  -- The loop: the devices that it has passed, and those from the iterator on
  unfoldable pub remove_from : ℕ → List Device → List Device → Option (List Device)
  unfolding duplicate_child delete_child
  remove_from zero before after = none
  remove_from (suc fuel) before [] = some before
  remove_from (suc fuel) before (parent ∷ after) =
      elim (duplicate_child (before ++ parent ∷ after) parent) [
        | none ↦ remove_from fuel (before ++ parent ∷ []) after
        | some child ↦ elim (delete_child child parent after) [
          | none ↦ none
          | some (d, rest) ↦ remove_from fuel (before ++ d ∷ []) rest
        ]
      ]

  -- `removeDuplicateDevices`
  unfoldable pub remove_duplicate_devices : List Device → Option (List Device)
  unfolding remove_from
  remove_duplicate_devices devs = remove_from (suc (length devs)) [] devs
