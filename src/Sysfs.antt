-- ===== src/Sysfs.antt =====
-- The collector of sysfs (src/internal/sys_interface/sysfstreecollector.cpp): which devices there
-- are, their names, and what they are filled with. A `Device` is what the code reads and writes of a `Component` of libvpd
-- while it looks for devices.
pub mod Details
pub mod Walk
pub mod Duplicates
pub mod Numbers
pub mod Pci
pub mod Fill
pub mod Components
use lsvpd.Base.{
  Bool, true, false, ◌||◌, List, [], ◌∷◌, ◌++◌, Option, none, some, if◌then◌else◌, Bytes, same,
  after_last,
}

pub record Device : Type 0 where
  pub sys_fs_node : Bytes
  pub parent : Bytes
  pub children : List Bytes
  pub aix_names : List Bytes
  pub dev_class : Bytes
  pub dev_bus : Bytes
  pub dev_bus_addr : Bytes
  pub description : Bytes
  pub dev_driver : Bytes

-- `findComponent`: the first device at a path
unfoldable pub find_node : List Device → Bytes → Option Device
find_node [] path = none
find_node (d ∷ devs) path =
    let later = find_node devs path in if same d.sys_fs_node path then some d else later

-- `HelperFunctions::contains` of libvpd, on the names of a device
unfoldable pub has_name : List Bytes → Bytes → Bool
has_name [] name = false
has_name (n ∷ names) name = same n name || has_name names name

-- `basename` of a path that does not end with a slash
abbrev pub basename : Bytes → Bytes
basename [] = b'.' ∷ []
basename (c ∷ cs) = after_last b'/' (c ∷ cs)
