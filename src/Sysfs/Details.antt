-- ===== src/Sysfs/Details.antt =====
-- `getInitialDetails` of src/internal/sys_interface/sysfstreecollector.cpp. Where the links and
-- files of a device lead to is an argument. A value that is set twice is set with a higher level
-- the second time, and so replaced.
use lsvpd.Base.{
  Bool, ◌||◌, List, [], ◌∷◌, ◌++◌, Option, none, some, if◌then◌else◌, Bytes, codes, same,
  contains_text, split_first, after_last, drop,
}
use lsvpd.Sysfs.{Device}

-- What is found beside a device: the target of bus or else of subsystem, of driver, and of
-- generic; what is in name, if that exists.
pub record Links : Type 0 where
  pub bus : Option Bytes
  pub driver : Option Bytes
  pub generic : Option Bytes
  pub name : Bytes

abbrev pub up_to_slash : Bytes → Bytes
up_to_slash text = elim (split_first b'/' text) [ none ↦ text | some p ↦ p.0 ]

abbrev pub behind_slash : Bytes → Bytes
behind_slash text = elim (split_first b'/' text) [ none ↦ [] | some p ↦ p.1 ]

-- The directory under /sys/devices, which all paths here begin with.
unfoldable pub top_directory : Bytes → Bytes
unfolding split_first
top_directory path = up_to_slash (behind_slash (behind_slash (drop 2 path)))

-- The description by the directory; `matches( "pnp*", ... )` is libvpd's.
unfoldable pub basic_description : (Bytes → Bytes → Bool) → Bytes → Bytes
unfolding top_directory contains_text
basic_description matches path =
    let top = top_directory path in
    if same top (codes "virtual")
    then codes "Virtual"
    else if contains_text (codes "acpi") path
    then codes "Advanced Configuration and Power Interface"
    else if same top (codes "vio")
    then codes "Virtual I/O Device"
    else if same top (codes "system")
    then codes "System Component"
    else if same top (codes "ibmebus")
    then codes "IBM EBUS Device"
    else if same top (codes "platform")
    then codes "Platform"
    else if matches (codes "pnp*") top
    then codes "Plug and Play Port - Unused"
    else []

-- The type and the value of the link to the subsystem, /sys/bus/pci for instance.
abbrev pub link_type : Bytes → Bytes
link_type target = up_to_slash (behind_slash (drop 2 target))

-- With a slash behind it the last character of the value is cut off.
unfoldable pub without_last : Bytes → Bytes
without_last [] = []
without_last (c ∷ []) = []
without_last (c ∷ d ∷ cs) = c ∷ without_last (d ∷ cs)

unfoldable pub link_value : Bytes → Bytes
unfolding split_first without_last
link_value target =
    let rest = behind_slash (behind_slash (drop 2 target)) in
    elim (split_first b'/' rest) [ none ↦ rest | some p ↦ without_last p.0 ]

-- What is put behind the description, by the value.
unfoldable pub detail : Bytes → Bytes
detail value =
    if same value (codes "tty")
    then codes " Terminal Device"
    else if same value (codes "graphics")
    then codes " Graphical Device"
    else if same value (codes "input")
    then codes " Input Device"
    else if same value (codes "net")
    then codes " Networking Device"
    else if same value (codes "cpu")
    then codes " - Processing Device"
    else if same value (codes "mem")
    then codes " Memory Device"
    else []

abbrev pub bus_of : Option Bytes → Bytes
bus_of none = []
bus_of (some target) = if same (link_type target) (codes "bus") then link_value target else []

abbrev pub class_of : Option Bytes → Bytes → Bytes
class_of none name = []
class_of (some target) name =
    if same (link_type target) (codes "class") then target ++ b'/' ∷ name else []

abbrev pub detailed : Option Bytes → Bytes → Bytes
detailed none description = description
detailed (some target) description = description ++ detail (link_value target)

abbrev pub as_device : Bytes → Bytes
as_device description =
    if same description (codes "Virtual") || same description (codes "Platform")
    then description ++ codes " Device"
    else description

abbrev pub driver_of : Option Bytes → Bytes
driver_of none = []
driver_of (some target) = after_last b'/' target

abbrev pub is_console : Option Bytes → Bool
is_console driver = same (driver_of driver) (codes "hvc_console")

abbrev pub generic_name : Option Bytes → List Bytes
generic_name none = []
generic_name (some target) = after_last b'/' target ∷ []

-- The name of the directory; that of a virtual adapter stands in a file.
unfoldable pub device_name : Links → Bytes → Bytes
unfolding link_value split_first
device_name links path =
    if same (bus_of links.bus) (codes "vio")
    then if same links.name [] then after_last b'/' path else links.name
    else after_last b'/' path

unfoldable pub get_initial_details : (Bytes → Bytes → Bool) → Links → Bytes → Bytes → Device
unfolding basic_description link_value detail device_name
get_initial_details matches links parent path = record {
  sys_fs_node = path;
  parent = if same parent [] then codes "/sys/devices" else parent;
  children = [];
  aix_names =
      (if is_console links.driver then codes "hvc_console" ∷ [] else [])
      ++ generic_name links.generic
      ++ device_name links path ∷ [];
  dev_class = class_of links.bus (after_last b'/' path);
  dev_bus = bus_of links.bus;
  dev_bus_addr = device_name links path;
  description =
      if is_console links.driver
      then codes "Hypervisor Virtual Console"
      else as_device (detailed links.bus (basic_description matches path));
  dev_driver = driver_of links.driver;
}
