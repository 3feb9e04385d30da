-- ===== src/Tests/Sysfs.antt =====
-- The collector of sysfs at concrete directories.
use lsvpd.Base.{
  ℕ, Bool, true, false, List, [], ◌∷◌, ◌≡◌, inl, inr, arith, refl, none, some, Bytes, codes, same,
  All, map, after_last,
}
use lsvpd.Sysfs.Fill.Classes.{fill_net_class, get_dev_tree_path}
use lsvpd.Vpd.{Call, set_value, net_addr}
use lsvpd.Vpd.Sanitize.{hex_digit}
use lsvpd.DeviceTree.Buffer.{ok, fault}
use lsvpd.DeviceTree.Buffer.Encode.{Item, AllItems, item_calls}
use lsvpd.Sysfs.Pci.{parse_pci_vpd_buffer, fill_pci_dev_vpd}
use lsvpd.Sysfs.Pci.Laws.{encode_pci, parse_pci_vpd_buffer-encode_pci}
use lsvpd.Sysfs.Fill.{PciIds, base_digits, hex_4}
use lsvpd.Sysfs.Fill.Buses.{fill_pci_dev}
use lsvpd.Sysfs.Fill.Safety.{IsFilled, fill_pci_dev-IsFilled}
use lsvpd.Gatherer.{Forest, nil, tree}
use lsvpd.Sysfs.{Device, find_node}
use lsvpd.Sysfs.Details.{Links}
use lsvpd.Sysfs.Walk.{Entry, find_device_paths}
use lsvpd.Sysfs.Walk.Laws.{IsKnown, IsClosed, find_device_paths-IsClosed}
use lsvpd.Sysfs.Duplicates.{remove_duplicate_devices}
use lsvpd.Sysfs.Duplicates.Laws.{IsLeft, IsSound}
use lsvpd.Sysfs.Duplicates.Rules.{Removal}
use lsvpd.Sysfs.Duplicates.Runs.{remove_duplicate_devices-Removal}
use lsvpd.Sysfs.Numbers.{number, scsi_get_htbl}
use lsvpd.Sysfs.Numbers.Laws.{four_numbers, scsi_get_htbl-four}
use lsvpd.Sysfs.Components.{Beside, no_parent, link_devices}
use lsvpd.Sysfs.Components.Laws.{link_devices-all}

abbrev matches : Bytes → Bytes → Bool
matches pattern name = false

abbrev links : Bytes → Links
links path = record { bus = some (codes "/sys/bus/pci"); driver = none; generic = none; name = [] }

abbrev entry : Bytes → Bool → Entry
entry name uevent = record {
  name = name;
  is_dir = true;
  has_uevent = uevent;
  has_partition = false;
}

-- A bus with an adapter, below which the adapter's name stands again, and a directory left out.
abbrev below_bus : Forest Entry
below_bus =
    tree (entry (codes "01:00") true)
      (tree (entry (codes "net") false) (tree (entry (codes "eth0") true) nil nil) nil) nil

abbrev directories : Forest Entry
directories =
    tree (entry (codes "pci0") false) below_bus
      (tree (entry (codes "virtual") true) (tree (entry (codes "tty") true) nil nil) nil)

-- The vector that `getComponentTree()` hands over: the root alone
abbrev start : List Device
start =
    record {
      sys_fs_node = codes "/sys/devices";
      parent = [];
      children = [];
      aix_names = [];
      dev_class = [];
      dev_bus = [];
      dev_bus_addr = [];
      description = [];
      dev_driver = [];
    }
    ∷ []

start-IsKnown : IsKnown start (codes "/sys/devices")
unfolding find_node same
start-IsKnown = inr (_, refl)

start-IsClosed : IsClosed start
start-IsClosed = (inl refl, tt)

abbrev found : List Device
found = find_device_paths matches links directories start

found_nodes :
    map Device.sys_fs_node found
    ≡ codes "/sys/devices"
      ∷ codes "/sys/devices/pci0/01:00"
      ∷ codes "/sys/devices/pci0/01:00/net/eth0"
      ∷ []
unfolding find_device_paths same after_last
found_nodes = refl

found_parents :
    map Device.parent found ≡ [] ∷ codes "/sys/devices" ∷ codes "/sys/devices/pci0/01:00" ∷ []
unfolding find_device_paths same after_last
found_parents = refl

find_device_paths-IsClosed_example : IsClosed found
find_device_paths-IsClosed_example =
    find_device_paths-IsClosed matches links directories start start-IsKnown start-IsClosed

abbrev beside : Bytes → Beside
beside path = record { entries = some (codes "net:eth0" ∷ codes "uevent" ∷ []); target = none }

abbrev add_name : Bytes → ℕ → List Bytes → List Bytes
add_name name level names = name ∷ names

abbrev add_child : Bytes → List Bytes → List Bytes
add_child child children = child ∷ children

abbrev exists : Bytes → Bool
exists path = same path (codes "/sys/class/net/eth0")

-- With a root that has no path, as that of `getDeviceIDs`, the device below it has no parent.
messages :
    (link_devices add_name add_child exists beside 2
      (find_device_paths matches links directories [])).1
    ≡ no_parent (codes "/sys/devices") (codes "/sys/devices/pci0/01:00") ∷ []
unfolding link_devices find_device_paths same after_last
messages = refl

link_devices-all_example : (link_devices add_name add_child exists beside 3 found).1 ≡ []
link_devices-all_example =
    link_devices-all add_name add_child exists beside matches links directories start 3
      start-IsKnown start-IsClosed

abbrev remove_child : Bytes → List Bytes → List Bytes
remove_child child children = []

abbrev device : Bytes → List Bytes → Bytes → Bytes → Device
device node children name class = record {
  sys_fs_node = node;
  parent = codes "/sys/devices";
  children = children;
  aix_names = name ∷ [];
  dev_class = class;
  dev_bus = [];
  dev_bus_addr = [];
  description = [];
  dev_driver = [];
}

-- An adapter whose one child has its name, and that child
abbrev doubled : List Device
doubled =
    device (codes "/a") (codes "/a/eth0" ∷ []) (codes "eth0") []
    ∷ device (codes "/a/eth0") [] (codes "eth0") (codes "net")
    ∷ []

sound : All IsSound doubled
sound = (λ h. absurd cc, (λ h. absurd cc, tt))

doubled_removed :
    remove_duplicate_devices remove_child doubled
    ≡ some (device (codes "/a") [] (codes "eth0") (codes "net") ∷ [])
unfolding remove_duplicate_devices same after_last
doubled_removed = refl

-- Of a chain of three nodes two are left.
chain_left :
    remove_duplicate_devices remove_child (
      device (codes "/a") (codes "/a/b" ∷ []) (codes "b") []
      ∷ device (codes "/a/b") (codes "/a/b/c" ∷ []) (codes "c") []
      ∷ device (codes "/a/b/c") [] (codes "c") []
      ∷ [])
    ≡ some (
        device (codes "/a") (codes "/a/b" ∷ []) (codes "b") []
        ∷ device (codes "/a/b") [] (codes "c") []
        ∷ [])
unfolding remove_duplicate_devices same after_last
chain_left = refl

remove_duplicate_devices-Removal_example :
    (res : List Device) × (remove_duplicate_devices remove_child doubled ≡ some res)
    × Removal remove_child [] doubled res
    × IsLeft doubled doubled res
remove_duplicate_devices-Removal_example =
    remove_duplicate_devices-Removal remove_child doubled sound

scsi_get_htbl-four_example :
    scsi_get_htbl (codes "/sys/devices/host2/2:0:11:3")
    ≡ four_numbers (codes "2") (codes "0") (codes "11") (codes "3")
scsi_get_htbl-four_example =
    scsi_get_htbl-four (codes "/sys/devices/host2") (codes "2") (codes "0") (codes "11") (codes "3")
      refl refl refl refl

-- Without a colon behind the bus, the target is read from the start of the name again.
numbers_of_two :
    scsi_get_htbl (codes "/a/2:5")
    ≡ number (codes "XH") "SCSI Host" (codes "2")
      ∷ number (codes "XT") "SCSI Target" (codes "2")
      ∷ number (codes "XL") "SCSI Lun" (codes "5")
      ∷ []
unfolding scsi_get_htbl after_last
numbers_of_two = refl

-- The keyword PN, between a name and an end tag
abbrev items : List Item
items = record { key₀ = b'P'; key₁ = b'N'; value = codes "03JP126" } ∷ []

items_hold : AllItems items
items_hold =
    AllItems.cons
      (record { not_small_end = ground arith; not_large_end = ground arith; fits = omega arith })
      AllItems.nil

parse_pci_vpd_buffer-encode_pci_example :
    parse_pci_vpd_buffer (encode_pci (codes "NIC") (0x90 ∷ 10 ∷ 0 ∷ []) items 0x78 []) 20
    ≡ ok (20, item_calls items)
parse_pci_vpd_buffer-encode_pci_example =
    parse_pci_vpd_buffer-encode_pci (codes "NIC") (0x90 ∷ 10 ∷ 0 ∷ []) items 0x78 [] 0 items_hold
      (inl refl) refl

abbrev fractal : PciIds
fractal = record { man_id = 0x15b3; dev_id = 0x1021; sub_man = 0x15b3; sub_id = 0x30 }

abbrev no_description : List Call → Bytes
no_description calls = []

fractal_ids : hex_4 0x30 ≡ codes "0030"
unfolding hex_digit base_digits
fractal_ids = refl

fill_pci_dev-IsFilled_example :
    IsFilled no_description none fractal
      (codes "net")
      []
      none
      (fill_pci_dev_vpd (some (codes "V")))
      (fill_pci_dev no_description none fractal (codes "net") (some (codes "V")) [] none)
fill_pci_dev-IsFilled_example =
    fill_pci_dev-IsFilled no_description none fractal (codes "net") (some (codes "V")) [] none

net_calls :
    fill_net_class (codes "00:1a:64:0b:02:fe") true (λ name. some (codes "N/A")) (codes "eth0" ∷ [])
    ≡ set_value net_addr (codes "001a640b02fe") 90 ∷ []
unfolding fill_net_class same
net_calls = refl

-- A devspec that begins with a NUL
devspec_of_nul : get_dev_tree_path none (some (0 ∷ 10 ∷ [])) ≡ fault
unfolding get_dev_tree_path
devspec_of_nul = refl
