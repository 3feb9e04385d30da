-- ===== src/Sysfs/Fill.antt =====
-- What a PCI device is filled with from the tables and by its class: parts of `fillPCIDev`, and
-- `fillPCIDS`. The numbers that strtol reads in the attributes are 16-bit numbers here, 0xffff where
-- there is none; the tables are those of Ids.
pub mod Buses
pub mod Safety
pub mod Classes
use lsvpd.Base.{
  ℕ, zero, suc, ◌+◌, ◌-◌, ◌*◌, ◌/◌, ◌%◌, ◌^◌, Bool, true, false, not, ◌&&◌, ◌||◌, List, [], ◌∷◌,
  ◌++◌, Option, none, some, ◌==◌, if◌then◌else◌, String, Bytes, codes, same, length,
}
use lsvpd.Vpd.{
  Field, Call, set_value, add_device_specific, manufacturer, model, description, feature_code, fru,
  part_number, eng_change_level, cd_field, physical_location,
}
use lsvpd.Vpd.Sanitize.{hex_digit}
use lsvpd.Ids.Parse.{Manufacturer}
use lsvpd.Ids.Lookup.{unknown_id, get_manufacturer_name, get_device_name, get_sub_device_name}
use lsvpd.DeviceTree.Buffer.{Outcome, ok, fault}
use lsvpd.Sysfs.Pci.{fill_pci_dev_vpd}

-- The digits of a number, which `fuel` divisions by the base bring to 0
unfoldable pub base_digits : ℕ → ℕ → ℕ → Bytes
unfolding hex_digit
base_digits base zero n = []
base_digits base (suc fuel) n =
    let front = base_digits base fuel (n / base) in
    if n == 0 then [] else front ++ hex_digit (n % base) ∷ []

abbrev pub zeros : ℕ → Bytes
zeros zero = []
zeros (suc n) = b'0' ∷ zeros n

-- `hex << setw(4) << setfill('0')`
abbrev pub hex_4 : ℕ → Bytes
hex_4 n = let text = base_digits 16 4 n in zeros (4 - length text) ++ text

-- `dec`, of a byte
abbrev pub decimal : ℕ → Bytes
decimal n = if n == 0 then b'0' ∷ [] else base_digits 10 3 n

-- manID, devID, subMan and subID
pub record PciIds : Type 0 where
  pub man_id : ℕ
  pub dev_id : ℕ
  pub sub_man : ℕ
  pub sub_id : ℕ

-- An item that is set if there is a text for it
abbrev pub set_present : Field → Bytes → ℕ → List Call
set_present f text level = if same text [] then [] else set_value f text level ∷ []

abbrev pub pci_manufacturer : List Manufacturer → PciIds → List Call
pci_manufacturer table i =
    if i.sub_man == unknown_id || same (get_manufacturer_name table i.sub_man) (codes "Unknown")
    then if i.man_id == unknown_id
      then []
      else set_present manufacturer (get_manufacturer_name table i.man_id) 50
    else set_present manufacturer (get_manufacturer_name table i.sub_man) 50

abbrev pub pci_model : List Manufacturer → PciIds → List Call
pci_model table i =
    if i.sub_id == unknown_id
      || same (get_sub_device_name table i.man_id i.dev_id i.sub_id) (codes "Unknown")
    then if i.man_id == unknown_id
      then []
      else set_present model (get_device_name table i.man_id i.dev_id) 80
    else set_present model (get_sub_device_name table i.man_id i.dev_id i.sub_id) 80
      ++ set_present description (get_device_name table i.man_id i.dev_id) 80

abbrev pub ids_text : PciIds → Bytes
ids_text i =
    codes "("
    ++ hex_4 i.man_id
    ++ codes ","
    ++ hex_4 i.dev_id
    ++ codes "), ("
    ++ hex_4 i.sub_man
    ++ codes ","
    ++ hex_4 i.sub_id
    ++ codes ")"

abbrev pub pci_ids : PciIds → List Call
pci_ids i =
    if same (ids_text i) (codes "(ffff,ffff), (ffff,ffff)")
    then []
    else set_value cd_field (ids_text i) 100 ∷ []

-- What is taken from the table, if it could be read
unfoldable pub fill_pci_names : Option (List Manufacturer) → PciIds → List Call
unfolding get_manufacturer_name get_device_name get_sub_device_name base_digits
fill_pci_names none i = []
fill_pci_names (some table) i = pci_manufacturer table i ++ pci_model table i ++ pci_ids i

abbrev as_description : String → ℕ → List Call
as_description text level = set_value description (codes text) level ∷ []

-- `fillPCIDS`, by the class
unfoldable pub fill_pcids : Bytes → List Call
fill_pcids val =
    if same val (codes "net")
    then as_description "Ethernet PCI Adapter" 30
    else if same val (codes "graphics")
    then as_description "Display Adapter" 30
    else if same val (codes "sound")
    then as_description "Multimedia Audio Controller" 30
    else if same val (codes "serial")
    then as_description "Serial Adapter" 30
    else if same val (codes "scsi_device")
    then as_description "SCSI Device" 30
    else if same val (codes "scsi_disk")
    then as_description "SCSI Disk" 30
    else if same val (codes "scsi_generic")
    then as_description "Generic SCSI Device" 30
    else if same val (codes "scsi_host")
    then as_description "SCSI Adapter" 30
    else if same val (codes "bluetooth")
    then as_description "Bluetooth Device" 30
    else if same val (codes "pcmcia_socket")
    then as_description "PCMCIA Adapter" 30
    else if same val (codes "usb")
    then as_description "Generic USB Device" 30
    else if same val (codes "usb_device")
    then as_description "USB Device" 30
    else if same val (codes "usb_host")
    then as_description "USB Host Controller" 30
    else if same val (codes "block")
    then as_description "Generic Block Device" 10
    else if same val (codes "tty")
    then as_description "Serial Device" 20
    else if same val (codes "nvme")
    then as_description "NVMe Device" 20
    else []
