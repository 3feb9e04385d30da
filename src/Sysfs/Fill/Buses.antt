-- ===== src/Sysfs/Fill/Buses.antt =====
-- `setCustomVPDFields`, `fillPCIDev` and `fillUSBDev`, and the location that `fillComponent` puts
-- together. The description that a device has at a call is what libvpd makes of the calls before.
use lsvpd.Base.{
  ℕ, ◌+◌, ◌*◌, ◌^◌, not, ◌&&◌, ◌||◌, List, [], ◌∷◌, ◌++◌, Option, none, some, ◌==◌, if◌then◌else◌,
  String, Bytes, codes, same,
}
use lsvpd.Vpd.{
  Field, Call, set_value, add_device_specific, manufacturer, model, description, feature_code, fru,
  part_number, eng_change_level, cd_field, physical_location,
}
use lsvpd.Ids.Parse.{Manufacturer}
use lsvpd.Ids.Lookup.{unknown_id, get_manufacturer_name, get_device_name}
use lsvpd.DeviceTree.Buffer.{Outcome, ok, fault}
use lsvpd.Sysfs.Pci.{fill_pci_dev_vpd}
use lsvpd.Sysfs.Fill.{PciIds, base_digits, hex_4, decimal, fill_pci_names, fill_pcids}

abbrev set_text : Field → String → ℕ → Call
set_text f text level = set_value f (codes text) level

-- `setCustomVPDFields`: the Spyre card
abbrev pub spyre_fields : List Call
spyre_fields =
    set_text feature_code "ECSE" 95
    ∷ set_text fru "03PN188" 100
    ∷ add_device_specific (codes "CC") (codes "Customer Card ID Number") (codes "2E1F") 95
    ∷ []

abbrev pub fractal_fields : Bytes → List Call
fractal_fields text =
    set_text part_number "03JP126" 95
    ∷ set_text eng_change_level "P45996" 95
    ∷ set_text fru "03JP128" 95
    ∷ set_text feature_code "EAPC / EAPD" 95
    ∷ add_device_specific (codes "CE") (codes "CCIN Extension") (codes "EC26") 95
    ∷ set_value description (text ++ codes " PCIe4 4-Port 25Gb/10Gb/1Gb RoCE SFP28 Adapter") 95
    ∷ []

abbrev pub onion_creek_fields : Bytes → List Call
onion_creek_fields text =
    set_text part_number "03JP134" 95
    ∷ set_text eng_change_level "P45997" 95
    ∷ set_text fru "03JP136" 95
    ∷ set_text feature_code "EAPE / EAPF" 95
    ∷ add_device_specific (codes "CE") (codes "CCIN Extension") (codes "EC2E") 95
    ∷ set_value description (text ++ codes " PCIe5 2-Port 200GbE RoCE QSFP56 Adapter") 95
    ∷ []

-- `sysPciId` and `subSysPciId`
abbrev pub pci_id : ℕ → ℕ → ℕ
pci_id vendor device = 2 ^ 16 * vendor + device

unfoldable pub set_custom_vpd_fields : Bytes → PciIds → List Call
set_custom_vpd_fields text i =
    let sys = pci_id i.man_id i.dev_id in
    let sub = pci_id i.sub_man i.sub_id in
    if sys == 0x101406a7 || sys == 0x101406a8
    then spyre_fields
    else if sys == 0x15b31021 || sys == 0x15b3101e
    then if sub == 0x15b30030
      then fractal_fields text
      else if sub == 0x15b30022
      then onion_creek_fields text
      else []
    else []

-- The byte 8 of the file config, if it can be read
abbrev pub config_calls : Option ℕ → List Call
config_calls none = []
config_calls (some byte) =
    add_device_specific (codes "YC") (codes "Device Specific") (decimal byte) 100 ∷ []

abbrev pub before_custom : List Call → Outcome (List Call) → Outcome (List Call)
before_custom first fault = fault
before_custom first (ok vpd) = ok (first ++ vpd)

abbrev pub behind_vpd :
    (List Call → Bytes) → PciIds → List Call → Option ℕ → Outcome (List Call) → Outcome (List Call)
behind_vpd described i nvme config fault = fault
behind_vpd described i nvme config (ok calls) =
    ok (calls ++ set_custom_vpd_fields (described calls) i ++ nvme ++ config_calls config)

-- `fillPCIDev`, behind `setKernelName`: the file vpd, what `fillPciNvmeVpd` and `fillSpyreVpd` do
-- and the file config are arguments.
unfoldable pub fill_pci_dev :
    (List Call → Bytes)
    → Option (List Manufacturer)
    → PciIds
    → Bytes
    → Option Bytes
    → List Call
    → Option ℕ
    → Outcome (List Call)
unfolding fill_pci_names fill_pcids fill_pci_dev_vpd set_custom_vpd_fields base_digits
fill_pci_dev described table i class vpd nvme config =
    behind_vpd described i nvme config
      (before_custom (fill_pci_names table i ++ fill_pcids class) (fill_pci_dev_vpd vpd))

abbrev pub usb_names : Option (List Manufacturer) → ℕ → ℕ → List Call
usb_names none man dev = []
usb_names (some table) man dev =
    (if man == unknown_id
      then []
      else set_value manufacturer (get_manufacturer_name table man) 50 ∷ [])
    ++ (if dev == unknown_id
        then []
        else set_text description "USB Device" 50
          ∷ set_value model (get_device_name table man dev) 50
          ∷ [])

-- `fillUSBDev`, behind `setKernelName`, for the numbers of the manufacturer and the product
unfoldable pub fill_usb_dev : Option (List Manufacturer) → ℕ → ℕ → List Call
unfolding get_manufacturer_name get_device_name base_digits
fill_usb_dev table man dev =
    usb_names table man dev
    ++ (if man == unknown_id && dev == unknown_id
        then []
        else set_value cd_field (hex_4 man ++ hex_4 dev) 90 ∷ [])

-- The location by that of the parent, a location and a bus address, if there is a parent
unfoldable pub location_of : Option (Bytes × Bytes) → Bytes → Bytes
location_of none bus_addr = bus_addr
location_of (some ([], parent_addr)) bus_addr = bus_addr
location_of (some (c ∷ cs, parent_addr)) bus_addr =
    if not (c == b'U')
    then (c ∷ cs) ++ b'/' ∷ bus_addr
    else if same parent_addr []
    then bus_addr
    else parent_addr ++ b'/' ∷ bus_addr

-- The items that `fillComponent` sets at its end, for the description and the model that it has
unfoldable pub location_calls : Option (Bytes × Bytes) → Bytes → Bytes → Bytes → List Call
unfolding location_of
location_calls parent bus_addr text name =
    set_value physical_location (location_of parent bus_addr) 50
    ∷ (if same text [] && not (same name []) then set_value description name 1 ∷ [] else [])
