-- ===== src/Output/Lsmcode/Bmc.antt =====
-- The firmware of a system with a BMC, in src/output/lsmcode.cpp. What stands in the device tree,
-- which commands there are, and what they print are arguments.
use lsvpd.Base.{
  ◌-◌, Bool, not, ◌&&◌, ◌||◌, List, [], ◌∷◌, ◌++◌, Option, none, some, if◌then◌else◌, Bytes, codes,
  same, starts_with, split_first, length, take, drop,
}
use lsvpd.Output.Lsmcode.{Firmware, not_found, printed, newline}

-- `find` of a text: what begins at its first occurrence
unfoldable pub from_text : Bytes → Bytes → Option Bytes
unfolding starts_with
from_text what [] = none
from_text what (c ∷ cs) =
    let rest = from_text what cs in if starts_with what (c ∷ cs) then some (c ∷ cs) else rest

-- `get_ipmitool_path`, by which files exist; the empty text for none
unfoldable pub get_ipmitool_path : (Bytes → Bool) → List Bytes → Bytes
get_ipmitool_path exists [] = []
get_ipmitool_path exists (dir ∷ dirs) =
    let path = dir ++ codes "/ipmitool" in
    let rest = get_ipmitool_path exists dirs in if exists path then path else rest

abbrev pub bin_dir_path : List Bytes
bin_dir_path = codes "/bin" ∷ codes "/usr/bin" ∷ codes "/usr/local/bin" ∷ []

-- `bmc_get_fw_fru_info`, of what the command prints, if it succeeds
unfoldable pub bmc_get_fw_fru_info : Option Bytes → Bytes
unfolding from_text
bmc_get_fw_fru_info none = []
bmc_get_fw_fru_info (some data_text) = elim (from_text (codes "System Firmware") data_text) [
  | none ↦ []
  | some header ↦ elim (from_text newline header) [
    | none ↦ []
    | some start ↦ elim (from_text (codes "FRU Device Description") start) [
      | none ↦ []
      | some end ↦ take (length start - length end - 1) start
    ]
  ]
]

abbrev pub version_prop : List Bytes
version_prop = codes "version" ∷ codes "IBM" ∷ codes "open-power" ∷ codes "buildroot" ∷ []

-- The first property that exists; the empty text for none
unfoldable pub first_property : (Bytes → Bool) → List Bytes → Bytes
first_property exists [] = []
first_property exists (name ∷ names) =
    let rest = first_property exists names in if exists name then name else rest

-- The line of the version.
unfoldable pub product_version : (Bytes → Bytes) → Bytes → Bytes
product_version read prop =
    if same prop [] || same (read prop) []
    then []
    else codes " Product Version       : "
      ++ (if same prop (codes "version") then [] else prop ++ codes "-")
      ++ read prop
      ++ newline

-- The lines of the other properties.
unfoldable pub product_extra : (Bytes → Bytes) → Bytes → List Bytes → Bytes
product_extra read prop [] = []
product_extra read prop (name ∷ names) =
    let rest = product_extra read prop names in
    if same name (codes "phandle")
      || same name (codes "name")
      || (not (same prop []) && same name prop)
      || same (read name) []
    then rest
    else (codes " Product Extra         : " ++ 9 ∷ (name ++ codes "-" ++ read name ++ newline))
      ++ rest

-- `bmc_get_fw_dt_info`: the names in the directory, if it opens, which files there exist, and what
-- `read_dt_property` gives
unfoldable pub bmc_get_fw_dt_info : Option (List Bytes) → (Bytes → Bool) → (Bytes → Bytes) → Bytes
unfolding first_property product_version product_extra
bmc_get_fw_dt_info none exists read = []
bmc_get_fw_dt_info (some names) exists read =
    let prop = first_property exists version_prop in
    newline
    ++ codes " Product Name          : OpenPOWER Firmware"
    ++ newline
    ++ product_version read prop
    ++ product_extra read prop names

-- `bmc_get_product_version`: the text behind the colon, with the newline that ends it
unfoldable pub bmc_get_product_version : Bytes → Bytes
unfolding from_text split_first
bmc_get_product_version data_text = elim (from_text (codes "Product Version") data_text) [
  | none ↦ []
  | some label ↦ elim (from_text (codes ": ") label) [
    | none ↦ []
    | some start ↦ elim (split_first 10 start) [
      | none ↦ []
      | some p ↦ take (length p.0 - 1) (drop 2 start)
    ]
  ]
]

-- What a system with a BMC answers: whether the node with the versions can be read, the names in
-- it, which of them exist and what is in them; which files exist; and what ipmitool prints over
-- the USB interface, and over the other.
pub record BmcAnswers : Type 0 where
  pub has_node : Bool
  pub names : Option (List Bytes)
  pub exists : Bytes → Bool
  pub read : Bytes → Bytes
  pub file_exists : Bytes → Bool
  pub usb_fru : Bytes → Option Bytes
  pub fru : Bytes → Option Bytes

-- The text of the firmware, and the line that is printed first if there is no ipmitool. What goes
-- to `cerr` is left out.
unfoldable pub bmc_firmware_data : BmcAnswers → Bytes × Bytes
unfolding bmc_get_fw_dt_info get_ipmitool_path bmc_get_fw_fru_info
bmc_firmware_data a =
    let tool = get_ipmitool_path a.file_exists bin_dir_path in
    let usb = bmc_get_fw_fru_info (a.usb_fru tool) in
    if a.has_node
    then (bmc_get_fw_dt_info a.names a.exists a.read, [])
    else if same tool []
    then ([], codes "ipmitool command not found. Please install ipmitool and retry." ++ newline)
    else (if same usb [] then bmc_get_fw_fru_info (a.fru tool) else usb, [])

-- The branch of `printSystem` for such a system
unfoldable pub print_bmc : Bool → BmcAnswers → Firmware
unfolding bmc_firmware_data bmc_get_product_version
print_bmc all a =
    let (data_text, message) = bmc_firmware_data a in
    let version = bmc_get_product_version data_text in
    if same data_text []
    then printed message
    else if all
    then if same version [] then not_found else printed (codes "sys0!system: " ++ version)
    else printed (codes "Version of System Firmware : " ++ data_text ++ newline)
