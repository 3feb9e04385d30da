-- ===== src/Output/Lsmcode.antt =====
-- src/output/lsmcode.cpp: the levels of the firmware and of the microcode. The output is one text
-- here, with the newlines in it; `std::out_of_range`, which ends the program, is none.
pub mod Laws
pub mod Bmc
pub mod Main
use mathlib.Core.Option
use lsvpd.Base.{
  Bool, true, false, not, ◌&&◌, ◌||◌, List, [], ◌∷◌, ◌++◌, Option, none, some, if◌then◌else◌,
  String, Bytes, codes, same, split_first, contains_text, flat_map, length, drop, ltb,
}
use lsvpd.Gatherer.{Forest, nil, tree}
use lsvpd.Output.{
  Item, Attribute, component_id, device_tree_node, sys_fs_node, sys_fs_link_target, hal_udi,
  dev_class, parent_id, dev_sys_name, dev_tree_name, dev_bus, dev_type, dev_bus_addr,
  second_location, description, model, firmware_version, firmware_level, micro_code_image,
  physical_location, Component, System, value_of, contains,
}
use lsvpd.Output.Archive.{split_last}
use lsvpd.Output.Lsvio.{spaced_names}

-- The global variables; `tabular` is set with `all` and never read.
pub record McodeFlags : Type 0 where
  pub all : Bool
  pub debug : Bool
  pub device : Bytes
  pub path : Bytes

abbrev pub newline : Bytes
newline = 10 ∷ []

-- `cout << label << value << endl`
abbrev pub labelled_line : String → Bytes → Bytes
labelled_line label value = codes label ++ value ++ newline

-- The parts of a text before its first space, between that and the last one, and behind the last.
-- Where there is none, or only one, `substr` gets lengths below zero, which are npos.
unfoldable pub levels : Bytes → Bytes × Bytes × Bytes
unfolding split_first split_last
levels text = elim (split_first b' ' text) [
  | none ↦ (text, text, text)
  | some p ↦ elim (split_last b' ' p.1) [ none ↦ (p.0, p.1, p.1) | some q ↦ (p.0, q.0, q.1) ]
]

-- The three globals of a record, which are empty before it is read.
abbrev pub levels_or_empty : Bytes → Bytes × Bytes × Bytes
levels_or_empty text = if same text [] then ([], [], []) else levels text

abbrev pub in_parentheses : Bytes → Bytes → Bytes
in_parentheses test text = if same test [] then [] else codes " (" ++ text ++ codes ") "

-- `fw`, of the levels of MI and of ML
unfoldable pub firmware_text : Bytes × Bytes × Bytes → Bytes × Bytes × Bytes → Bytes
firmware_text mi ml =
    if same ml.0 []
    then mi.0 ++ codes " (t) " ++ mi.1 ++ codes " (p) " ++ mi.2 ++ codes " (b)"
    else ml.0
      ++ in_parentheses mi.0 mi.0
      ++ codes "(t) "
      ++ ml.1
      ++ in_parentheses mi.1 mi.1
      ++ codes "(p) "
      ++ ml.2
      ++ in_parentheses mi.0 mi.2
      ++ codes "(b)"

-- The first item that names PFW: what stands behind its first four characters.
unfoldable pub pfw_of : List Item → Option Bytes
unfolding contains_text
pfw_of [] = some []
pfw_of (i ∷ items) =
    if contains_text (codes "PFW") i.value
    then if ltb (length i.value) 4 then none else some (drop 4 i.value)
    else pfw_of items

abbrev pub ml_of : Option Bytes → Bytes
ml_of none = []
ml_of (some ml) = ml

abbrev pub pfw_text : Bool → Bytes → Bytes
pfw_text all pfw =
    if same pfw []
    then []
    else (if all then codes "|service: " else newline ++ codes "Version of PFW is ") ++ pfw

-- What `printSystem` prints of the component `System Firmware`.
unfoldable pub system_firmware : Bool → Component → Option Bytes
unfolding firmware_text pfw_of levels
system_firmware all c = elim (pfw_of c.device_specific) [
  | none ↦ none
  | some pfw ↦ some (
      (if all then codes "sys0!system: " else codes "Version of System Firmware is ")
      ++ firmware_text (levels_or_empty (value_of c micro_code_image))
          (levels_or_empty (ml_of c.micro_code_level))
      ++ pfw_text all pfw
      ++ newline)
]

abbrev pub is_firmware : Component → Bool
is_firmware c = same (value_of c description) (codes "System Firmware")

-- What `printSystem` comes to: it has found nothing, has printed, or throws.
pub data Firmware : Type 0 where
  not_found : Firmware
  printed : Bytes → Firmware
  thrown : Firmware

abbrev pub or_thrown : Option Bytes → Firmware
or_thrown none = thrown
or_thrown (some text) = printed text

abbrev pub or_next : Firmware → Firmware → Firmware
or_next not_found next = next
or_next (printed text) next = printed text
or_next thrown next = thrown

-- `printSystem` on a system without a BMC, of the leaves
unfoldable pub print_firmware : Bool → Forest Component → Firmware
unfolding system_firmware
print_firmware all nil = not_found
print_firmware all (tree c leaves next) =
    let below = print_firmware all leaves in
    let later = print_firmware all next in
    if is_firmware c then or_thrown (system_firmware all c) else or_next below later

unfoldable pub mcode_debug : Component → Bytes
mcode_debug c =
    codes "-----------------------------"
    ++ newline
    ++ labelled_line "ID: " (c.text component_id)
    ++ labelled_line "Device Tree Node: " (c.text device_tree_node)
    ++ labelled_line "Sysfs Node" (c.text sys_fs_node)
    ++ labelled_line "Sysfs Link Target: " (c.text sys_fs_link_target)
    ++ labelled_line "HAL UDI: " (c.text hal_udi)
    ++ labelled_line "Sysfs Device Class Node: " (c.text dev_class)
    ++ labelled_line "Parent ID: " (c.text parent_id)
    ++ labelled_line "Sysfs Name: " (c.text dev_sys_name)
    ++ labelled_line "Device Tree Name: " (c.text dev_tree_name)
    ++ labelled_line "Bus: " (c.text dev_bus)
    ++ labelled_line "Device Type: " (c.text dev_type)
    ++ labelled_line "Bus Address: " (c.text dev_bus_addr)
    ++ labelled_line "Loc Code: " (value_of c physical_location)
    ++ labelled_line "Second Location: " (c.text second_location)
    ++ flat_map (λ kid. kid ++ newline) c.children

-- A component with a version or a level, which is the device asked for, if any is.
unfoldable pub is_reported : Bytes → Component → Bool
unfolding contains
is_reported device c =
    (not (same (value_of c firmware_version) []) || not (same (value_of c firmware_level) []))
    && (same device [] || contains c.aix_names device)

-- `fwString`: the level with the version in parentheses, or the version alone
abbrev pub version_text : Bytes → Bytes → Bytes
version_text level version =
    if same level [] then version else level ++ codes " (" ++ version ++ codes ")"

unfoldable pub mcode_line : Component → Bytes
unfolding spaced_names
mcode_line c =
    spaced_names c.aix_names
    ++ codes "!"
    ++ value_of c model
    ++ codes "."
    ++ version_text (value_of c firmware_level) (value_of c firmware_version)
    ++ newline

-- `printVPD( Component* )`, of each leaf in turn
unfoldable pub print_mcodes : McodeFlags → Forest Component → Bytes
unfolding mcode_debug is_reported mcode_line
print_mcodes flags nil = []
print_mcodes flags (tree c leaves next) =
    (((if flags.debug then mcode_debug c else [])
        ++ (if is_reported flags.device c then mcode_line c else []))
      ++ print_mcodes flags leaves)
    ++ print_mcodes flags next

-- What `printSystem` comes to, and then the components, if they are asked for.
abbrev pub then_mcodes : Firmware → Bytes → Option Bytes
then_mcodes thrown rest = none
then_mcodes not_found rest = some rest
then_mcodes (printed text) rest = some (text ++ rest)

-- `printVPD( System* )`; `bmc` is what `printSystem` comes to on a system with a BMC.
unfoldable pub print_mcode_system :
    Option Firmware → McodeFlags → System → Forest Component → Option Bytes
unfolding print_firmware print_mcodes
print_mcode_system bmc flags sys forest =
    let no_device = same flags.device [] in
    let firmware : Firmware = elim bmc [ none ↦ print_firmware flags.all forest | some f ↦ f ] in
    let devices : Bytes = if not flags.all && no_device then [] else print_mcodes flags forest in
    let head : Bytes =
      (if flags.debug
        then labelled_line "ID: " sys.system_id
          ++ labelled_line "Device Tree Node: " sys.dev_tree_node
          ++ codes "Children: "
          ++ newline
          ++ flat_map (λ kid. kid ++ newline) sys.children
          ++ codes "-----------------------------"
          ++ newline
        else []) in
    Option.map (λ text. head ++ text)
      (then_mcodes (if no_device then firmware else not_found) devices)
