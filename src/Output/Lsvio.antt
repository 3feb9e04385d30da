-- ===== src/Output/Lsvio.antt =====
-- src/output/lsvio.cpp: the virtual adapters, and the SCSI devices behind them. A text of no
-- characters has no last one: `substr( length( ) - 1 )` throws `std::out_of_range` there, which
-- ends the program, and is none here.
pub mod Laws
pub mod Main
use lsvpd.Base.{
  Bool, true, false, ◌&&◌, ◌||◌, List, [], ◌∷◌, ◌++◌, Option, none, some, if◌then◌else◌, String,
  Bytes, codes, map, contains_text, flat_map, is_nil, split_first,
}
use mathlib.Core.Option
use lsvpd.Gatherer.{Forest, nil, tree}
use lsvpd.Output.{
  Item, Attribute, component_id, device_tree_node, sys_fs_node, sys_fs_link_target, hal_udi,
  dev_class, parent_id, dev_sys_name, dev_tree_node, dev_tree_name, dev_bus, dev_type, dev_bus_addr,
  second_location, physical_location, Component, System, value_of, labelled, base_name,
}

-- The global variables.
pub record VioFlags : Type 0 where
  pub scsi_adapters : Bool
  pub ethernet : Bool
  pub scsi_devices : Bool
  pub debug : Bool
  pub path : Bytes

unfoldable pub vio_debug_lines : Component → List Bytes
vio_debug_lines c =
    codes "-----------------------------"
    ∷ labelled "ID: " (c.text component_id)
    ∷ labelled "Deivce Tree Node: " (c.text device_tree_node)
    ∷ labelled "Sysfs Node: " (c.text sys_fs_node)
    ∷ labelled "Sysfs Link Target: " (c.text sys_fs_link_target)
    ∷ labelled "HAL UDI: " (c.text hal_udi)
    ∷ labelled "Sysfs Device Class Node: " (c.text dev_class)
    ∷ labelled "Parent ID: " (c.text parent_id)
    ∷ labelled "Sysfs Name: " (c.text dev_sys_name)
    ∷ labelled "Device Tree Name: " (c.text dev_tree_name)
    ∷ labelled "Bus: " (c.text dev_bus)
    ∷ labelled "Device Type: " (c.text dev_type)
    ∷ labelled "Bus Address: " (c.text dev_bus_addr)
    ∷ labelled "Loc Code: " (value_of c physical_location)
    ∷ labelled "Second Location: " (c.text second_location)
    ∷ c.children

-- The AIX names, each with a space behind it.
unfoldable pub spaced_names : List Item → Bytes
spaced_names names = flat_map (λ i. i.value ++ b' ' ∷ []) names

abbrev pub last_char : Bytes → Option Bytes
last_char [] = none
last_char (c ∷ []) = some (c ∷ [])
last_char (c ∷ d ∷ cs) = last_char (d ∷ cs)

-- `node.substr( 0, node.find( '@' ) )`
abbrev pub up_to_at : Bytes → Bytes
up_to_at node = elim (split_first b'@' node) [ none ↦ node | some p ↦ p.0 ]

-- The name of a device without AIX names: that of its node, with the last character of the node.
unfoldable pub node_name : Bytes → Option Bytes
unfolding split_first
node_name node =
    Option.map (λ last. up_to_at (base_name node) ++ last ++ b' ' ∷ []) (last_char (base_name node))

unfoldable pub name_of : List Item → Bytes → Option Bytes
unfolding spaced_names node_name
name_of [] node = node_name node
name_of (i ∷ names) node = some (spaced_names (i ∷ names))

abbrev pub scsi_name : Component → Option Bytes
scsi_name c = name_of c.aix_names (c.text dev_tree_node)

-- What is printed of a component: nothing, or its names.
pub data Shown : Type 0 where
  hidden network storage : Shown

unfoldable pub shown : VioFlags → Component → Shown
unfolding contains_text
shown flags c =
    let node = c.text dev_tree_node in
    if contains_text (codes "vdevice") node
    then if flags.ethernet
        && (contains_text (codes "ethernet") node || contains_text (codes "l-lan") node)
      then network
      else if (flags.scsi_adapters || flags.scsi_devices) && contains_text (codes "v-scsi") node
      then storage
      else hidden
    else if flags.scsi_devices
        && contains_text (codes "vio") (c.text sys_fs_link_target)
        && contains_text (codes "scsi") (c.text dev_bus)
    then storage
    else hidden

-- The line of a component.
unfoldable pub vio_lines : Shown → Component → Option (List Bytes)
unfolding spaced_names name_of
vio_lines hidden c = some []
vio_lines network c = some ((spaced_names c.aix_names ++ value_of c physical_location) ∷ [])
vio_lines storage c = Option.map (λ name. (name ++ value_of c physical_location) ∷ []) (scsi_name c)

unfoldable pub print_vio : VioFlags → Component → Option (List Bytes)
unfolding vio_debug_lines shown vio_lines
print_vio flags c =
    Option.map (λ lines. (if flags.debug then vio_debug_lines c else []) ++ lines)
      (vio_lines (shown flags c) c)

-- One after the other, unless the first throws.
abbrev pub then_print : Option (List Bytes) → Option (List Bytes) → Option (List Bytes)
then_print none later = none
then_print (some lines) later = Option.map (λ more. lines ++ more) later

-- `printVPD( Component* )`, of each leaf in turn
unfoldable pub print_vios : VioFlags → Forest Component → Option (List Bytes)
unfolding print_vio
print_vios flags nil = some []
print_vios flags (tree c leaves next) =
    then_print (then_print (print_vio flags c) (print_vios flags leaves)) (print_vios flags next)

-- `printVPD( System* )`
unfoldable pub print_vio_system : VioFlags → System → Forest Component → Option (List Bytes)
unfolding print_vios
print_vio_system flags sys forest =
    then_print
      (some (
        if flags.debug
        then labelled "ID: " sys.system_id
          ∷ labelled "Device Tree Node: " sys.dev_tree_node
          ∷ codes "Children: "
          ∷ sys.children
        else []))
      (print_vios flags forest)
