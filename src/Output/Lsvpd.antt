-- ===== src/Output/Lsvpd.antt =====
-- src/output/lsvpd.cpp: the listing of the database as lines that begin with a star. What is
-- written is `output_text` of them: a line with a newline in it is two on the output.
pub mod Laws
pub mod Main
use lsvpd.Base.{
  Bool, true, false, not, ◌&&◌, ◌||◌, List, [], ◌∷◌, ◌++◌, if◌then◌else◌, String, Bytes, codes,
  same, map, contains_text, flat_map, is_nil,
}
use lsvpd.Gatherer.{Forest, nil, tree}
use lsvpd.Output.{
  Item, Attribute, component_id, device_tree_node, sys_fs_node, sys_fs_link_target,
  device_driver_name, hal_udi, dev_class, parent_id, dev_sys_name, dev_tree_node, dev_bus, dev_type,
  dev_bus_addr, second_location, Key, feature_code, description, record_type, manufacturer, model,
  machine_serial, cd, net_addr, fru, firmware_version, manufacturer_id, firmware_level,
  serial_number, eng_change, part_number, n5, n6, micro_code_image, physical_location,
  keyword_version, Component, value_of, labelled, unless_empty, contains, base_name,
}

-- The global variables.
pub record Flags : Type 0 where
  pub marked_vpd : Bool
  pub debug : Bool
  pub serial : Bytes
  pub machine_type : Bytes
  pub path : Bytes
  pub listed_type : Bytes  -- devType
  pub dev_name : Bytes

-- `"*" << ac << " " << value`
abbrev pub star_line : Bytes → Bytes → Bytes
star_line ac value = b'*' ∷ (ac ++ b' ' ∷ value)

abbrev pub item_line : Item → Bytes
item_line i = star_line i.ac i.value

-- Each line with the newline of `endl`
abbrev pub output_text : List Bytes → Bytes
output_text [] = []
output_text (l ∷ ls) = l ++ 10 ∷ output_text ls

unfoldable pub optional : Item → List Bytes
optional i = unless_empty i.value (item_line i)

-- A feature code that is missing is marked where `--mark` is given.
abbrev pub marked : Bool → Bytes → Bytes
marked m code = if m && same code [] then codes "********" else code

abbrev pub described : Component → Bytes
described c =
    value_of c description ++ (if same (value_of c cd) [] then [] else b' ' ∷ value_of c cd)

-- Accounts for the output of AIX, which calls SZ the size.
unfoldable pub specific_line : Item → Bytes
specific_line i = if same i.ac (codes "SZ") then codes "*Size " ++ i.value else item_line i

-- The data items between the names and the device-specific ones.
abbrev pub plain_keys : List Key
plain_keys =
    manufacturer ∷ model ∷ machine_serial ∷ cd ∷ net_addr ∷ fru ∷ firmware_version ∷ manufacturer_id
    ∷ firmware_level ∷ serial_number ∷ eng_change ∷ part_number ∷ n5 ∷ n6 ∷ []

-- The description is printed with the value of CD behind it.
unfoldable pub description_lines : Component → List Bytes
description_lines c =
    unless_empty (value_of c description) (star_line (c.item description).ac (described c))

-- The lines behind the feature code, in the order of the code.
unfoldable pub value_lines : Component → List Bytes
value_lines c =
    description_lines c
    ++ optional (c.item record_type)
    ++ map item_line c.aix_names
    ++ flat_map (λ k. optional (c.item k)) plain_keys
    ++ map specific_line c.device_specific
    ++ optional (c.item micro_code_image)
    ++ map item_line c.user_data
    ++ optional (c.item physical_location)
    ++ optional (c.item keyword_version)

-- The lines of a component.
unfoldable pub vpd_lines : Bool → Component → List Bytes
vpd_lines m c =
    star_line (c.item feature_code).ac (marked m (value_of c feature_code)) ∷ value_lines c

-- Whether a component is in the listing.
unfoldable pub is_listed : Flags → Component → Bool
unfolding contains_text
is_listed flags c =
    let node = c.text dev_tree_node in
    (not (is_nil c.aix_names) || not (same (value_of c description) []))
    && not (same flags.listed_type (codes "chrp") && contains_text (codes "/vdevice/") node)
    && not (contains_text (codes "pci@") (base_name node))
    && not (contains_text (codes "isa@") (base_name node))

-- `--list` asks for it, by its location or one of its names.
unfoldable pub is_wanted : Flags → Component → Bool
unfolding contains
is_wanted flags c =
    same flags.dev_name []
    || same (value_of c physical_location) flags.dev_name
    || contains c.aix_names flags.dev_name

-- The lines of `--debug`.
abbrev filled_line : String → Component → Attribute → List Bytes
filled_line label c a = unless_empty (c.text a) (labelled label (c.text a))

abbrev child_lines : List Bytes → List Bytes
child_lines [] = []
child_lines (k ∷ kids) = codes "Child devices: " ∷ map (λ kid. codes "  " ++ kid) (k ∷ kids)

unfoldable pub debug_lines : Component → List Bytes
debug_lines c =
    labelled "ID: " (c.text component_id)
    ∷ (filled_line "Device Tree Node: " c device_tree_node
        ++ labelled "Sysfs Node: " (c.text sys_fs_node)
          ∷ labelled "Sysfs Link Target: " (c.text sys_fs_link_target)
          ∷ (filled_line "Device Driver:" c device_driver_name
              ++ filled_line "HAL UDI: " c hal_udi
              ++ labelled "Sysfs Device Class Node: " (c.text dev_class)
                ∷ labelled "Parent ID: " (c.text parent_id)
                ∷ labelled "Sysfs Name: " (c.text dev_sys_name)
                ∷ labelled "Bus: " (c.text dev_bus)
                ∷ (filled_line "Device Type: " c dev_type
                    ++ labelled "Bus Address: " (c.text dev_bus_addr)
                      ∷ labelled "Loc Code: " (value_of c physical_location)
                      ∷ labelled "Second Location: " (c.text second_location)
                      ∷ child_lines c.children)))

-- What `printVPD` writes for a component itself.
unfoldable pub print_one : Flags → Component → List Bytes
unfolding debug_lines
print_one flags c =
    (if flags.debug then debug_lines c else [])
    ++ (if is_listed flags c && is_wanted flags c then vpd_lines flags.marked_vpd c else [])
    ++ (if flags.debug then codes " ------------------------- " ∷ [] else [])

-- `printVPD( Component* )`, of each leaf in turn
unfoldable pub print_components : Flags → Forest Component → List Bytes
print_components flags nil = []
print_components flags (tree c leaves next) =
    (print_one flags c ++ print_components flags leaves) ++ print_components flags next
