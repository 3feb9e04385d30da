-- ===== src/Output/Lscfg/Component.antt =====
-- `printVPD( Component* )` of src/output/lscfg.cpp. `HelperFunctions::matches` of libvpd, which
-- compares a name with a pattern, is an argument.
pub mod Laws
use lsvpd.Base.{
  ℕ, ◌+◌, Bool, true, false, not, ◌&&◌, ◌||◌, List, [], ◌∷◌, ◌++◌, Option, none, some,
  if◌then◌else◌, String, Bytes, codes, same, flat_map, is_nil, length, leb,
}
use lsvpd.Gatherer.{Forest, nil, tree}
use lsvpd.Output.{
  Item, component_id, device_tree_node, sys_fs_node, sys_fs_link_target, device_driver_name,
  hal_udi, dev_class, parent_id, dev_sys_name, dev_bus, dev_type, dev_bus_addr, second_location,
  Key, feature_code, description, manufacturer, model, machine_serial, cd, net_addr, fru,
  firmware_version, manufacturer_id, firmware_level, serial_number, eng_change, part_number,
  physical_location, Component, value_of, labelled, unless_empty, contains,
}
use lsvpd.Output.Lscfg.{
  CfgFlags, copies, padded, broken, broken_lines, optional_field, keyword_field,
  optional_keyword_field,
}

-- `AIXNamePrefs` up to the empty text. The comma between "serial*" and "tty*" is missing, so the
-- two literals are one pattern.
abbrev pub aix_name_prefs : List Bytes
aix_name_prefs =
    codes "en*"
    ∷ codes "eth*"
    ∷ codes "ehc*"
    ∷ codes "ath*"
    ∷ codes "hd*"
    ∷ codes "ide*"
    ∷ codes "sd*"
    ∷ codes "sr*"
    ∷ codes "sg*"
    ∷ codes "fb*"
    ∷ codes "ib*"
    ∷ codes "mouse*"
    ∷ codes "js*"
    ∷ codes "wlan*"
    ∷ codes "pcspk*"
    ∷ codes "input*"
    ∷ codes "audio*"
    ∷ codes "serial*tty*"
    ∷ codes "audio*"
    ∷ codes "usb_host*"
    ∷ codes "usbdev*"
    ∷ codes "usb*"
    ∷ codes "card*"
    ∷ codes "acpi*"
    ∷ codes "rsxx*"
    ∷ []

abbrev pub first_name : List Item → Bytes
first_name [] = []
first_name (i ∷ names) = i.value

abbrev indent : Bytes
indent = copies 41 b' '

-- The location: lines that it ends, and the line that the description stands in.
abbrev location_start : Bytes → Component → List Bytes × Bytes
location_start start c =
    let loc = value_of c physical_location in
    if leb (length loc) 22
    then ([], start ++ padded b' ' 22 loc)
    else ((start ++ loc) ∷ [], if same (value_of c description) [] then [] else indent)

-- The description and the value of CD.
abbrev described : Component → Bytes
described c =
    value_of c description ++ (if same (value_of c cd) [] then [] else b' ' ∷ value_of c cd)

unfoldable description_lines : Bytes → Component → List Bytes
unfolding padded broken
description_lines start c =
    if leb (length (value_of c cd) + length (value_of c description)) 35
    then (start ++ padded b' ' 38 (described c)) ∷ []
    else broken_lines start indent (broken 35 (described c))

-- The fields of --verbose.
unfoldable pub verbose_lines : Component → List Bytes
unfolding optional_field keyword_field optional_keyword_field
verbose_lines c =
    flat_map (λ k. optional_field (c.item k))
      (manufacturer ∷ model ∷ machine_serial ∷ eng_change ∷ fru ∷ manufacturer_id ∷ part_number
        ∷ serial_number ∷ feature_code ∷ firmware_version ∷ firmware_level ∷ net_addr ∷ [])
    ++ flat_map keyword_field c.device_specific
    ++ optional_keyword_field (c.item physical_location)
    ++ flat_map keyword_field c.user_data
    ++ [] ∷ []

unfoldable pub cfg_debug_lines : Component → List Bytes
cfg_debug_lines c =
    codes " ------------------------- "
    ∷ labelled "ID: " (c.text component_id)
    ∷ labelled "Device Tree Node: " (c.text device_tree_node)
    ∷ labelled "Sysfs Node: " (c.text sys_fs_node)
    ∷ labelled "Sysfs Link Target: " (c.text sys_fs_link_target)
    ∷ labelled "Description: " (value_of c description)
    ∷ (unless_empty (c.text device_driver_name)
          (labelled "Device Driver Name: " (c.text device_driver_name))
        ++ labelled "HAL UDI: " (c.text hal_udi)
          ∷ labelled "Sysfs Device Class Node: " (c.text dev_class)
          ∷ labelled "Parent ID: " (c.text parent_id)
          ∷ labelled "Sysfs Name: " (c.text dev_sys_name)
          ∷ labelled "Bus: " (c.text dev_bus)
          ∷ labelled "Device Type: " (c.text dev_type)
          ∷ labelled "Bus Address: " (c.text dev_bus_addr)
          ∷ labelled "Loc Code: " (value_of c physical_location)
          ∷ labelled "Second Location: " (c.text second_location)
          ∷ c.children)

-- A component is found if it has AIX names, and the name asked for, if any, is one of them or
-- its location.
unfoldable pub is_found : CfgFlags → Component → Bool
unfolding contains
is_found flags c =
    not (is_nil c.aix_names)
    && (same flags.dev_name []
        || contains c.aix_names flags.dev_name
        || same (value_of c physical_location) flags.dev_name)

module _ (matches : Bytes → Bytes → Bool) where
  -- The inner loop: the first name that the pattern fits.
  unfoldable pub name_with : Bytes → List Item → Option Bytes
  name_with pref [] = none
  name_with pref (i ∷ names) =
      let rest = name_with pref names in if matches pref i.value then some i.value else rest

  -- The outer loop, over the patterns in the order of preference.
  unfoldable pub preferred : List Bytes → List Item → Option Bytes
  unfolding name_with
  preferred [] names = none
  preferred (pref ∷ prefs) names = elim (name_with pref names) [
    | none ↦ preferred prefs names
    | some name ↦ some name
  ]

  -- The name of a component that is printed, or all of them.
  unfoldable pub shown_names : CfgFlags → Component → Bytes
  unfolding contains preferred
  shown_names flags c =
      let by_location =
        not (contains c.aix_names flags.dev_name)
        && same (value_of c physical_location) flags.dev_name in
      if flags.debug || flags.verbose
      then flat_map (λ i. i.value ++ b' ' ∷ []) c.aix_names
      else if not (same flags.dev_name []) && not by_location
      then flags.dev_name
      else elim (preferred aix_name_prefs c.aix_names) [
        | some name ↦ name
        | none ↦ first_name c.aix_names
      ]

  -- The first lines of a component.
  unfoldable pub name_lines : CfgFlags → Component → List Bytes
  unfolding shown_names padded description_lines
  name_lines flags c =
      let mark = if flags.verbose then codes "  " else codes "+ " in
      let names = padded b' ' 17 (shown_names flags c) in
      let start = if flags.debug then [] else mark ++ names in
      (if flags.debug
        then (mark ++ codes "Device Names: " ++ names) ∷ codes "Physical Location: " ∷ []
        else [])
      ++ (location_start start c).0
      ++ description_lines (location_start start c).1 c

  unfoldable pub print_cfg : CfgFlags → Component → List Bytes
  unfolding cfg_debug_lines is_found name_lines verbose_lines
  print_cfg flags c =
      (if flags.debug then cfg_debug_lines c else [])
      ++ (if is_found flags c
          then name_lines flags c ++ (if flags.verbose then verbose_lines c else [])
          else [])

  -- The lines, and whether `devFound` is set on the way. Of the leaves of a component, each has a
  -- line before it in --debug.
  unfoldable pub print_cfgs : CfgFlags → Bytes → Forest Component → List Bytes × Bool
  unfolding print_cfg
  print_cfgs flags before nil = ([], false)
  print_cfgs flags before (tree c leaves next) =
      let below = print_cfgs flags (codes " - Child Device - ") leaves in
      let later = print_cfgs flags before next in
      (
        (if flags.debug && not (same before []) then before ∷ [] else [])
            ++ print_cfg flags c
            ++ below.0
            ++ later.0,
        is_found flags c || below.1 || later.1,
      )
