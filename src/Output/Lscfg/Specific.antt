-- ===== src/Output/Lscfg/Specific.antt =====
-- `printPlatform` and the two functions `printSpecific` of src/output/lscfg.cpp.
use lsvpd.Base.{
  Bool, List, [], ◌∷◌, ◌++◌, none, some, if◌then◌else◌, Bytes, codes, same, flat_map, ltb, length,
  contains_text, split_first,
}
use lsvpd.Gatherer.{Forest, nil, tree}
use lsvpd.Output.{
  component_id, dev_tree_node, description, record_type, model, serial_number, fru, part_number,
  micro_code_image, physical_location, SystemKey, machine_type, flag_field, brand, serial1,
  keyword_ver, location, Component, System, value_of, labelled, unless_empty, base_name,
}
use lsvpd.Output.Lscfg.{padded, print_field, optional_field, keyword_field, optional_keyword_field}

unfoldable pub platform_title : Bytes → List Bytes
unfolding padded
platform_title [] = []
platform_title (c ∷ cs) =
    (codes "      "
      ++ (if ltb 18 (length (c ∷ cs)) then c ∷ cs else padded b' ' 18 (c ∷ cs))
      ++ codes ":")
    ∷ []

unfoldable pub product_specific : Bytes → List Bytes
unfolding print_field
product_specific [] = []
product_specific (c ∷ cs) = print_field (codes "Product Specific.(RT)") (c ∷ cs)

-- `printPlatform`
unfoldable pub print_platform : Component → List Bytes
unfolding platform_title product_specific optional_field keyword_field optional_keyword_field
print_platform c =
    platform_title (value_of c description)
    ++ product_specific (value_of c record_type)
    ++ optional_field (c.item serial_number)
    ++ optional_field (c.item fru)
    ++ optional_field (c.item part_number)
    ++ flat_map keyword_field c.device_specific
    ++ optional_keyword_field (c.item micro_code_image)
    ++ flat_map keyword_field c.user_data
    ++ (if same (value_of c physical_location) []
        then []
        else labelled "      Physical Location: " (value_of c physical_location) ∷ [] ∷ [])

-- What is printed of a component whose node in the device tree has an address.
unfoldable pub specific_lines : Component → List Bytes
unfolding split_first
specific_lines c =
    let node = base_name (c.text dev_tree_node) in
    elim (split_first b'@' node) [
      | none ↦ []
      | some p ↦
          labelled "  Name:  " p.0
          ∷ (unless_empty (value_of c model)
                (codes "    " ++ (c.item model).human_name ++ labelled ":  " (value_of c model))
              ++ labelled "    Node:  " node
                ∷ (unless_empty (value_of c physical_location) (
                      codes "    "
                      ++ (c.item physical_location).human_name
                      ++ labelled ": " (value_of c physical_location))
                    ++ [] ∷ []))
    ]

-- `printSpecific( Component* )`, of each leaf in turn
unfoldable pub print_specifics : Forest Component → List Bytes
unfolding specific_lines
print_specifics nil = []
print_specifics (tree c leaves next) =
    (specific_lines c ++ print_specifics leaves) ++ print_specifics next

abbrev pub is_rtas : Component → Bool
is_rtas c = contains_text (codes "/rtas/") (c.text component_id)

-- The two loops over the leaves of the system.
unfoldable pub rtas_lines : Forest Component → List Bytes
unfolding print_platform contains_text
rtas_lines nil = []
rtas_lines (tree c leaves next) = (if is_rtas c then print_platform c else []) ++ rtas_lines next

unfoldable pub other_lines : Forest Component → List Bytes
unfolding print_specifics specific_lines contains_text
other_lines nil = []
other_lines (tree c leaves next) =
    (if is_rtas c then [] else specific_lines c ++ print_specifics leaves) ++ other_lines next

-- `printSpecific( System* )`
unfoldable pub print_system_specific : System → Forest Component → List Bytes
unfolding print_field rtas_lines other_lines
print_system_specific sys forest =
    if same sys.dev_tree_node []
    then []
    else []
      ∷ codes "  PLATFORM SPECIFIC"
      ∷ codes "  Name:"
      ∷ (codes "    "
          ++ (sys.item machine_type).human_name
          ++ labelled ":  " (sys.item machine_type).value)
      ∷ codes "    Node:  /"
      ∷ labelled "    Device Type:  " sys.arch
      ∷ []
      ∷ codes "      System VPD      :"
      ∷ (print_field (codes "Product Specific.(RT)") (sys.item SystemKey.record_type).value
          ++ flat_map (λ k. print_field (sys.item k).human_name (sys.item k).value)
              (flag_field ∷ brand ∷ serial1 ∷ machine_type ∷ keyword_ver ∷ [])
          ++ labelled "      Physical Location: " (sys.item location).value
            ∷ []
            ∷ (rtas_lines forest ++ other_lines forest))
