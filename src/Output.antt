-- ===== src/Output.antt =====
-- The programs that print the database (src/output), and what they share. `Component`, `System` and
-- `DataItem` are classes of libvpd: the records hold what the getters return. A program writes to
-- `cout` line by line, so its output is the list of its lines, without the `endl` of each.
pub mod Archive
pub mod Lscfg
pub mod Lsmcode
pub mod Lsvio
pub mod Lsvpd
use lsvpd.Base.{
  ℕ, Bool, true, false, ◌||◌, List, [], ◌∷◌, ◌++◌, Option, none, some, if◌then◌else◌, Bytes, codes,
  same, after_last, String, ◌==◌,
}

-- `getAC`, `getHumanName` and `getValue` of a data item
pub record Item : Type 0 where
  pub ac : Bytes
  pub human_name : Bytes
  pub value : Bytes

-- The getters of plain texts: `getID`, `getDeviceTreeNode` and so on.
pub data Attribute : Type 0 where
  component_id device_tree_node sys_fs_node sys_fs_link_target device_driver_name : Attribute
  hal_udi dev_class parent_id dev_sys_name dev_tree_node dev_tree_name dev_bus dev_type : Attribute
  dev_bus_addr second_location : Attribute

-- The getters of data items: `getFeatureCode`, with `getFeatureCodeAC` and `getFeatureCodeHN`, and
-- so on.
pub data Key : Type 0 where
  feature_code description record_type manufacturer model machine_serial cd net_addr fru : Key
  firmware_version manufacturer_id firmware_level serial_number eng_change part_number : Key
  n5 n6 micro_code_image physical_location keyword_version : Key

pub record Component : Type 0 where
  pub text : Attribute → Bytes
  pub micro_code_level : Option Bytes  -- NULL is none
  pub item : Key → Item
  pub children : List Bytes
  pub aix_names : List Item
  pub device_specific : List Item
  pub user_data : List Item

pub data SystemKey : Type 0 where
  machine_type serial1 processor_id os serial2 feature_code description record_type : SystemKey
  flag_field brand location machine_model suid keyword_ver : SystemKey

pub record System : Type 0 where
  pub system_id : Bytes
  pub dev_tree_node : Bytes
  pub arch : Bytes
  pub cpu_count : ℕ
  pub item : SystemKey → Item
  pub children : List Bytes
  pub device_specific : List Item

abbrev pub value_of : Component → Key → Bytes
value_of c k = (c.item k).value

-- `label << value`
abbrev pub labelled : String → Bytes → Bytes
labelled label value = codes label ++ value

-- A line that is printed for a value that is not empty.
abbrev pub unless_empty : Bytes → Bytes → List Bytes
unless_empty value line = if same value [] then [] else line ∷ []

-- `contains`: one of the items has the value.
unfoldable pub contains : List Item → Bytes → Bool
contains [] name = false
contains (i ∷ items) name = same i.value name || contains items name

-- `node.substr( node.rfind( '/' ) + 1 )`
abbrev pub base_name : Bytes → Bytes
base_name node = after_last b'/' node

-- One return of `getopt_long` before the -1: the option, and `optarg` if it is not NULL.
pub record Event : Type 0 where
  pub opt : ℕ
  pub optarg : Option Bytes
