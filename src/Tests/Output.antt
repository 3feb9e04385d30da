-- ===== src/Tests/Output.antt =====
-- The printing programs at concrete components.
use lsvpd.Base.{
  ℕ, zero, suc, Bool, true, false, List, [], ◌∷◌, ◌++◌, ◌≡◌, ◌↔◌, refl, arith, none, some, Bytes,
  codes, same, map, flat_map, select, is_nil, if◌then◌else◌,
}
use lsvpd.Gatherer.{Forest, nil, tree, nodes}
use lsvpd.Output.{
  Item, Attribute, dev_tree_node, Key, feature_code, description, physical_location, Component,
  System, Event, base_name,
}
use lsvpd.Output.Archive.{
  Outside, Archived, fetched, writes, unlinks, ran, uncompress, unpack, write_out,
  uncompressed_path,
}
use lsvpd.Output.Archive.Laws.{IsWriter, uncompress-all}
use lsvpd.Output.Lsvpd.{Flags, output_text, vpd_lines, print_components}
use lsvpd.Output.Lsvpd.Laws.{
  is_printed, print_components-selected, lines, read_entry, vpd_entries, value_entries, present,
  description_entry, specific_entry, read-vpd_lines,
}
use lsvpd.Output.Lsvpd.Main.{lsvpd_run}
use lsvpd.Output.Lsvpd.Main.Options.{Options, no_options, option_loop, option_round}
use lsvpd.Output.Lsvpd.Main.Laws.{Ends, lsvpd_run-Ends, option_loop-zip}
use lsvpd.Output.Lsvio.{VioFlags, shown, storage, print_vio}
use lsvpd.Output.Lsvio.Laws.{print_vio-none}
use lsvpd.Output.Lscfg.{CfgFlags, broken}
use lsvpd.Output.Lscfg.Wrap.{IsBroken, broken-IsBroken}
use lsvpd.Output.Lscfg.Component.{is_found}
use lsvpd.Output.Lscfg.Main.{print_cfg_fetched}
use lsvpd.Output.Lscfg.Main.Laws.{print_cfg_fetched-found}
use lsvpd.Output.Lsmcode.{newline, print_firmware}
use lsvpd.Output.Lsmcode.Bmc.{bmc_get_fw_dt_info, bmc_get_product_version}
use lsvpd.Output.Lsmcode.Laws.{
  first_firmware, print_firmware-first, bmc_get_product_version-version,
}

abbrev item : Bytes → Bytes → Item
item keyword text = record { ac = keyword; human_name = codes "Name"; value = text }

abbrev disk_item : Key → Item
disk_item description = item (codes "DS") (codes "Disk")
disk_item physical_location = item (codes "YL") (codes "U1-D1")
disk_item feature_code = item (codes "FC") []
disk_item _ = item (codes "XX") []

abbrev disk_text : Attribute → Bytes
disk_text dev_tree_node = codes "/pci/scsi@1"
disk_text _ = []

abbrev disk : Component
disk = record {
  text = disk_text;
  micro_code_level = none;
  item = disk_item;
  children = [];
  aix_names = item (codes "AX") (codes "sda") ∷ [];
  device_specific = item (codes "SZ") (codes "100") ∷ [];
  user_data = [];
}

-- A bus, which is not listed.
abbrev bus : Component
bus = record disk { aix_names = []; item = λ k. item (codes "XX") [] }

abbrev forest : Forest Component
forest = tree bus (tree disk nil nil) (tree disk nil nil)

abbrev system : System
system = record {
  system_id = codes "/";
  dev_tree_node = codes "/";
  arch = codes "chrp";
  cpu_count = 2;
  item = λ k. item (codes "YY") [];
  children = [];
  device_specific = [];
}

abbrev flags : Flags
flags = record no_options.flags { path = codes "/tmp/db" }

print_components-selected_example :
    print_components flags forest
    ≡ flat_map (vpd_lines false) (select (is_printed flags) (nodes forest))
print_components-selected_example = print_components-selected flags forest refl

read-vpd_lines_example :
    map read_entry (lines (output_text (vpd_lines true disk))) ≡ map some (vpd_entries true disk)
unfolding value_entries present description_entry specific_entry same
read-vpd_lines_example = read-vpd_lines true disk (
  (refl, refl, refl),
  ((refl, refl, refl), ((refl, refl, refl), ((refl, refl, refl), ((refl, refl, refl), tt)))),
)

-- The first call takes one byte, the others take all.
abbrev first_short : ℕ → ℕ → ℕ
first_short zero n = 1
first_short (suc call) n = n

first_short-IsWriter : IsWriter first_short
first_short-IsWriter zero n = (omega arith, omega arith)
first_short-IsWriter (suc call) n = (omega arith, omega arith)

uncompress-all_example :
    uncompress first_short 0 (codes "abc" ∷ codes "de" ∷ [])
    ≡ flat_map (λ c. c) (codes "abc" ∷ codes "de" ∷ [])
uncompress-all_example =
    uncompress-all first_short first_short-IsWriter 0 (codes "abc" ∷ codes "de" ∷ [])

abbrev archive : Archived
archive = record { chunks = codes "abc" ∷ []; closes = true }

abbrev world : Outside
world = record {
  gzopen = λ path. some archive;
  opens = λ path. true;
  takes = first_short;
  gzerror = [];
  retriever = λ env db. some (fetched system forest);
  default_retriever = none;
}

abbrev gz_flags : Flags
gz_flags = record flags { path = codes "/tmp/db.gz" }

lsvpd_run-Ends_example :
    Ends
      (lsvpd_run [] world gz_flags true)
      (writes (codes "/tmp/db") (codes "abc") ∷ [])
      (codes "/tmp/db")
unfolding unpack write_out uncompressed_path same
lsvpd_run-Ends_example =
    lsvpd_run-Ends [] world gz_flags (codes "/tmp/db") (writes (codes "/tmp/db") (codes "abc") ∷ [])
      refl refl

abbrev zip : Event
zip = record { opt = b'z'; optarg = some (codes "/tmp/db.gz") }

abbrev path_option : Event
path_option = record { opt = b'p'; optarg = some (codes "/other") }

abbrev the_end : Options
the_end = record {
  flags = record no_options.flags { path = codes "/tmp/db.gz" };
  compressed = true;
}

option_loop-zip_example : (the_end.flags.path ≡ codes "/tmp/db.gz") × (the_end.compressed ≡ true)
unfolding option_loop option_round same
option_loop-zip_example =
    option_loop-zip no_options the_end (path_option ∷ []) (path_option ∷ []) (codes "/tmp/db.gz")
      refl (refl, tt) refl

abbrev vio_flags : VioFlags
vio_flags = record {
  scsi_adapters = false;
  ethernet = false;
  scsi_devices = true;
  debug = false;
  path = [];
}

-- A disk behind a virtual adapter, which has neither names nor a node.
abbrev nameless_text : Attribute → Bytes
nameless_text Attribute.sys_fs_link_target = codes "/sys/devices/vio/30000003/host0"
nameless_text Attribute.dev_bus = codes "scsi"
nameless_text _ = []

abbrev nameless : Component
nameless = record disk { aix_names = []; text = nameless_text }

print_vio-none_example : (print_vio vio_flags nameless ≡ none) ↔ (
    (shown vio_flags nameless ≡ storage)
    × (nameless.aix_names ≡ [])
    × (base_name (nameless.text dev_tree_node) ≡ []))
print_vio-none_example = print_vio-none vio_flags nameless

broken-IsBroken_example : IsBroken 5 (codes "ab cd efgh") (broken 5 (codes "ab cd efgh"))
broken-IsBroken_example = broken-IsBroken 5 (codes "ab cd efgh")

abbrev cfg_flags : CfgFlags
cfg_flags = record {
  verbose = true;
  specific = false;
  debug = false;
  dev_name = [];
  path = codes "/tmp/db";
}

abbrev exact : Bytes → Bytes → Bool
exact = same

print_cfg_fetched-found_example :
    (lines : List Bytes) × (print_cfg_fetched exact
        (λ sys. none)
        cfg_flags
        true
        []
        (fetched system forest)
      ≡ (if is_nil (select (is_found cfg_flags) (nodes forest))
          then ran lines 1 []
          else ran lines 0 (unlinks (codes "/tmp/db") ∷ [])))
print_cfg_fetched-found_example =
    print_cfg_fetched-found exact (λ sys. none) cfg_flags true [] system forest

abbrev firmware : Component
firmware = record disk {
  item = λ k. elim k [
    | description ↦ item (codes "DS") (codes "System Firmware")
    | _ ↦ item (codes "MI") (codes "A B C")
  ];
}

print_firmware-first_example :
    print_firmware false (tree bus (tree firmware nil nil) nil)
    ≡ first_firmware false (bus ∷ firmware ∷ [])
print_firmware-first_example = print_firmware-first false (tree bus (tree firmware nil nil) nil)

abbrev property : Bytes → Bytes
property name = codes "v1.2"

bmc_get_product_version-version_example :
    bmc_get_product_version
      (bmc_get_fw_dt_info (some (codes "version" ∷ codes "skiboot" ∷ [])) (λ name. true) property)
    ≡ codes "v1.2" ++ newline
unfolding same
bmc_get_product_version-version_example =
    bmc_get_product_version-version (codes "version" ∷ codes "skiboot" ∷ []) (λ name. true) property
      (codes "v1.2") refl refl refl refl
