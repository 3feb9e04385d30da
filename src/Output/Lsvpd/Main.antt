-- ===== src/Output/Lsvpd/Main.antt =====
-- `printVPD( System* )` and `main` of src/output/lsvpd.cpp.
pub mod Laws
pub mod Options
use lsvpd.Base.{
  ℕ, Bool, true, false, ◌&&◌, List, [], ◌∷◌, ◌++◌, if◌then◌else◌, Option, none, some, Bytes, codes,
  same, map, starts_with,
}
use lsvpd.Gatherer.{Forest}
use lsvpd.Platform.{PlatformType, pf_null, pf_pseries_kvm_guest, pf_error}
use lsvpd.Output.{
  Item, SystemKey, machine_type, serial1, processor_id, os, serial2, feature_code, description,
  record_type, flag_field, brand, location, machine_model, suid, keyword_ver, Component, System,
  labelled, unless_empty,
}
use lsvpd.Output.Archive.{
  Outside, Fetched, fetched, failed, nothing, Result, ran, FileCall, unlinks, Unpacked, refused,
  unpacked, unpack, split_path, run_vpdupdate,
}
use lsvpd.Output.Lsvpd.{Flags, star_line, item_line, optional, marked, print_components}

-- The value of an option in place of the item's, if it is given.
abbrev given_or : Bytes → Item → List Bytes
given_or given i = if same given [] then optional i else star_line i.ac given ∷ []

system_debug : System → List Bytes
system_debug sys =
    labelled "ID: " sys.system_id
    ∷ labelled "Device Tree Node: " sys.dev_tree_node
    ∷ codes "Children: "
    ∷ sys.children

-- The block that is printed where there is a second serial number.
second_lines : Bool → System → List Bytes
second_lines m sys =
    star_line (sys.item feature_code).ac (marked m (sys.item feature_code).value)
    ∷ map (λ k. item_line (sys.item k))
        (description ∷ record_type ∷ flag_field ∷ brand ∷ location ∷ serial2 ∷ machine_model ∷ suid
          ∷ keyword_ver ∷ [])

unfoldable pub system_lines : Flags → System → List Bytes
unfolding system_debug second_lines
system_lines flags sys =
    codes "*VC 5.0"
    ∷ ((if flags.debug then system_debug sys else [])
        ++ given_or flags.machine_type (sys.item machine_type)
        ++ given_or flags.serial (sys.item serial1)
        ++ given_or flags.serial (sys.item processor_id)
        ++ optional (sys.item os)
        ++ (if same (sys.item serial2).value [] then [] else second_lines flags.marked_vpd sys)
        ++ map item_line sys.device_specific)

-- `printVPD( System* )`; `devType` is set in the listing of everything only.
unfoldable pub print_system : Flags → System → Forest Component → List Bytes
print_system flags sys forest =
    if same flags.dev_name []
    then system_lines flags sys ++ print_components (record flags { listed_type = sys.arch }) forest
    else print_components flags forest

-- The platforms that the program gives up on, with its status there.
unfoldable pub unsupported : PlatformType → Option ℕ
unsupported pf_pseries_kvm_guest = some 0
unsupported pf_null = some 1
unsupported pf_error = some 1
unsupported _ = none

-- What follows the constructor of `VpdRetriever`: `getComponentTree`, the output, and the file of
-- the archive is removed at the end.
unfoldable pub print_fetched : Bytes → Flags → Bool → List FileCall → Fetched → Result
unfolding starts_with
print_fetched dest flags compressed files (failed what) =
    ran
      (labelled "Error reading VPD DB: " what
        ∷ (if starts_with (codes "Failed to fetch VPD DB, it may be corrupt") what
            then run_vpdupdate dest " again, before running lsvpd." ∷ []
            else []))
      1 files
print_fetched dest flags compressed files nothing =
    ran [] 0 (files ++ (if compressed then unlinks flags.path ∷ [] else []))
print_fetched dest flags compressed files (fetched sys forest) =
    ran (print_system flags sys forest) 0
      (files ++ (if compressed then unlinks flags.path ∷ [] else []))

-- The database of the system.
unfoldable pub with_default : Bytes → Outside → Flags → Bool → Result
with_default dest w flags compressed = elim w.default_retriever [
  | none ↦ ran (run_vpdupdate dest " before running lsvpd." ∷ []) 1 []
  | some f ↦ print_fetched dest flags compressed [] f
]

-- The database of the path.
unfoldable pub with_path : Bytes → Outside → Flags → Bool → List FileCall → Result
unfolding split_path
with_path dest w flags compressed files =
    elim (w.retriever (split_path flags.path).0 (split_path flags.path).1) [
      | none ↦
          ran
            ((labelled "Unable to process vpd DB " flags.path ++ codes ". Possibly corrupted DB")
              ∷ codes "Please run vpdupdate command, before running lsvpd."
              ∷ [])
            1 files
      | some f ↦ print_fetched dest flags compressed files f
    ]

-- What follows the loop over the options. An archive is unpacked first, and its path is cut.
unfoldable pub lsvpd_run : Bytes → Outside → Flags → Bool → Result
unfolding unpack
lsvpd_run dest w flags compressed =
    if same flags.path []
    then with_default dest w flags compressed
    else if compressed
    then elim (unpack w flags.path) [
      | refused line files ↦ ran (line ∷ []) 1 files
      | unpacked path files ↦ with_path dest w (record flags { path = path }) true files
    ]
    else with_path dest w flags false []
