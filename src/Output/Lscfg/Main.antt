-- ===== src/Output/Lscfg/Main.antt =====
-- `printVPD( System* )` and `main` of src/output/lscfg.cpp.
pub mod Laws
use lsvpd.Base.{
  ℕ, Bool, true, false, ◌&&◌, List, [], ◌∷◌, ◌++◌, if◌then◌else◌, Option, none, some, Bytes, codes,
  same, ltb, ◌==◌,
}
use lsvpd.Gatherer.{Forest}
use lsvpd.Platform.{PlatformType, pf_null, pf_pseries_kvm_guest, pf_error}
use lsvpd.Output.{SystemKey, machine_model, Component, System, Event, labelled}
use lsvpd.Output.Archive.{
  Outside, Fetched, fetched, failed, nothing, Result, ran, undefined, FileCall, unlinks, refused,
  unpacked, unpack, split_path, run_vpdupdate, installed,
}
use lsvpd.Output.Lscfg.{CfgFlags}
use lsvpd.Output.Lscfg.Component.{print_cfgs}
use lsvpd.Output.Lscfg.Specific.{print_system_specific}

-- The line of the model: its number, and the name that `getCPUModelName` found.
abbrev pub model_line : Bytes → Option Bytes → Bytes
model_line model none = labelled "  Model Name: " model
model_line [] (some name) = labelled "  Model Name: " name
model_line (c ∷ cs) (some name) = labelled "  Model Name: " (c ∷ cs) ++ codes ", " ++ name

unfoldable pub resource_lines : CfgFlags → System → Option Bytes → List Bytes
resource_lines flags sys name =
    (codes "INSTALLED RESOURCE LIST" ++ (if flags.verbose then codes " WITH VPD" else []))
    ∷ []
    ∷ codes "The following resources are installed on the machine."
    ∷ ((if flags.verbose
          then []
          else codes "+/- = Added or deleted from Resource List."
            ∷ codes "*   = Diagnostic support not available."
            ∷ [])
        ++ []
          ∷ labelled "  Model Architecture: " sys.arch
          ∷ (codes "  Model Implementation: "
              ++ (if ltb 1 sys.cpu_count
                  then codes "Multiple Processor"
                  else codes "Single Processor")
              ++ codes ", PCI Bus")
          ∷ model_line (sys.item machine_model).value name
          ∷ []
          ∷ (if same sys.dev_tree_node []
              then []
              else if flags.verbose
              then codes "  sys0                                   System Object"
                ∷ codes "  sysplanar0                             System Planar"
                ∷ []
              else codes "+ sys0                                   System Object"
                ∷ codes "+ sysplanar0                             System Planar"
                ∷ []))

module _ (matches : Bytes → Bytes → Bool) where
  -- `printVPD( System* )`, with the name of the processor, and `devFound` behind it
  unfoldable pub print_cfg_system :
      CfgFlags → System → Forest Component → Option Bytes → List Bytes × Bool
  unfolding resource_lines print_cfgs
  print_cfg_system flags sys forest name = (
    (if flags.debug
          then labelled "ID: " sys.system_id
            ∷ labelled "Device Tree Node: " sys.dev_tree_node
            ∷ codes "Children: "
            ∷ sys.children
          else [])
        ++ (if same flags.dev_name [] then resource_lines flags sys name else [])
        ++ (print_cfgs matches flags [] forest).0,
    (print_cfgs matches flags [] forest).1,
  )

  -- What follows the constructor of `VpdRetriever`; `name_of` is `getCPUModelName`.
  unfoldable pub print_cfg_fetched :
      (System → Option Bytes) → CfgFlags → Bool → List FileCall → Fetched → Result
  unfolding print_cfg_system print_system_specific
  print_cfg_fetched name_of flags compressed files (failed what) =
      ran
        (labelled "Error reading VPD DB: " what
          ∷ codes "Please run vpdupdate command, before running lscfg."
          ∷ [])
        1 files
  print_cfg_fetched name_of flags compressed files nothing =
      ran [] 0 (files ++ (if compressed then unlinks flags.path ∷ [] else []))
  print_cfg_fetched name_of flags compressed files (fetched sys forest) =
      let printed = print_cfg_system flags sys forest (name_of sys) in
      if printed.1
      then ran (printed.0 ++ (if flags.specific then print_system_specific sys forest else [])) 0
          (files ++ (if compressed then unlinks flags.path ∷ [] else []))
      else ran (printed.0 ++ (labelled "Device " flags.dev_name ++ codes " not found.") ∷ []) 1
          files

  -- The database of the path; that of the system is opened where there is none.
  unfoldable pub with_cfg_path :
      (System → Option Bytes) → Outside → CfgFlags → Bool → List FileCall → Result
  unfolding print_cfg_fetched split_path
  with_cfg_path name_of w flags compressed files =
      elim (w.retriever (split_path flags.path).0 (split_path flags.path).1) [
        | none ↦
            ran
              ((labelled "Unable to process vpd DB " flags.path ++ codes ". Possibly corrupted DB")
                ∷ codes "Please run vpdupdate command, before running lscfg."
                ∷ [])
              1 files
        | some f ↦ print_cfg_fetched name_of flags compressed files f
      ]

  unfoldable pub with_cfg_default :
      (System → Option Bytes) → Bytes → Outside → CfgFlags → Bool → Result
  unfolding print_cfg_fetched
  with_cfg_default name_of dest w flags compressed = elim w.default_retriever [
    | none ↦ ran (run_vpdupdate dest " before running lscfg." ∷ []) 1 []
    | some f ↦ print_cfg_fetched name_of flags compressed [] f
  ]

  -- What follows the loop over the options.
  unfoldable pub lscfg_run :
      (System → Option Bytes) → Bytes → Outside → CfgFlags → Bool → Bool → Result
  unfolding with_cfg_path with_cfg_default
  lscfg_run name_of dest w flags listdev compressed =
      if flags.specific && listdev
      then ran (codes "Unsupported combination of flags: -p not supported with -l." ∷ []) 1 []
      else if same flags.path []
      then with_cfg_default name_of dest w flags compressed
      else if compressed
      then elim (unpack w flags.path) [
        | refused line files ↦ ran (line ∷ []) 1 files
        | unpacked path files ↦ with_cfg_path name_of w (record flags { path = path }) true files
      ]
      else with_cfg_path name_of w flags false []

-- The variables of the loop over the options: the global ones, `listdev` and `compressed`.
pub record CfgOptions : Type 0 where
  pub flags : CfgFlags
  pub listdev : Bool
  pub compressed : Bool

pub data CfgRound : Type 0 where
  go_on : CfgOptions → CfgRound
  stop_usage : ℕ → CfgRound
  stop_version : CfgRound
  null_text : CfgRound

abbrev pub assign_cfg : Option Bytes → (Bytes → CfgOptions) → CfgRound
assign_cfg none f = null_text
assign_cfg (some arg) f = go_on (f arg)

-- `listdev = true; if( optarg != NULL ) devName = optarg;`
abbrev pub list_device : CfgOptions → Option Bytes → CfgRound
list_device o none = go_on (record o { listdev = true })
list_device o (some arg) =
    go_on (record o { listdev = true; flags = record o.flags { dev_name = arg } })

-- The switch.
unfoldable pub cfg_round : CfgOptions → Event → CfgRound
cfg_round o e =
    let flags = o.flags in
    if e.opt == b'v'
    then go_on (record o { flags = record flags { verbose = true } })
    else if e.opt == b'V'
    then stop_version
    else if e.opt == b'p'
    then go_on (record o { flags = record flags { specific = true } })
    else if e.opt == b'D'
    then go_on (record o { flags = record flags { debug = true } })
    else if e.opt == b'l'
    then list_device o e.optarg
    else if e.opt == b'd'
    then if same flags.path []
      then assign_cfg e.optarg (λ arg. record o { flags = record flags { path = arg } })
      else go_on o
    else if e.opt == b'z'
    then assign_cfg e.optarg
        (λ arg. record o { flags = record flags { path = arg }; compressed = true })
    else if e.opt == b'h'
    then stop_usage 0
    else stop_usage 255

unfoldable pub cfg_loop : CfgOptions → List Event → CfgRound
unfolding cfg_round
cfg_loop o [] = go_on o
cfg_loop o (e ∷ events) = elim (cfg_round o e) [
  | go_on o' ↦ cfg_loop o' events
  | stop_usage n ↦ stop_usage n
  | stop_version ↦ stop_version
  | null_text ↦ null_text
]

abbrev pub no_cfg_options : CfgOptions
no_cfg_options = record {
  flags = record { verbose = false; specific = false; debug = false; dev_name = []; path = [] };
  listdev = false;
  compressed = false;
}

unfoldable pub cfg_options : Bool → List Event → CfgRound
unfolding cfg_loop
cfg_options has_arguments [] = if has_arguments then stop_usage 0 else go_on no_cfg_options
cfg_options has_arguments (e ∷ events) = cfg_loop no_cfg_options (e ∷ events)

unfoldable pub cfg_unsupported : PlatformType → Option ℕ
cfg_unsupported pf_pseries_kvm_guest = some 0
cfg_unsupported pf_null = some 1
cfg_unsupported pf_error = some 1
cfg_unsupported _ = none

-- `printUsage` and `printVersion`, with the prefix and the version that the build sets
abbrev pub cfg_usage : Bytes → List Bytes
cfg_usage dest =
    (codes "Usage: " ++ installed dest "sbin/lscfg [options]")
    ∷ codes "options:"
    ∷ codes " --help,      -h     Print this message"
    ∷ codes " --debug,     -D     print extra information about devices (sysfs locations, etc)"
    ∷ codes " --version,   -V     print the version of vpd tools"
    ∷ codes " --verbose,   -v     Display VPD when available"
    ∷ codes " --specific,  -p     Display system-specific device information"
    ∷ codes " --list=NAME, -lNAME Displays device information for named device."
    ∷ codes " --data=DB,   -dDB   Displays vpd from specified database DB, instead of default"
    ∷ codes " --zip=GZ,    -zGZ   File GZ contains database archive (overrides -d)"
    ∷ []

abbrev pub cfg_version_line : Bytes → Bytes
cfg_version_line version = codes "lscfg " ++ version

-- `main`, with the version and the prefix that the build sets, `argv[0]`, the name of the platform,
-- and whether the user is root.
unfoldable pub lscfg_main :
    (Bytes → Bytes → Bool)
    → (System → Option Bytes)
    → Bytes
    → Bytes
    → Bytes
    → Bytes
    → PlatformType
    → Bool
    → Bool
    → List Event
    → Outside
    → Result
unfolding lscfg_run cfg_options cfg_unsupported
lscfg_main matches name_of version dest argv0 name platform is_root has_arguments events w =
    elim (cfg_unsupported platform) [
      | some status ↦
          ran ((argv0 ++ codes " is not supported on the " ++ name ++ codes " platform") ∷ [])
            status []
      | none ↦
          if is_root
          then elim (cfg_options has_arguments events) [
            | go_on o ↦ lscfg_run matches name_of dest w o.flags o.listdev o.compressed
            | stop_usage status ↦ ran (cfg_usage dest) status []
            | stop_version ↦ ran (cfg_version_line version ∷ []) 0 []
            | null_text ↦ undefined
          ]
          else ran (codes "Must be run as root!" ∷ []) 255 []
    ]
