-- ===== src/Output/Lsvio/Main.antt =====
-- `main` of src/output/lsvio.cpp.
pub mod Laws
use mathlib.Core.List.{reverse}
use lsvpd.Base.{
  ℕ, Bool, true, false, not, ◌&&◌, ◌||◌, List, [], ◌∷◌, ◌++◌, if◌then◌else◌, Option, none, some,
  Bytes, codes, same, ◌==◌,
}
use lsvpd.Vpd.Fields.{first_char}
use lsvpd.Gatherer.{Forest}
use lsvpd.Platform.{PlatformType, pf_null, pf_opal, pf_pseries_kvm_guest, pf_error}
use lsvpd.Output.{System, Component, Event, labelled}
use lsvpd.Output.Archive.{
  Outside, Fetched, fetched, failed, nothing, Result, ran, undefined, FileCall, unlinks, refused,
  unpacked, unpack, split_path, run_vpdupdate, installed,
}
use lsvpd.Output.Lsvio.{VioFlags, print_vio_system}

unfoldable pub vio_unsupported : PlatformType → Option ℕ
vio_unsupported pf_pseries_kvm_guest = some 0
vio_unsupported pf_opal = some 0
vio_unsupported pf_null = some 1
vio_unsupported pf_error = some 1
vio_unsupported _ = none

-- The variables of the loop: the global ones, and `compressed`.
pub record VioOptions : Type 0 where
  pub flags : VioFlags
  pub compressed : Bool

pub data VioRound : Type 0 where
  go_on : VioOptions → VioRound
  stop_usage : ℕ → VioRound
  stop_version : VioRound
  null_text : VioRound

-- `path = optarg`
abbrev pub assign_path : VioOptions → Option Bytes → Bool → VioRound
assign_path o none compressed = null_text
assign_path o (some arg) compressed =
    go_on (record { flags = record o.flags { path = arg }; compressed = compressed })

-- The switch.
unfoldable pub vio_round : VioOptions → Event → VioRound
vio_round o e =
    let flags = o.flags in
    if e.opt == b's'
    then go_on (record o { flags = record flags { scsi_adapters = true } })
    else if e.opt == b'v'
    then stop_version
    else if e.opt == b'e'
    then go_on (record o { flags = record flags { ethernet = true } })
    else if e.opt == b'd'
    then go_on (record o { flags = record flags { scsi_devices = true } })
    else if e.opt == b'p'
    then if same flags.path [] then assign_path o e.optarg o.compressed else go_on o
    else if e.opt == b'D'
    then go_on (record o {
      flags = record flags {
        debug = true;
        scsi_devices = true;
        scsi_adapters = true;
        ethernet = true;
      };
    })
    else if e.opt == b'z'
    then assign_path o e.optarg true
    else if e.opt == b'h'
    then stop_usage 0
    else stop_usage 255

unfoldable pub vio_loop : VioOptions → List Event → VioRound
unfolding vio_round
vio_loop o [] = go_on o
vio_loop o (e ∷ events) = elim (vio_round o e) [
  | go_on o' ↦ vio_loop o' events
  | stop_usage n ↦ stop_usage n
  | stop_version ↦ stop_version
  | null_text ↦ null_text
]

abbrev pub no_vio_options : VioOptions
no_vio_options = record {
  flags = record {
    scsi_adapters = false;
    ethernet = false;
    scsi_devices = false;
    debug = false;
    path = [];
  };
  compressed = false;
}

-- What is to be listed has to be said.
unfoldable pub need_kind : VioRound → VioRound
need_kind (go_on o) =
    if o.flags.scsi_adapters || o.flags.ethernet || o.flags.scsi_devices
    then go_on o
    else stop_usage 0
need_kind r = r

-- The loop, and the two tests that ask for the usage.
unfoldable pub vio_options : Bool → List Event → VioRound
unfolding vio_loop need_kind
vio_options has_arguments [] =
    if has_arguments then stop_usage 0 else need_kind (go_on no_vio_options)
vio_options has_arguments (e ∷ events) = need_kind (vio_loop no_vio_options (e ∷ events))

-- The two calls of `erase`: without the spaces at the start and at the end.
unfoldable pub skip_spaces : Bytes → Bytes
skip_spaces [] = []
skip_spaces (c ∷ cs) = if c == b' ' then skip_spaces cs else c ∷ cs

unfoldable pub trim_spaces : Bytes → Bytes
unfolding skip_spaces
trim_spaces path = reverse (skip_spaces (reverse (skip_spaces path)))

-- `!( path.empty() || path[0] != '/' || path.back() == '/' )`
abbrev pub is_file_path : Bytes → Bool
is_file_path path =
    not (same path [] || not (first_char path == b'/') || first_char (reverse path) == b'/')

abbrev pub removed : Bool → Bytes → List FileCall
removed compressed path = if compressed then unlinks path ∷ [] else []

-- What follows the constructor of `VpdRetriever`.
unfoldable pub print_vio_fetched : VioFlags → Bool → List FileCall → Fetched → Option Result
unfolding print_vio_system
print_vio_fetched flags compressed files (failed what) = some (
    ran
      (labelled "Error reading VPD DB: " what
        ∷ codes "Please run vpdupdate command, before running lsvio."
        ∷ [])
      1 files)
print_vio_fetched flags compressed files nothing =
    some (ran [] 0 (files ++ removed compressed flags.path))
print_vio_fetched flags compressed files (fetched sys forest) =
    if same sys.dev_tree_node []
    then some
        (ran (codes "lsvio is only implemented on systems that support virtual IO." ∷ []) 0 files)
    else elim (print_vio_system flags sys forest) [
      | none ↦ none
      | some lines ↦ some (ran lines 0 (files ++ removed compressed flags.path))
    ]

-- The constructor of `VpdRetriever`, for the path or for the system's database.
unfoldable pub with_vio_database :
    Bytes → VioFlags → Bool → List FileCall → Option Fetched → Option Result
unfolding print_vio_fetched
with_vio_database dest flags compressed files none =
    some (ran (run_vpdupdate dest " before running lsvio." ∷ []) 1 files)
with_vio_database dest flags compressed files (some f) = print_vio_fetched flags compressed files f

-- The database of a path, which has to be that of a file, from the root.
unfoldable pub with_vio_path : Bytes → Outside → VioFlags → Bool → List FileCall → Option Result
unfolding with_vio_database trim_spaces split_path
with_vio_path dest w flags compressed files =
    let path = trim_spaces flags.path in
    if is_file_path path
    then with_vio_database dest (record flags { path = path }) compressed files
        (w.retriever (split_path path).0 (split_path path).1)
    else some (
        ran (codes "Error: database path must be an absolute path including a filename." ∷ []) 1
          files)

-- What follows the loop over the options.
unfoldable pub lsvio_run : Bytes → Outside → VioOptions → Option Result
unfolding with_vio_path
lsvio_run dest w o =
    if same o.flags.path []
    then with_vio_database dest o.flags o.compressed [] w.default_retriever
    else if o.compressed
    then elim (unpack w o.flags.path) [
      | refused line files ↦ some (ran (line ∷ []) 1 files)
      | unpacked path files ↦ with_vio_path dest w (record o.flags { path = path }) true files
    ]
    else with_vio_path dest w o.flags false []

-- `printUsage` and `printVersion`, with the prefix and the version that the build sets
abbrev pub vio_usage : Bytes → List Bytes
vio_usage dest =
    (codes "Usage: " ++ installed dest "sbin/lsvio [options]")
    ∷ codes "options: "
    ∷ codes " --help,     -h   print this usage message"
    ∷ codes " --debug,    -D   print extra information about devices (sysfs locations, etc)"
    ∷ codes " --version,  -v   print the version of vpd tools"
    ∷ codes " --scsi,     -s   List virtual SCSI adapters"
    ∷ codes " --ethernet, -e   List virtual Ethernet adapters"
    ∷ codes " --devices,  -d   List virtual SCSI devices and associated adapters"
    ∷ codes " --path=DB,  -pDB DB is the full path to VPD db file, used instead of default."
    ∷ codes " --zip=GZ,   -zGZ File GZ contains database archive (overrides -p)."
    ∷ codes "At least one of -s, -e, -d must be given."
    ∷ []

abbrev pub vio_version_line : Bytes → Bytes
vio_version_line version = codes "lsvio " ++ version

-- `main`, with the version and the prefix that the build sets, the name of the platform, and whether
-- the user is root.
unfoldable pub lsvio_main :
    Bytes → Bytes → Bytes → PlatformType → Bool → Bool → List Event → Outside → Option Result
unfolding vio_unsupported lsvio_run vio_options
lsvio_main version dest name platform is_root has_arguments events w =
    elim (vio_unsupported platform) [
      | some status ↦ some (
          ran ((codes "lsvio is not supported on the " ++ name ++ codes " platform") ∷ []) status
            [])
      | none ↦
          if is_root
          then elim (vio_options has_arguments events) [
            | go_on o ↦ lsvio_run dest w o
            | stop_usage status ↦ some (ran (vio_usage dest) status [])
            | stop_version ↦ some (ran (vio_version_line version ∷ []) 0 [])
            | null_text ↦ some undefined
          ]
          else some (ran (codes "Must be run as root!" ∷ []) 255 [])
    ]
