-- ===== src/Output/Lsmcode/Main.antt =====
-- `main` of src/output/lsmcode.cpp.
use lsvpd.Base.{
  ℕ, Bool, true, false, not, ◌&&◌, List, [], ◌∷◌, ◌++◌, if◌then◌else◌, Option, none, some, Bytes,
  codes, same, ◌==◌,
}
use lsvpd.Platform.{PlatformType, pf_null, pf_pseries_kvm_guest, pf_error}
use lsvpd.Output.{Event}
use lsvpd.Output.Archive.{
  Outside, Fetched, fetched, failed, nothing, FileCall, unlinks, refused, unpacked, unpack,
  split_path, run_vpdupdate, installed,
}
use lsvpd.Output.Lsmcode.{Firmware, McodeFlags, newline, labelled_line, print_mcode_system}
use lsvpd.Output.Lsmcode.Bmc.{BmcAnswers, print_bmc}

-- The end of the program: its output, the status, and what it did to files; an exception that is
-- not caught; or a NULL text.
pub data McodeResult : Type 0 where
  ran : Bytes → ℕ → List FileCall → McodeResult
  terminated : McodeResult
  undefined : McodeResult

unfoldable pub mcode_unsupported : PlatformType → Option ℕ
mcode_unsupported pf_pseries_kvm_guest = some 0
mcode_unsupported pf_null = some 1
mcode_unsupported pf_error = some 1
mcode_unsupported _ = none

-- What follows the constructor of `VpdRetriever`; the argument is there on a system with a BMC.
unfoldable pub print_mcode_fetched :
    Option BmcAnswers → McodeFlags → Bool → List FileCall → Fetched → McodeResult
unfolding print_mcode_system print_bmc
print_mcode_fetched bmc flags compressed files (failed what) =
    ran
      (labelled_line "Error reading VPD DB: " what
        ++ labelled_line "Please run vpdupdate command, before running lsmcode." [])
      1 files
print_mcode_fetched bmc flags compressed files nothing =
    ran [] 0 (files ++ (if compressed then unlinks flags.path ∷ [] else []))
print_mcode_fetched bmc flags compressed files (fetched sys forest) =
    let firmware : Option Firmware = elim bmc [
      | none ↦ none
      | some a ↦ some (print_bmc flags.all a)
    ] in
    elim (print_mcode_system firmware flags sys forest) [
      | none ↦ terminated
      | some text ↦ ran text 0 (files ++ (if compressed then unlinks flags.path ∷ [] else []))
    ]

-- The database of the path.
unfoldable pub with_mcode_path :
    Option BmcAnswers → Outside → McodeFlags → Bool → List FileCall → McodeResult
unfolding print_mcode_fetched split_path
with_mcode_path bmc w flags compressed files =
    elim (w.retriever (split_path flags.path).0 (split_path flags.path).1) [
      | none ↦
          ran
            (codes "Unable to process vpd DB "
              ++ flags.path
              ++ codes ". Possibly corrupted DB"
              ++ newline
              ++ labelled_line "Please run vpdupdate command, before running lsmcode." [])
            1 files
      | some f ↦ print_mcode_fetched bmc flags compressed files f
    ]

-- What follows the loop over the options.
unfoldable pub lsmcode_run : Bytes → Option BmcAnswers → Outside → McodeFlags → Bool → McodeResult
unfolding print_mcode_fetched with_mcode_path unpack run_vpdupdate
lsmcode_run dest bmc w flags compressed =
    if flags.all && not (same flags.device [])
    then ran (labelled_line "-A option conflicts with -d." []) 1 []
    else if same flags.path []
    then elim w.default_retriever [
      | none ↦ ran (run_vpdupdate dest " before running lsmcode." ++ newline) 1 []
      | some f ↦ print_mcode_fetched bmc flags compressed [] f
    ]
    else if compressed
    then elim (unpack w flags.path) [
      | refused line files ↦ ran (line ++ newline) 1 files
      | unpacked path files ↦ with_mcode_path bmc w (record flags { path = path }) true files
    ]
    else with_mcode_path bmc w flags false []

-- The variables of the loop over the options: the global ones, and `compressed`.
pub record McodeOptions : Type 0 where
  pub flags : McodeFlags
  pub compressed : Bool

pub data McodeRound : Type 0 where
  go_on : McodeOptions → McodeRound
  stop_usage : ℕ → McodeRound
  stop_version : McodeRound
  second_device : McodeRound
  null_text : McodeRound

abbrev pub assign_mcode : Option Bytes → (Bytes → McodeOptions) → McodeRound
assign_mcode none f = null_text
assign_mcode (some arg) f = go_on (f arg)

-- The switch.
unfoldable pub mcode_round : McodeOptions → Event → McodeRound
mcode_round o e =
    let flags = o.flags in
    if e.opt == b'v'
    then stop_version
    else if e.opt == b'A'
    then go_on (record o { flags = record flags { all = true } })
    else if e.opt == b'D'
    then go_on (record o { flags = record flags { debug = true } })
    else if e.opt == b'd'
    then if same flags.device []
      then assign_mcode e.optarg (λ arg. record o { flags = record flags { device = arg } })
      else second_device
    else if e.opt == b'p'
    then if same flags.path []
      then assign_mcode e.optarg (λ arg. record o { flags = record flags { path = arg } })
      else go_on o
    else if e.opt == b'z'
    then assign_mcode e.optarg
        (λ arg. record o { flags = record flags { path = arg }; compressed = true })
    else if e.opt == b'h'
    then stop_usage 0
    else stop_usage 1

unfoldable pub mcode_loop : McodeOptions → List Event → McodeRound
unfolding mcode_round
mcode_loop o [] = go_on o
mcode_loop o (e ∷ events) = elim (mcode_round o e) [
  | go_on o' ↦ mcode_loop o' events
  | stop_usage n ↦ stop_usage n
  | stop_version ↦ stop_version
  | second_device ↦ second_device
  | null_text ↦ null_text
]

abbrev pub no_mcode_options : McodeOptions
no_mcode_options = record {
  flags = record { all = false; debug = false; device = []; path = [] };
  compressed = false;
}

unfoldable pub mcode_options : Bool → List Event → McodeRound
unfolding mcode_loop
mcode_options has_arguments [] = if has_arguments then stop_usage 0 else go_on no_mcode_options
mcode_options has_arguments (e ∷ events) = mcode_loop no_mcode_options (e ∷ events)

-- `printUsage` and `printVersion`, with the prefix and the version that the build sets
abbrev pub mcode_usage : Bytes → Bytes
mcode_usage dest =
    codes "Usage: "
    ++ installed dest "sbin/lsmcode [options]"
    ++ newline
    ++ labelled_line "options: " []
    ++ labelled_line " --help,       -h     print this usage message" []
    ++ labelled_line
        " --debug,      -D     print extra information about devices (sysfs locations, etc)" []
    ++ labelled_line " --version,    -v     print the version of vpd tools" []
    ++ labelled_line
        " --All,        -A     Display microcode level for as many devices as possible." []
    ++ labelled_line
        " --device=DEV, -dDEV  Only display microcode level for specified device (DEV)." []
    ++ labelled_line
        " --path=DB,    -pDB   DB is the full path to VPD db file, used instead of default." []
    ++ labelled_line " --zip=GZ,     -zGZ   File GZ contains database archive (overrides -d)." []

abbrev pub mcode_version_line : Bytes → Bytes
mcode_version_line version = labelled_line "lsmcode " version

-- `main`, with the version and the prefix that the build sets, the name of the platform, and whether
-- the user is root.
unfoldable pub lsmcode_main :
    Bytes
    → Bytes
    → Bytes
    → PlatformType
    → Option BmcAnswers
    → Bool
    → Bool
    → List Event
    → Outside
    → McodeResult
unfolding mcode_unsupported lsmcode_run mcode_options
lsmcode_main version dest name platform bmc is_root has_arguments events w =
    elim (mcode_unsupported platform) [
      | some status ↦
          ran (codes "lsmcode is not supported on the " ++ name ++ codes " platform" ++ newline)
            status []
      | none ↦
          if is_root
          then elim (mcode_options has_arguments events) [
            | go_on o ↦ lsmcode_run dest bmc w o.flags o.compressed
            | stop_usage status ↦ ran (mcode_usage dest) status []
            | stop_version ↦ ran (mcode_version_line version) 0 []
            | second_device ↦ ran (labelled_line "Please specify at most one device." []) 1 []
            | null_text ↦ undefined
          ]
          else ran (labelled_line "Must be run as root!" []) 255 []
    ]
