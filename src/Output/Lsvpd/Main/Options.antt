-- ===== src/Output/Lsvpd/Main/Options.antt =====
-- The loop over the options in `main` of src/output/lsvpd.cpp, and `main` itself.
use lsvpd.Base.{
  ℕ, Bool, true, false, List, [], ◌∷◌, ◌++◌, if◌then◌else◌, Option, none, some, Bytes, codes, same,
  ◌==◌,
}
use lsvpd.Platform.{PlatformType}
use lsvpd.Output.{Event}
use lsvpd.Output.Archive.{installed, Outside, Result, ran, undefined}
use lsvpd.Output.Lsvpd.{Flags}
use lsvpd.Output.Lsvpd.Main.{unsupported, lsvpd_run}

-- The variables of the loop: the global ones, and `compressed`.
pub record Options : Type 0 where
  pub flags : Flags
  pub compressed : Bool

-- A round of the loop goes on, or the program ends: `stop` with its status, after the usage or the
-- version.
pub data Round : Type 0 where
  go_on : Options → Round
  stop_usage : ℕ → Round
  stop_version : Round
  null_text : Round

-- `variable = optarg`, and `if( optarg != NULL ) variable = optarg`
abbrev pub assign : Option Bytes → (Bytes → Options) → Round
assign none f = null_text
assign (some arg) f = go_on (f arg)

abbrev pub assign_given : Options → Option Bytes → (Bytes → Options) → Round
assign_given o none f = go_on o
assign_given o (some arg) f = go_on (f arg)

-- The switch.
unfoldable pub option_round : Options → Event → Round
option_round o e =
    let flags = o.flags in
    if e.opt == b'm'
    then go_on (record o { flags = record flags { marked_vpd = true } })
    else if e.opt == b'v'
    then stop_version
    else if e.opt == b's'
    then assign_given o e.optarg (λ arg. record o { flags = record flags { serial = arg } })
    else if e.opt == b't'
    then assign_given o e.optarg (λ arg. record o { flags = record flags { machine_type = arg } })
    else if e.opt == b'p'
    then if same flags.path []
      then assign e.optarg (λ arg. record o { flags = record flags { path = arg } })
      else go_on o
    else if e.opt == b'z'
    then assign e.optarg (λ arg. record { flags = record flags { path = arg }; compressed = true })
    else if e.opt == b'l'
    then assign_given o e.optarg (λ arg. record o { flags = record flags { dev_name = arg } })
    else if e.opt == b'D'
    then go_on (record o { flags = record flags { debug = true } })
    else if e.opt == b'h'
    then stop_usage 0
    else stop_usage 255

-- The loop, over the events that are left; at the end comes the -1.
unfoldable pub option_loop : Options → List Event → Round
option_loop o [] = go_on o
option_loop o (e ∷ events) = elim (option_round o e) [
  | go_on o' ↦ option_loop o' events
  | stop_usage n ↦ stop_usage n
  | stop_version ↦ stop_version
  | null_text ↦ null_text
]

abbrev pub no_options : Options
no_options = record {
  flags = record {
    marked_vpd = false;
    debug = false;
    serial = [];
    machine_type = [];
    path = [];
    listed_type = [];
    dev_name = [];
  };
  compressed = false;
}

-- Arguments without an option among them (`first && argc > 1`) ask for the usage.
unfoldable pub options : Bool → List Event → Round
unfolding option_loop
options has_arguments [] = if has_arguments then stop_usage 0 else go_on no_options
options has_arguments (e ∷ events) = option_loop no_options (e ∷ events)

-- `printUsage` and `printVersion`, with the prefix and the version that the build sets
abbrev pub usage : Bytes → List Bytes
usage dest =
    (codes "Usage: " ++ installed dest "sbin/lsvpd [options]")
    ∷ codes "options: "
    ∷ codes " --help,       -h     print this usage message"
    ∷ codes " --list=DEV,   -lDEV  print info about given device (location code, AIX name)."
    ∷ codes " --debug,      -D     print extra information about devices (sysfs locations, etc)"
    ∷ codes " --version,    -v     print the version of vpd tools"
    ∷ codes " --mark,       -m     Mark VPD as global or partition-private."
    ∷ codes " --serial=STR, -sSTR  Use STR as serial number."
    ∷ codes " --type=STR,   -tSTR  Use STR as type/model number."
    ∷ codes " --path=DB,    -pDB   DB is the full path to VPD db file, used instead of default."
    ∷ codes " --zip=GZ,     -zGZ   File GZ contains database archive (overrides -d)."
    ∷ []

abbrev pub version_line : Bytes → Bytes
version_line version = codes "lsvpd " ++ version

-- `main`, with the version and the prefix that the build sets, the name of the platform, and whether
-- the user is root.
unfoldable pub lsvpd_main :
    Bytes → Bytes → Bytes → PlatformType → Bool → Bool → List Event → Outside → Result
unfolding unsupported
lsvpd_main version dest name platform is_root has_arguments events w = elim (unsupported platform) [
  | some status ↦
      ran ((codes "lsvpd is not supported on the " ++ name ++ codes " platform") ∷ []) status []
  | none ↦
      if is_root
      then elim (options has_arguments events) [
        | go_on o ↦ lsvpd_run dest w o.flags o.compressed
        | stop_usage status ↦ ran (usage dest) status []
        | stop_version ↦ ran (version_line version ∷ []) 0 []
        | null_text ↦ undefined
      ]
      else ran (codes "Must be run as root!" ∷ []) 255 []
]
