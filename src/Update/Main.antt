-- ===== src/Update/Main.antt =====
-- The run of vpdupdate (src/internal/updater.cpp): the database of the Spyre devices, the signal
-- handler, `initializeDB` and `main`. `C` is libvpd's `Component`; a database of libvpd is what its
-- operations do. Messages to the log are left out.
pub mod Laws
use lsvpd.Base.{
  ℕ, suc, Bool, true, false, ◌&&◌, ◌||◌, List, [], ◌∷◌, ◌++◌, Option, none, some, if◌then◌else◌,
  Bytes, codes, same, length, ◌==◌,
}
use lsvpd.Gatherer.{Forest}
use lsvpd.Platform.{PlatformType, pf_null, pf_pseries_kvm_guest, pf_error}
use lsvpd.Output.{Event}
use lsvpd.Output.Archive.{split_last}
use lsvpd.Update.{FileSystem, stat, unlink, inside}
use lsvpd.Update.Environment.{Ensured, ready, refused, out_of_fuel, ensure_env}
use lsvpd.Update.Archive.{Answers, Ending, remove_old_archives, archive_db}
use lsvpd.Update.Store.{store_system}

-- `isSpyreDevice`, of the first line of the file `device`, if that opens
unfoldable pub is_spyre_device : Option Bytes → Bool
is_spyre_device none = false
is_spyre_device (some line) = same line (codes "0x06a7") || same line (codes "0x06a8")

module _ {ℓ κ} {C : Type ℓ} {Db : Type κ} where
  -- `extractSpyreData`: the loop over the keys of the old database, where `fetch` gives a component
  -- or NULL.
  unfoldable pub extract_spyre_data :
      (Bytes → Option C) → (C → Option Bytes) → (Db → C → Db) → List Bytes → Db → Db
  unfolding is_spyre_device
  extract_spyre_data fetch line store [] db = db
  extract_spyre_data fetch line store (key ∷ keys) db =
      if same key [] || same key (codes "/sys/bus")
      then extract_spyre_data fetch line store keys db
      else elim (fetch key) [
        | none ↦ extract_spyre_data fetch line store keys db
        | some c ↦
            if is_spyre_device (line c)
            then extract_spyre_data fetch line store keys (store db c)
            else extract_spyre_data fetch line store keys db
      ]

-- `SPYRE_DB_FILENAME`, and the lock beside it
abbrev pub spyre_db_filename : Bytes
spyre_db_filename = codes "spyre.db"

abbrev pub spyre_lock : Bytes
spyre_lock = codes "spyre.db-updatelock"

-- `cleanupSpyreFiles`
unfoldable pub cleanup_spyre_files : Bytes → FileSystem → FileSystem
unfolding unlink
cleanup_spyre_files env fs =
    unlink (inside env spyre_lock) (unlink (inside env spyre_db_filename) fs)

-- The global variables: `env`, `file`, whether `db` and `dblock` are not NULL, and the files.
pub record Updater : Type 0 where
  pub env : Bytes
  pub file : Bytes
  pub db_open : Bool
  pub locked : Bool  -- dblock
  pub files : FileSystem

abbrev pub full_path : Updater → Bytes
full_path u = inside u.env u.file

-- `__lsvpdInit`: the handler is set and the database is opened, unless there is no memory for it.
unfoldable pub lsvpd_init : Bool → Updater → Updater × Bool
lsvpd_init memory u = (record u { db_open = memory }, memory)

-- `__lsvpdFini`, where closing the database may throw
unfoldable pub lsvpd_fini : Bool → Updater → Updater
lsvpd_fini throws u =
    if u.db_open
    then record u { db_open = false; locked = if throws then u.locked else false }
    else u

-- `lsvpdSighandler`, for the signals that it is set for
unfoldable pub lsvpd_sighandler : Bool → Updater → Updater
unfolding lsvpd_fini unlink
lsvpd_sighandler throws u =
    lsvpd_fini throws (if u.locked then record u { files = unlink (full_path u) u.files } else u)

-- What the machine and libvpd answer: the umask, of which directories `mkdir` succeeds, the names that
-- `scandir` gives, what `archiveDB` meets, the time of the last change of the database; whether
-- there is memory for the database of the Spyre devices, and for the new one; the tree of
-- `getComponentTree`, by whether inquiries are limited, none if it throws; the operations of the new database, and whether closing it throws.
pub record Machine {ℓ κ} (C : Type ℓ) (Db : Type κ) : Type (ℓ ⊔ κ) where
  pub umask : ℕ
  pub makes : Bytes → Bool
  pub names : List Bytes
  pub answers : Answers
  pub stamp : Bytes
  pub spyre_opens : Bool
  pub memory : Bool
  pub gather : Bool → Option (Forest C)
  pub store_root : Db × Bool
  pub store : Db → C → Db × Bool
  pub throws : Bool

-- How `initializeDB` ends: it returns, with the database if it comes to one, and 0 or -1; or an
-- exception leaves it, which nothing catches.
pub data Initialized {κ} (Db : Type κ) : Type κ where
  returned : Updater → Option Db → Bool → Initialized Db
  thrown : Updater → Initialized Db

module _ {ℓ κ} {C : Type ℓ} {Db : Type κ} (m : Machine C Db) where
  -- The database of the Spyre devices is removed, and opened again.
  abbrev pub spyre_init : Updater → FileSystem → FileSystem
  spyre_init u fs = unlink (inside u.env spyre_db_filename) fs

  -- The part of `initializeDB` behind that: the old archives are gone, and the old database is
  -- archived; from here on the signal handler removes the new one.
  unfoldable pub archive_old : Updater → FileSystem → Updater
  unfolding unlink remove_old_archives archive_db
  archive_old u fs =
      let cleaned = remove_old_archives u.env m.names (spyre_init u fs) in
      record u {
        files = (archive_db m.answers (full_path u) u.file m.stamp cleaned).1;
        locked = true;
      }

  -- The tree is gathered and stored.
  unfoldable pub store_gathered : Updater → Option (Forest C) → Initialized Db
  unfolding store_system
  store_gathered u none = thrown u
  store_gathered u (some forest) =
      let stored = store_system m.store m.store_root forest in returned u (some stored.0) stored.1

  -- `initializeDB`
  unfoldable pub initialize_db : Bool → Updater → Initialized Db
  unfolding ensure_env archive_old lsvpd_init store_gathered
  initialize_db limit u = elim (ensure_env m.umask m.makes (suc (length u.env)) u.env u.files) [
    | ready fs ↦
        if m.spyre_opens
        then if m.memory
          then store_gathered (lsvpd_init true (archive_old u fs)).0 (m.gather limit)
          else returned (lsvpd_init false (archive_old u fs)).0 none false
        else returned (record u { files = spyre_init u fs }) none false
    | refused fs ↦ returned (record u { files = fs }) none false
    | out_of_fuel ↦ returned u none false
  ]

-- What the loop over the options ends with.
pub data UpdateRound : Type 0 where
  go_on : Updater → Bool → UpdateRound
  stop_version : UpdateRound
  stop_usage : UpdateRound
  stop_archive : Updater → UpdateRound
  null_text : UpdateRound

-- `env = optarg` is cut at its last slash. Without one, `rfind` gives -1: `substr( 0 )` and
-- `substr( 0, -1 )` are both the whole text.
unfoldable pub set_path : Bytes → Updater → Updater
unfolding split_last
set_path path u = elim (split_last b'/' path) [
  | none ↦ record u { env = path; file = path }
  | some p ↦ record u { env = p.0; file = p.1 }
]

-- The loop, over the events that are left; `limit` is `limitSCSISize`.
unfoldable pub update_options : Updater → Bool → List Event → UpdateRound
unfolding set_path
update_options u limit [] = go_on u limit
update_options u limit (e ∷ events) =
    if e.opt == b'p'
    then elim e.optarg [
      | none ↦ null_text
      | some path ↦ update_options (set_path path u) limit events
    ]
    else if e.opt == b's'
    then update_options u true events
    else if e.opt == b'v'
    then stop_version
    else if e.opt == b'a'
    then stop_archive u
    else stop_usage

unfoldable pub update_unsupported : PlatformType → Option ℕ
update_unsupported pf_pseries_kvm_guest = some 0
update_unsupported pf_null = some 1
update_unsupported pf_error = some 1
update_unsupported _ = none

abbrev pub default_updater : FileSystem → Updater
default_updater fs = record {
  env = codes "/var/lib/lsvpd";
  file = codes "vpd.db";
  db_open = false;
  locked = false;
  files = fs;
}

-- What `main` comes to: the files, the new database and the status; the files where an exception
-- ends it; or a text that is NULL.
pub data Updated {κ} (Db : Type κ) : Type κ where
  updated : FileSystem → Option Db → ℕ → Updated Db
  terminated : FileSystem → Updated Db
  undefined : Updated Db

module _ {ℓ κ} {C : Type ℓ} {Db : Type κ} (m : Machine C Db) where
  -- What follows the loop over the options.
  unfoldable pub update_run : Bool → Updater → Updated Db
  unfolding initialize_db lsvpd_fini cleanup_spyre_files
  update_run limit u = elim (initialize_db m limit u) [
    | thrown u' ↦ terminated u'.files
    | returned u' db stored ↦
        updated (cleanup_spyre_files u'.env (lsvpd_fini m.throws u').files) db
          (if stored then 0 else 255)
  ]

  -- `main`
  unfoldable pub vpdupdate_main : PlatformType → Bool → List Event → FileSystem → Updated Db
  unfolding update_unsupported update_options update_run archive_db
  vpdupdate_main platform is_root events fs = elim (update_unsupported platform) [
    | some status ↦ updated fs none status
    | none ↦ elim (update_options (default_updater fs) false events) [
      | stop_version ↦ updated fs none 0
      | stop_usage ↦ updated fs none 0
      | stop_archive u ↦
          updated (archive_db m.answers (full_path u) u.file m.stamp u.files).1 none 0
      | null_text ↦ undefined
      | go_on u limit ↦ if is_root then update_run limit u else updated fs none 255
    ]
  ]
