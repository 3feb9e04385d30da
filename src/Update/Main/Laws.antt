-- ===== src/Update/Main/Laws.antt =====
-- The options of vpdupdate, and when a signal removes the database.
use lsvpd.Base.{
  Bool, true, false, ◌∷◌, ◌++◌, ◌≡◌, refl, ◌∙◌, Option, some, if◌then◌else◌, Bytes, Bool-cases, inl,
  inr,
}
use lsvpd.Output.Archive.Laws.{split_last-join, split_last-none}
use lsvpd.Scsi.Templates.Codes.{has}
use lsvpd.Update.{unlink}
use lsvpd.Gatherer.{Forest, nodes}
use lsvpd.Update.Store.Laws.{store_list}
use lsvpd.Update.Main.{
  Updater, full_path, Machine, Initialized, returned, thrown, lsvpd_fini, lsvpd_sighandler,
  set_path,
}

lsvpd_fini-files : (throws : Bool) (u : Updater) → (lsvpd_fini throws u).files ≡ u.files
unfolding lsvpd_fini
lsvpd_fini-files throws u = elim (Bool-cases u.db_open) [ inl h ↦ rw h refl | inr h ↦ rw h refl ]

-- What a signal does to the files: the database is removed exactly if it is the new one, which is
-- not complete.
pub lsvpd_sighandler-files :
    (throws : Bool) (u : Updater)
    → (lsvpd_sighandler throws u).files
      ≡ (if u.locked then unlink (full_path u) u.files else u.files)
unfolding lsvpd_sighandler
lsvpd_sighandler-files throws u =
    lsvpd_fini-files throws
      (if u.locked then record u { files = unlink (full_path u) u.files } else u)
    ∙ elim (Bool-cases u.locked) [ inl h ↦ rw h refl | inr h ↦ rw h refl ]

-- The path of --path is that of the database that is written, if it has a slash.
pub set_path-full_path :
    (dir name : Bytes) (u : Updater)
    → has b'/' name ≡ false
    → full_path (set_path (dir ++ b'/' ∷ name) u) ≡ dir ++ b'/' ∷ name
unfolding set_path
set_path-full_path dir name u h = rw (set_path, split_last-join b'/' dir name h) refl

-- Without one, it is a file in a directory of the same name.
pub set_path-no_slash :
    (name : Bytes) (u : Updater)
    → has b'/' name ≡ false
    → full_path (set_path name u) ≡ name ++ b'/' ∷ name
unfolding set_path
set_path-no_slash name u h = rw (set_path, split_last-none b'/' name h) refl

-- What success means: the system and then every component of the tree, each before those below
-- it, have been stored in the database; and until it is closed a signal removes its file, and no
-- other.
abbrev pub IsStored :
    {C : Type 0} {Db : Type 0} → Machine C Db → Bool → Updater → Option Db → Type 0
IsStored {C = C} {Db = Db} m limit u' db =
    (forest : Forest C) × (final : Db) × (m.gather limit ≡ some forest)
    × (m.store_root.1 ≡ true)
    × (store_list m.store (nodes forest) m.store_root.0 ≡ (final, true))
    × (db ≡ some final)
    × (u'.db_open ≡ true)
    × ((throws : Bool) → (lsvpd_sighandler throws u').files ≡ unlink (full_path u') u'.files)

abbrev OnStored : {C : Type 0} {Db : Type 0} → Machine C Db → Bool → Initialized Db → Type 0
OnStored m limit (returned u db true) = IsStored m limit u db
OnStored m limit (returned u db false) = Unit
OnStored m limit (thrown u) = Unit
