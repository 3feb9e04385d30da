-- ===== src/Update/Archive.antt =====
-- `removeOldArchiveDB` and `archiveDB` of src/internal/updater.cpp: the old database becomes a
-- compressed archive. The answers of the system are the fields of `Answers`.
pub mod Laws
use lsvpd.Base.{
  ℕ, suc, ◌-◌, Bool, true, false, ◌&&◌, ◌||◌, List, [], ◌∷◌, ◌++◌, Option, none, some,
  if◌then◌else◌, Bytes, codes, length, contains_text,
}
use lsvpd.Output.Archive.{write_chunk}
use lsvpd.Output.Lscfg.{copies}
use lsvpd.Update.{Node, regular, directory, special, FileSystem, stat, unlink, put, inside}

-- The names that `removeOldArchiveDB` does not skip.
abbrev pub is_old_archive : Bytes → Bool
is_old_archive name = contains_text (codes "vpd.db.") name || contains_text (codes ".gz") name

-- The loop over the names that `scandir` gives.
unfoldable pub remove_old_archives : Bytes → List Bytes → FileSystem → FileSystem
unfolding contains_text unlink
remove_old_archives env [] fs = fs
remove_old_archives env (name ∷ names) fs =
    if is_old_archive name
    then remove_old_archives env names (unlink (inside env name) fs)
    else remove_old_archives env names fs

-- What the system answers: the working directory; the names that `readdir` gives, if `opendir`
-- succeeds; whether `link`, `open`, `gzopen` and `gzclose` succeed; how many bytes each call of `read` and
-- of `gzwrite` takes of those that are left; what is in an archive that bytes were written to, and in
-- one that `gzclose` fails for.
pub record Answers : Type 0 where
  pub cwd : Bytes
  pub entries : Option (List Bytes)
  pub links : Bool
  pub opens : Bool
  pub reads : ℕ → ℕ → ℕ
  pub gzopens : Bool
  pub gzwrites : ℕ → ℕ → ℕ
  pub gzcloses : Bool
  pub compressed : Bytes → Bytes
  pub torn : Bytes → Bytes

-- Where `archiveDB` ends.
pub data Ending : Type 0 where
  no_database no_directory link_failed open_failed gzopen_failed gzclose_failed archived : Ending

-- The loop over the entries. The name alone is unlinked, which is a path from the working
-- directory.
unfoldable pub remove_tagged : Bytes → Bytes → List Bytes → FileSystem → FileSystem
unfolding contains_text unlink
remove_tagged cwd file [] fs = fs
remove_tagged cwd file (name ∷ names) fs =
    if contains_text (codes "__" ++ file) name
    then remove_tagged cwd file names (unlink (inside cwd name) fs)
    else remove_tagged cwd file names fs

-- The buffer behind the loop over `read`, which is zero where nothing was read.
unfoldable pub buffer : (ℕ → ℕ → ℕ) → Bytes → Bytes
unfolding write_chunk
buffer reads content =
    let got = (write_chunk reads (suc (length content)) 0 content).0 in
    got ++ copies (length content - length got) 0

-- `read` of the linked file, and the archive in its place.
unfoldable pub compress : Answers → Bytes → Bytes → FileSystem → Ending × FileSystem
unfolding buffer unlink write_chunk
compress a timed content fs =
    let text = buffer a.reads content in
    let written = (write_chunk a.gzwrites (suc (length text)) 0 text).0 in
    let gone = unlink timed fs in
    if a.opens
    then if a.gzopens
      then if a.gzcloses
        then (archived, put (timed ++ codes ".gz") (regular (a.compressed written)) gone)
        else (gzclose_failed, put (timed ++ codes ".gz") (regular (a.torn written)) gone)
      else (gzopen_failed, gone)
    else (open_failed, fs)

-- `link` to the name with the time stamp fails where that is there already, and for what is not a
-- file.
unfoldable pub link_and_compress :
    Answers → Bytes → Bytes → Option Node → Option Node → FileSystem → Ending × FileSystem
unfolding compress unlink
link_and_compress a full timed (some (regular content)) none fs =
    if a.links
    then compress a timed content (unlink full (put timed (regular content) fs))
    else (link_failed, fs)
link_and_compress a full timed _ _ fs = (link_failed, fs)

-- `archiveDB`, for the file in the directory, with the time stamp of its last change
unfoldable pub archive_db : Answers → Bytes → Bytes → Bytes → FileSystem → Ending × FileSystem
unfolding link_and_compress remove_tagged stat
archive_db a full file stamp fs = elim (stat full fs) [
  | none ↦ (no_database, fs)
  | some n ↦ elim a.entries [
    | none ↦ (no_directory, fs)
    | some names ↦
        let fs' = remove_tagged a.cwd file names fs in
        let timed = full ++ b'.' ∷ stamp in
        link_and_compress a full timed (stat full fs') (stat timed fs') fs'
  ]
]
