-- ===== src/Output/Archive.antt =====
-- The database that a program reads: the archive of `--zip` is written out beside itself, and the
-- path is cut into a directory and a name. lsvpd.cpp, lscfg.cpp and lsvio.cpp each have this code.
-- zlib and the file system are what the operations answer: the chunks that `gzread` gives, and how
-- many of the bytes each call of `write` takes.
pub mod Laws
use lsvpd.Base.{
  ℕ, zero, suc, Bool, true, false, List, [], ◌∷◌, ◌++◌, Option, none, some, if◌then◌else◌, Bytes,
  codes, length, take, drop, ◌==◌, ltb, String,
}
use lsvpd.Gatherer.{Forest}
use lsvpd.Output.{System, Component}

-- `path.substr( 0, path.rfind( c ) )`, and the text behind; none for npos.
unfoldable pub split_last : ℕ → Bytes → Option (Bytes × Bytes)
split_last c [] = none
split_last c (x ∷ xs) = elim (split_last c xs) [
  | some p ↦ some (x ∷ p.0, p.1)
  | none ↦ if x == c then some ([], xs) else none
]

-- `path.rfind( '.' )` in an `int` is -1 for npos, and `substr( 0, -1 )` is the whole text.
unfoldable pub uncompressed_path : Bytes → Bytes
unfolding split_last
uncompressed_path path = elim (split_last b'.' path) [ none ↦ path | some p ↦ p.0 ]

-- `env` and `db`
unfoldable pub split_path : Bytes → Bytes × Bytes
unfolding split_last
split_path path = elim (split_last b'/' path) [
  | none ↦ (codes "./", path)
  | some p ↦ (p.0 ++ b'/' ∷ [], p.1)
]

-- The inner loop, from the bytes of the buffer that are left: of n bytes the call with the number
-- `call` takes `takes call n`, and none at an error. With none left it ends whatever `write`
-- returns. Beside the bytes that are taken stands the number of the next call. The calls are at most
-- as many as the bytes, and one more.
unfoldable pub write_chunk : (ℕ → ℕ → ℕ) → ℕ → ℕ → Bytes → Bytes × ℕ
write_chunk takes zero call left = ([], call)
write_chunk takes (suc fuel) call [] = ([], call)
write_chunk takes (suc fuel) call (c ∷ cs) = elim (takes call (suc (length cs))) [
  | zero ↦ ([], suc call)
  | suc n ↦
      let rest = write_chunk takes fuel (suc call) (drop (suc n) (c ∷ cs)) in
      (take (suc n) (c ∷ cs) ++ rest.0, rest.1)
]

-- The loop over `gzread`, from a call of `write` on: what is written to the file.
unfoldable pub uncompress : (ℕ → ℕ → ℕ) → ℕ → List Bytes → Bytes
unfolding write_chunk
uncompress takes call [] = []
uncompress takes call (chunk ∷ chunks) =
    let done = write_chunk takes (suc (length chunk)) call chunk in
    done.0 ++ uncompress takes done.1 chunks

-- An archive that `gzopen` opens: what `gzread` gives, and whether `gzclose` returns 0.
pub record Archived : Type 0 where
  pub chunks : List Bytes
  pub closes : Bool

-- What `getComponentTree` of a `VpdRetriever` gives: the system with its leaves, NULL, or a
-- `VpdException` with its text.
pub data Fetched : Type 0 where
  fetched : System → Forest Component → Fetched
  nothing : Fetched
  failed : Bytes → Fetched

-- The file system, zlib and libvpd; a constructor of `VpdRetriever` that throws is none.
pub record Outside : Type 0 where
  pub gzopen : Bytes → Option Archived
  pub opens : Bytes → Bool
  pub takes : ℕ → ℕ → ℕ
  pub gzerror : Bytes
  pub retriever : Bytes → Bytes → Option Fetched
  pub default_retriever : Option Fetched

pub data FileCall : Type 0 where
  writes : Bytes → Bytes → FileCall
  unlinks : Bytes → FileCall

-- The end of a program: its output, the status with which it exits (255 for -1), and what it did to
-- files. A NULL `optarg` that becomes a string is undefined.
pub data Result : Type 0 where
  ran : List Bytes → ℕ → List FileCall → Result
  undefined : Result

-- The path of the file that the archive is written out to, or the message before a return of 1.
pub data Unpacked : Type 0 where
  unpacked : Bytes → List FileCall → Unpacked
  refused : Bytes → List FileCall → Unpacked

unfoldable pub write_out : Outside → Bytes → Archived → Unpacked
unfolding uncompress
write_out w path a =
    let files = writes path (uncompress w.takes 0 a.chunks) ∷ [] in
    if w.opens path
    then if a.closes
      then unpacked path files
      else refused (codes "Error reading archive " ++ path ++ codes ".gz: " ++ w.gzerror) files
    else refused (codes "Failed to open file for uncompressed database archive") []

unfoldable pub unpack : Outside → Bytes → Unpacked
unfolding write_out uncompressed_path
unpack w path = elim (w.gzopen path) [
  | none ↦ refused (codes "Failed to open database archive " ++ path) []
  | some a ↦ write_out w (uncompressed_path path) a
]

unfoldable ends_with_slash : Bytes → Bool
ends_with_slash [] = false
ends_with_slash (c ∷ []) = c == b'/'
ends_with_slash (c ∷ d ∷ cs) = ends_with_slash (d ∷ cs)

-- The programs are installed behind the prefix `dest`, which the build sets (`DEST_DIR`).
unfoldable pub installed : Bytes → String → Bytes
unfolding ends_with_slash
installed dest rest = dest ++ (if ends_with_slash dest then [] else codes "/") ++ codes rest

unfoldable pub run_vpdupdate : Bytes → String → Bytes
unfolding installed
run_vpdupdate dest rest = codes "Please run " ++ installed dest "sbin/vpdupdate" ++ codes rest
