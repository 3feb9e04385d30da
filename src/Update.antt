-- ===== src/Update.antt =====
-- vpdupdate (src/internal/updater.cpp), which builds the database. The file system is a list of the
-- paths that exist, with what stands there.
pub mod Files
pub mod Environment
pub mod Store
pub mod Archive
pub mod Main
use lsvpd.Base.{
  ℕ, Bool, true, false, List, [], ◌∷◌, ◌++◌, Option, none, some, if◌then◌else◌, Bytes, same,
}

-- What a path names: a file with its bytes, a directory with its mode, or something else.
pub data Node : Type 0 where
  regular : Bytes → Node
  directory : ℕ → Node
  special : Node

abbrev pub FileSystem : Type 0
FileSystem = List (Bytes × Node)

-- `stat`, none if it fails
unfoldable pub stat : Bytes → FileSystem → Option Node
stat path [] = none
stat path (e ∷ fs) = if same e.0 path then some e.1 else stat path fs

unfoldable pub erase : Bytes → FileSystem → FileSystem
erase path [] = []
erase path (e ∷ fs) = let rest = erase path fs in if same e.0 path then rest else e ∷ rest

-- `unlink`, which fails for a directory
unfoldable pub unlink : Bytes → FileSystem → FileSystem
unfolding stat erase
unlink path fs = elim (stat path fs) [
  | none ↦ fs
  | some n ↦ elim n [ directory mode ↦ fs | _ ↦ erase path fs ]
]

-- A path with a node, which may be new.
abbrev pub put : Bytes → Node → FileSystem → FileSystem
put path n fs = (path, n) ∷ fs

-- `env + "/" + name`
abbrev pub inside : Bytes → Bytes → Bytes
inside env name = env ++ b'/' ∷ name
