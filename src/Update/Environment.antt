-- ===== src/Update/Environment.antt =====
-- `ensureEnv` of src/internal/updater.cpp. `makes` says of which directories `mkdir` succeeds.
pub mod Laws
use Prim.Native.Nat.{bit_and}
use lsvpd.Base.{
  ℕ, zero, suc, ◌-◌, Bool, true, false, ◌&&◌, List, [], ◌∷◌, Option, none, some, if◌then◌else◌,
  Bytes, length, ◌==◌,
}
use lsvpd.Output.Archive.{split_last}
use lsvpd.Update.{Node, regular, directory, special, FileSystem, stat, put}

-- The bits of a mode that are needed: S_IRWXU, S_IRGRP and S_IROTH.
abbrev pub is_usable : ℕ → Bool
is_usable mode = bit_and mode 448 == 448 && bit_and mode 32 == 32 && bit_and mode 4 == 4

-- The mode of a new directory: rwxrwxr-x, which is 509, without the bits of the umask.
abbrev pub new_mode : ℕ → ℕ
new_mode umask = 509 - bit_and 509 umask

-- 0, or -1, and the file system; a call that the fuel does not reach is told apart.
pub data Ensured : Type 0 where
  ready : FileSystem → Ensured
  refused : FileSystem → Ensured
  out_of_fuel : Ensured

-- `mkdir`, behind the call for the parent
unfoldable pub make_directory : ℕ → (Bytes → Bool) → Bytes → Ensured → Ensured
make_directory umask makes env (ready fs) =
    if makes env then ready (put env (directory (new_mode umask)) fs) else refused fs
make_directory umask makes env (refused fs) = refused fs
make_directory umask makes env out_of_fuel = out_of_fuel

-- What is there already.
unfoldable pub check_node : Node → FileSystem → Ensured
check_node (directory mode) fs = if is_usable mode then ready fs else refused fs
check_node (regular c) fs = refused fs
check_node special fs = refused fs

-- Each call is for a shorter path, so there are no more of them than the path has characters, and
-- one more.
unfoldable pub ensure_env : ℕ → (Bytes → Bool) → ℕ → Bytes → FileSystem → Ensured
unfolding make_directory check_node stat split_last
ensure_env umask makes zero env fs = out_of_fuel
ensure_env umask makes (suc fuel) env fs = elim (stat env fs) [
  | some n ↦ check_node n fs
  | none ↦ elim (split_last b'/' env) [
    | none ↦ refused fs
    | some p ↦ make_directory umask makes env (ensure_env umask makes fuel p.0 fs)
  ]
]
