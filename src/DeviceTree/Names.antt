-- ===== src/DeviceTree/Names.antt =====
-- `isDevice`: which directories of the device tree stand for devices, by their names.
pub mod Laws
use mathlib.Core.List.{reverse}
use lsvpd.Base.{
  ℕ, Bool, true, false, ◌||◌, List, [], ◌∷◌, ◌==◌, if◌then◌else◌, Bytes, codes, starts_with, within,
}
use lsvpd.DeviceTree.Buffer.{Outcome, ok, fault}

-- `ignorePath`, without the empty string that ends it
abbrev pub ignore_path : List Bytes
ignore_path =
    codes "ibm,bsr2@"
    ∷ codes "interrupt-controller@"
    ∷ codes "memory@"
    ∷ codes "xscom@"
    ∷ codes "psi@"
    ∷ []

unfoldable pub is_ignored : List Bytes → Bytes → Bool
unfolding starts_with
is_ignored [] name = false
is_ignored (p ∷ ps) name = starts_with p name || is_ignored ps name

-- The cases of the switch that go one character back.
abbrev pub in_address : ℕ → Bool
in_address c = c == 0 || within b'0' b'9' c || within b'a' b'z' c || c == b',' || c == b':'

-- The loop, over the characters in front of `i`, nearest first. With none left it reads `str[-1]`.
unfoldable pub scan_back : Bytes → Outcome Bool
scan_back [] = fault
scan_back (c ∷ cs) = if in_address c then scan_back cs else ok (c == b'@')

unfoldable pub is_device : Bytes → Outcome Bool
unfolding is_ignored scan_back
is_device name = if is_ignored ignore_path name then ok false else scan_back (reverse name)
