-- ===== src/DeviceTree/Location.antt =====
-- Location codes: `parseMajorMinor`, `getBaseLoc` and `checkLocation`. The values that they read of
-- a component and of its ancestors (`mpParent`) are arguments.
pub mod Laws
use lsvpd.Base.{
  ℕ, Bool, true, false, not, ◌&&◌, ◌||◌, List, [], ◌∷◌, ◌++◌, Option, none, some, ◌==◌,
  if◌then◌else◌, Bytes, codes, same, split_first, after_last,
}

-- The buses that the code tells apart (`devBus`).
pub data Bus : Type 0 where
  scsi ide usb other : Bus

abbrev no_numbers : Bytes × Bytes
no_numbers = ([], [])

-- `major` and `minor`, empty where the address has no separator.
unfoldable pub parse_major_minor : Bus → Bytes → Bytes × Bytes
unfolding split_first after_last
parse_major_minor scsi addr = elim (split_first b':' addr) [
  | none ↦ no_numbers
  | some p ↦ (p.0, after_last b':' addr)
]
parse_major_minor ide addr = elim (split_first b'.' addr) [ none ↦ no_numbers | some p ↦ p ]
parse_major_minor usb addr = elim (split_first b':' addr) [ none ↦ no_numbers | some p ↦ p ]
parse_major_minor other addr = no_numbers

-- `loc != "" && loc[ 0 ] == c`
abbrev pub begins : ℕ → Bytes → Bool
begins c [] = false
begins c (x ∷ xs) = x == c

-- The locations of a component and of its ancestors, nearest first.
unfoldable pub get_base_loc : List Bytes → Bytes
get_base_loc [] = []
get_base_loc (loc ∷ ancestors) = if begins b'U' loc then loc else get_base_loc ancestors

-- The numbers are worth writing.
abbrev pub counts : Bytes → Bool
counts n = not (same n []) && not (same n (codes "0"))

-- What is done when the nearest location is known: the answer, and the value that
-- `mPhysicalLocation.setValue` is called with, if it is.
unfoldable pub extend_location : Bytes → Bytes → Bytes × Bytes → Bool × Option Bytes
extend_location base loc numbers =
    if same base []
    then (false, none)
    else if begins b'-' loc
    then (true, some (base ++ loc))
    else if counts numbers.0
    then (true, none)
    else (true, some base)

-- `checkLocation`; `ancestors` are the locations of the parents, nearest first.
unfoldable pub check_location : Bytes → List Bytes → Bus → Bytes → Bool × Option Bytes
unfolding extend_location get_base_loc parse_major_minor
check_location loc ancestors bus addr = if begins b'U' loc then (true, none) else elim ancestors [
  | [] ↦ (false, none)
  | p ∷ ps ↦ extend_location (get_base_loc (p ∷ ps)) loc (parse_major_minor bus addr)
]
