-- ===== src/Scsi/Templates/Fields.antt =====
-- The name and the size of a field of a format: `getFieldName`, `getFieldValue`, and `hexify`.
use lsvpd.Base.{
  ℕ, ◌+◌, ◌-◌, ◌*◌, ◌/◌, ◌%◌, ◌^◌, Bool, true, false, ◌||◌, ◌&&◌, [], ◌∷◌, Option, none, some, ◌==◌,
  ltb, leb, if◌then◌else◌, Bytes, split_first, c_str, isspace, within,
}

-- A number of C's `int`: `negsuc n` is -1 - n.
pub data ℤ : Type 0 where
  pos : ℕ → ℤ
  negsuc : ℕ → ℤ

-- `getFieldName`: what stands before the first colon.
unfoldable pub get_field_name : Bytes → Bytes
unfolding split_first
get_field_name pattern = elim (split_first b':' pattern) [ none ↦ [] | some p ↦ p.0 ]

-- The value of a digit, in the bases up to 16.
abbrev digit : ℕ → Option ℕ
digit c =
    if within b'0' b'9' c
    then some (c - b'0')
    else if within b'a' b'f' c
    then some (c - 87)
    else if within b'A' b'F' c
    then some (c - 55)
    else none

-- The number that the digits at the start of a text spell.
unfoldable pub digits : ℕ → ℕ → Bytes → ℕ
digits base n [] = n
digits base n (c ∷ cs) = elim (digit c) [
  | none ↦ n
  | some d ↦ elim (ltb d base) [ true ↦ digits base (n * base + d) cs | false ↦ n ]
]

-- The base that `strtol` finds for the base 0, by the prefix.
unfoldable pub strtol_number : Bytes → ℕ
unfolding digits
strtol_number (c ∷ x ∷ cs) =
    if c == b'0' && (x == b'x' || x == b'X')
    then digits 16 0 cs
    else if c == b'0'
    then digits 8 0 (x ∷ cs)
    else digits 10 0 (c ∷ x ∷ cs)
strtol_number cs = digits 10 0 cs

-- `strtol(str, NULL, 0)`, before it is cut to the range of `long`: is it negative, and its size.
unfoldable pub strtol : Bytes → Bool × ℕ
unfolding strtol_number
strtol [] = (false, 0)
strtol (c ∷ cs) =
    let rest = strtol cs in
    if isspace c
    then rest
    else if c == b'-'
    then (true, strtol_number cs)
    else if c == b'+'
    then (false, strtol_number cs)
    else (false, strtol_number (c ∷ cs))

-- A `long` becomes an `int`: the low 32 bits, with the sign in the highest.
abbrev pub int_of : ℕ → ℤ
int_of n = let low = n % 2 ^ 32 in if ltb low (2 ^ 31) then pos low else negsuc (2 ^ 32 - 1 - low)

-- `getFieldValue`: -1 with no colon, for zero, and for what does not fit a `long`.
unfoldable pub field_value : Bool × ℕ → ℤ
field_value (negative, n) =
    if n == 0
    then negsuc 0
    else if leb (if negative then 2 ^ 63 else 2 ^ 63 - 1) n
    then negsuc 0
    else if negative
    then int_of (2 ^ 64 - n)
    else int_of n

unfoldable pub get_field_value : Bytes → ℤ
unfolding split_first strtol field_value
get_field_value pattern = elim (split_first b':' pattern) [
  | none ↦ negsuc 0
  | some p ↦ field_value (strtol (c_str p.1))
]

-- `hexify`: two capital digits for a byte.
abbrev hex_capital : ℕ → ℕ
hex_capital d = if ltb d 10 then b'0' + d else 55 + d

unfoldable pub hexify : Bytes → Bytes
hexify [] = []
hexify (c ∷ cs) = hex_capital (c / 16) ∷ hex_capital (c % 16) ∷ hexify cs
