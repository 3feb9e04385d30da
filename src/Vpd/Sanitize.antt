-- ===== src/Vpd/Sanitize.antt =====
-- `isPrintable`, `hexDump` and `ICollector::sanitizeVPDField`. A `char` is unsigned, as it is on
-- the Power systems that the program is for.
pub mod Laws
pub mod Hex
use lsvpd.Base.{
  ℕ, ◌+◌, ◌/◌, ◌%◌, Bool, true, false, not, ◌&&◌, ◌||◌, List, [], ◌∷◌, ◌++◌, ◌==◌, ltb,
  if◌then◌else◌, Bytes, codes, c_str, isprint, isspace,
}

-- The loop on `j`: nothing but NULs is left.
unfoldable pub all_nul : Bytes → Bool
all_nul [] = true
all_nul (c ∷ cs) = c == 0 && all_nul cs

-- The loop on `i`; the flag is `nonSpace`.
unfoldable pub printable_from : Bool → Bytes → Bool
unfolding all_nul
printable_from non_space [] = non_space
printable_from non_space (c ∷ cs) =
    let seen = non_space || not (isspace c) in
    let rest = printable_from seen cs in
    if not (isprint c) then false else if all_nul cs then seen else rest

unfoldable pub is_printable : Bytes → Bool
unfolding printable_from
is_printable val = printable_from false val

unfoldable pub hex_digit : ℕ → ℕ
hex_digit d = if ltb d 10 then b'0' + d else 87 + d

-- `ss << hex << set.to_ulong()` for a byte: no leading zero.
unfoldable pub hex_byte : ℕ → Bytes
unfolding hex_digit
hex_byte c = if ltb c 16 then hex_digit c ∷ [] else hex_digit (c / 16) ∷ hex_digit (c % 16) ∷ []

unfoldable pub hex_digits : Bytes → Bytes
unfolding hex_byte
hex_digits [] = []
hex_digits (c ∷ cs) = hex_byte c ++ hex_digits cs

unfoldable pub hex_dump : Bytes → Bytes
unfolding hex_digits
hex_dump val = b'0' ∷ b'x' ∷ hex_digits val

-- The argument is the `len` bytes at `val`; the caller's buffer has a NUL behind them.
unfoldable pub sanitize_vpd_field : Bytes → Bytes
unfolding is_printable hex_dump c_str
sanitize_vpd_field val = if is_printable val then c_str val else hex_dump val
