-- ===== src/Vpd/Sanitize/Hex.antt =====
-- What the hexadecimal dump keeps of a value.
use lsvpd.Base.{ℕ, ◌+◌, ◌*◌, ◌<◌, true, [], ◌∷◌, ◌≡◌, arith, Bytes, isprint, All, All-append}
use lsvpd.Vpd.Sanitize.{hex_byte, hex_digits, hex_dump}

abbrev pub Printable : ℕ → Type 0
Printable c = isprint c ≡ true

abbrev pub IsByte : ℕ → Type 0
IsByte c = c < 256

hex_byte-Printable : (c : ℕ) → IsByte c → All Printable (hex_byte c)
unfolding hex_byte
hex_byte-Printable c h = ground arith

pub hex_digits-Printable : (val : Bytes) → All IsByte val → All Printable (hex_digits val)
unfolding hex_digits
hex_digits-Printable [] h = tt
hex_digits-Printable (c ∷ cs) h =
    All-append Printable (hex_byte c) (hex_digits cs) (hex_byte-Printable c h.0)
      (hex_digits-Printable cs h.1)

-- A byte below 16 loses its leading zero, so the digits can be cut in two ways.
pub hex_dump_ambiguous :
    (a b c : ℕ) (rest : Bytes)
    → 0 < a
    → a < 16
    → 0 < b
    → b < 16
    → c < 16
    → hex_dump (a ∷ (16 * b + c) ∷ rest) ≡ hex_dump ((16 * a + b) ∷ c ∷ rest)
unfolding hex_dump
hex_dump_ambiguous a b c rest ha la hb lb lc = ground arith
