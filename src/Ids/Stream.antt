-- ===== src/Ids/Stream.antt =====
-- What the constructors use of `std::ifstream`: the bytes that are left, and the flags for the end
-- and for a failure. An operation on a stream that has one of the flags only sets the second.
use lsvpd.Base.{
  ℕ, zero, suc, ◌-◌, ◌+◌, ◌*◌, ◌%◌, ◌^◌, Bool, true, false, not, ◌&&◌, ◌||◌, [], ◌∷◌, Option, none,
  some, ◌==◌, if◌then◌else◌, Bytes, isspace, c_str, within, leb, ltb,
}

pub record Stream : Type 0 where
  pub left : Bytes
  pub eof : Bool
  pub fail : Bool

abbrev pub good : Stream → Bool
good s = not s.eof && not s.fail

abbrev pub failed : Stream → Stream
failed s = record s { fail = true }

abbrev pub ended : Stream → Stream
ended s = record s { eof = true }

-- `peek`, none for the end of the file.
unfoldable pub peek : Stream → Option ℕ × Stream
peek s =
    if not (good s)
    then (none, failed s)
    else elim s.left [ [] ↦ (none, ended s) | c ∷ cs ↦ (some c, s) ]

-- `get(c)`, which leaves the variable as it is when there is no character.
unfoldable pub get : Option ℕ → Stream → Option ℕ × Stream
get c s =
    if not (good s)
    then (c, failed s)
    else elim s.left [ [] ↦ (c, failed (ended s)) | d ∷ ds ↦ (some d, record s { left = ds }) ]

-- `putback(c)`, which first clears the flag for the end.
unfoldable pub putback : Option ℕ → Stream → Stream
putback none s = s
putback (some c) s = if s.fail then s else record { left = c ∷ s.left; eof = false; fail = false }

-- `ignore(4096, '\n')`: what is left, and whether the end was met.
unfoldable pub ignore_from : ℕ → Bytes → Bytes × Bool
ignore_from zero cs = (cs, false)
ignore_from (suc n) [] = ([], true)
ignore_from (suc n) (c ∷ cs) = let rest = ignore_from n cs in if c == 10 then (cs, false) else rest

unfoldable pub ignore : Stream → Stream
unfolding ignore_from
ignore s =
    if not (good s)
    then failed s
    else let p = ignore_from 4096 s.left in record s { left = p.0; eof = p.1 }

abbrev pub drop_spaces : Bytes → Bytes
drop_spaces [] = []
drop_spaces (c ∷ cs) = if isspace c then drop_spaces cs else c ∷ cs

-- The characters up to the next white space, and what is left.
unfoldable pub word : Bytes → Bytes × Bytes
word [] = ([], [])
word (c ∷ cs) = let rest = word cs in if isspace c then ([], c ∷ cs) else (c ∷ rest.0, rest.1)

abbrev pub is_empty : Bytes → Bool
is_empty [] = true
is_empty (c ∷ cs) = false

-- `>> in`, which leaves the string as it is when there is no word.
unfoldable pub read_word : Bytes → Stream → Bytes × Stream
unfolding word
read_word old s = if not (good s) then (old, failed s) else elim (drop_spaces s.left) [
  | [] ↦ (old, record { left = []; eof = true; fail = true })
  | c ∷ cs ↦ let p = word (c ∷ cs) in (p.0, record s { left = p.1; eof = is_empty p.1 })
]

-- The loop of `getline(str, 4096)`: what is stored, what is left, and the two flags.
unfoldable pub line_from : ℕ → Bytes → Bytes × Bytes × Bool × Bool
line_from n [] = ([], [], true, false)
line_from zero (c ∷ cs) = if c == 10 then ([], cs, false, false) else ([], c ∷ cs, false, true)
line_from (suc n) (c ∷ cs) =
    let rest = line_from n cs in
    if c == 10 then ([], cs, false, false) else (c ∷ rest.0, rest.1, rest.2, rest.3)

-- `getline`, and the string that the buffer holds; at the end of the file it fails.
unfoldable pub read_line : Stream → Bytes × Stream
unfolding line_from c_str
read_line s = if not (good s) then ([], failed s) else elim s.left [
  | [] ↦ ([], failed (ended s))
  | c ∷ cs ↦
      let p = line_from 4095 (c ∷ cs) in (c_str p.0, record { left = p.1; eof = p.2; fail = p.3 })
]

abbrev digit_16 : ℕ → Option ℕ
digit_16 c =
    if not (within b'0' b'f' c)
    then none
    else if leb c b'9'
    then some (c - b'0')
    else if leb b'a' c
    then some (c - 87)
    else if within b'A' b'F' c
    then some (c - 55)
    else none

-- The number that the digits at the start of a text spell
unfoldable pub hex_number : ℕ → Bytes → ℕ
hex_number n [] = n
hex_number n (c ∷ cs) = elim (digit_16 c) [ none ↦ n | some d ↦ hex_number (n * 16 + d) cs ]

-- The prefix 0x is passed over; what is not a digit behind it makes the number 0 in both readings.
abbrev pub prefixed : Bytes → ℕ
prefixed (c ∷ x ∷ cs) =
    if c == b'0' && (x == b'x' || x == b'X') then hex_number 0 cs else hex_number 0 (c ∷ x ∷ cs)
prefixed cs = hex_number 0 cs

-- A number that a `long` does not hold becomes the largest or the smallest of them. An `int` is the
-- 32 bits that it has, so -1 is 2 ^ 32 - 1.
abbrev pub to_int : Bool → ℕ → ℕ
to_int true n = (2 ^ 32 - (if leb n (2 ^ 63) then n else 2 ^ 63) % 2 ^ 32) % 2 ^ 32
to_int false n = (if ltb n (2 ^ 63) then n else 2 ^ 63 - 1) % 2 ^ 32

-- `strtol(in, NULL, 16)` of a word, which has no white space, as an `int`
unfoldable pub id_number : Bytes → ℕ
unfolding hex_number
id_number [] = 0
id_number (c ∷ cs) =
    if c == b'-'
    then to_int true (prefixed cs)
    else if c == b'+'
    then to_int false (prefixed cs)
    else to_int false (prefixed (c ∷ cs))
