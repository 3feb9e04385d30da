-- ===== src/DeviceTree/Buffer.antt =====
-- `parseVPDHeader` and `parseVPDBuffer`. A buffer is the block of memory behind the pointer. A
-- read outside the block, or through a pointer that was never set, is the outcome `fault`: the
-- language leaves it undefined. The pointers `buf` and `end` of the loop are the bytes from `buf`
-- on and the distance `end - buf`, 0 if `buf` has passed `end`. A `char` is unsigned.
pub mod ByteOrder
pub mod Encode
pub mod Records
pub mod RoundTrip
pub mod Safety
use lsvpd.Base.{
  ℕ, zero, suc, ◌+◌, ◌-◌, ◌*◌, ◌/◌, ◌%◌, ◌^◌, Bool, true, false, ◌||◌, List, [], ◌∷◌, ◌++◌, Option,
  none, some, ◌==◌, ltb, if◌then◌else◌, Bytes, codes, c_str, length, take, drop,
}
use lsvpd.Platform.{PlatformType, is_platform_rtas, is_platform_opal}
use lsvpd.Vpd.{Call, set_value, description}
use lsvpd.Vpd.Fields.{set_vpd_field}
use lsvpd.Vpd.Sanitize.{sanitize_vpd_field}

pub data Outcome {ℓ} (A : Type ℓ) : Type ℓ where
  ok : A → Outcome A
  fault : Outcome A

-- The byte order of the machine that runs the program.
pub data Host : Type 0 where
  little big : Host

-- `*(u32 *)ptr`
pub load_u32 : Host → ℕ → ℕ → ℕ → ℕ → ℕ
load_u32 little a b c d = a + 2 ^ 8 * b + 2 ^ 16 * c + 2 ^ 24 * d
load_u32 big a b c d = d + 2 ^ 8 * c + 2 ^ 16 * b + 2 ^ 24 * a

-- `be32toh` and `be16toh`
pub be32toh : Host → ℕ → ℕ
be32toh little x =
    (x / 2 ^ 24) % 2 ^ 8
    + 2 ^ 8 * ((x / 2 ^ 16) % 2 ^ 8)
    + 2 ^ 16 * ((x / 2 ^ 8) % 2 ^ 8)
    + 2 ^ 24 * (x % 2 ^ 8)
be32toh big x = x

pub be16toh : Host → ℕ → ℕ
be16toh little x = (x / 2 ^ 8) % 2 ^ 8 + 2 ^ 8 * (x % 2 ^ 8)
be16toh big x = x % 2 ^ 16

-- What a header parser leaves: the size that it returns, `*fruName`, the bytes from
-- `*recordStart` on, and the distance from there to the end that the caller computes,
-- `buf + size`.
pub record Header : Type 0 where
  pub size : ℕ
  pub fru_name : Option Bytes
  pub records : Bytes
  pub left : ℕ

-- `goto error`, and the other returns of 0: the caller looks at nothing else.
abbrev no_header : Header
no_header = record { size = 0; fru_name = none; records = []; left = 0 }

-- The FRU name of `dlen` bytes and what follows it; `size` is the length that the buffer states.
pub rtas_name : ℕ → ℕ → Bytes → Outcome Header
rtas_name size dlen body =
    if ltb (4 + size) (7 + dlen)
    then ok no_header
    else if ltb (length body) dlen
    then fault
    else ok (record {
      size = (size + 4) % 2 ^ 32;
      fru_name = some (c_str (take dlen body));
      records = drop (dlen + 3) body;
      left = (size + 4) % 2 ^ 32 - (dlen + 10);
    })

-- `parseRtasVPDHeader`
unfoldable pub parse_rtas_vpd_header : Host → Bytes → Outcome Header
unfolding rtas_name load_u32 be32toh
parse_rtas_vpd_header host (a ∷ b ∷ c ∷ d ∷ type ∷ lo ∷ hi ∷ body) =
    if type == 0x82
    then rtas_name (be32toh host (load_u32 host a b c d)) (lo + 2 ^ 8 * hi) body
    else ok no_header
parse_rtas_vpd_header host (a ∷ b ∷ c ∷ d ∷ type ∷ rest) =
    if type == 0x82 then fault else ok no_header
parse_rtas_vpd_header host _ = fault

-- `parseOpalVPDHeader`
unfoldable pub parse_opal_vpd_header : Host → Bytes → Outcome Header
unfolding be16toh
parse_opal_vpd_header host (type ∷ lo ∷ hi ∷ body) =
    let size = be16toh host (lo + 2 ^ 8 * hi) in
    if type == 0x84
    then ok (record { size = size + 3; fru_name = none; records = body; left = size })
    else ok no_header
parse_opal_vpd_header host (type ∷ rest) = if type == 0x84 then fault else ok no_header
parse_opal_vpd_header host [] = fault

-- `parseVPDHeader`. On another platform it returns -1 with `*recordStart` unset, and the caller
-- goes on to read through that pointer.
unfoldable pub parse_vpd_header : Host → PlatformType → Bytes → Outcome Header
unfolding is_platform_rtas is_platform_opal
parse_vpd_header host p buf =
    if is_platform_rtas p
    then parse_rtas_vpd_header host buf
    else if is_platform_opal p
    then parse_opal_vpd_header host buf
    else fault

-- How the loop ends: at the end or an end tag, or by `goto ERROR`; with the calls made so far.
pub data Parsed : Type 0 where
  complete corrupt : List Call → Parsed

abbrev pub after : List Call → Outcome Parsed → Outcome Parsed
after cs (ok (complete ds)) = ok (complete (cs ++ ds))
after cs (ok (corrupt ds)) = ok (corrupt (cs ++ ds))
after cs fault = fault

-- One keyword: `key` and `field` are C strings made of the bytes.
abbrev pub record_calls : ℕ → ℕ → Bytes → List Call
record_calls k₀ k₁ val = set_vpd_field (c_str (k₀ ∷ k₁ ∷ [])) (sanitize_vpd_field val)

-- The loop, with the rounds that may still be made; each takes at least 3 bytes.
unfoldable pub parse_records : ℕ → Bytes → ℕ → Outcome Parsed
parse_records zero buf left = ok (complete [])
parse_records (suc fuel) buf zero = ok (complete [])
parse_records (suc fuel) [] (suc left) = fault
parse_records (suc fuel) (c ∷ []) (suc left) =
    if c == 0x78 || c == 0x79
    then ok (complete [])
    else if ltb (suc left) 3
    then ok (corrupt [])
    else fault
parse_records (suc fuel) (c ∷ d ∷ []) (suc left) =
    if c == 0x78 || c == 0x79
    then ok (complete [])
    else if ltb (suc left) 3
    then ok (corrupt [])
    else fault
parse_records (suc fuel) (k₀ ∷ k₁ ∷ len ∷ buf) (suc left) =
    let rest =
      after (record_calls k₀ k₁ (take len buf))
        (parse_records fuel (drop len buf) (suc left - 3 - len)) in
    if k₀ == 0x78 || k₀ == 0x79
    then ok (complete [])
    else if ltb (suc left) 3
    then ok (corrupt [])
    else if ltb (suc left - 3) len
    then ok (corrupt [])
    else if ltb (length buf) len
    then fault
    else rest

abbrev name_calls : Option Bytes → List Call
name_calls none = []
name_calls (some name) = set_value description name 80 ∷ []

-- The value returned, beside the calls on the component.
abbrev pub result : ℕ → Outcome Parsed → Outcome (ℕ × List Call)
result size (ok (complete cs)) = ok (size, cs)
result size (ok (corrupt cs)) = ok (0, cs)
result size fault = fault

unfoldable pub parse_body : Header → Outcome (ℕ × List Call)
parse_body h =
    if h.size == 0
    then ok (0, [])
    else result h.size (after (name_calls h.fru_name) (parse_records h.left h.records h.left))

-- `parseVPDBuffer`
unfoldable pub parse_vpd_buffer : Host → PlatformType → Bytes → Outcome (ℕ × List Call)
unfolding parse_vpd_header
parse_vpd_buffer host p buf = elim (parse_vpd_header host p buf) [
  | fault ↦ fault
  | ok h ↦ parse_body h
]

-- `fillIBMVpd`: the file's bytes are handed over without their number.
unfoldable pub fill_ibm_vpd : Host → PlatformType → Bytes → Outcome (List Call)
unfolding parse_vpd_buffer
fill_ibm_vpd host p [] = ok []
fill_ibm_vpd host p (c ∷ cs) = elim (parse_vpd_buffer host p (c ∷ cs)) [
  | fault ↦ fault
  | ok r ↦ ok r.1
]
