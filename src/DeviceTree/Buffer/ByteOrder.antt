-- ===== src/DeviceTree/Buffer/ByteOrder.antt =====
-- On which machines the two headers state the same size.
use lsvpd.Base.{ℕ, ◌+◌, ◌*◌, ◌^◌, ◌<◌, ◌≡◌, ◌≢◌, refl, [], ◌∷◌, Bytes, All, arith, ap}
use lsvpd.DeviceTree.Buffer.{
  Host, little, big, load_u32, be32toh, Outcome, ok, fault, Header, parse_rtas_vpd_header,
  parse_opal_vpd_header,
}
use lsvpd.Vpd.Sanitize.Hex.{IsByte}

pub be32toh-load_u32 :
    (host : Host) (a b c d : ℕ)
    → a < 256
    → b < 256
    → c < 256
    → d < 256
    → be32toh host (load_u32 host a b c d) ≡ d + 2 ^ 8 * c + 2 ^ 16 * b + 2 ^ 24 * a
unfolding be32toh load_u32
be32toh-load_u32 little a b c d ha hb hc hd = omega arith
be32toh-load_u32 big a b c d ha hb hc hd = refl

-- The RTAS header is read alike on machines of either byte order.
pub parse_rtas_vpd_header_host :
    (buf : Bytes)
    → All IsByte buf
    → parse_rtas_vpd_header little buf ≡ parse_rtas_vpd_header big buf
unfolding parse_rtas_vpd_header
parse_rtas_vpd_header_host [] h = refl
parse_rtas_vpd_header_host (a ∷ []) h = refl
parse_rtas_vpd_header_host (a ∷ b ∷ []) h = refl
parse_rtas_vpd_header_host (a ∷ b ∷ c ∷ []) h = refl
parse_rtas_vpd_header_host (a ∷ b ∷ c ∷ d ∷ []) h = refl
parse_rtas_vpd_header_host (a ∷ b ∷ c ∷ d ∷ type ∷ []) h = refl
parse_rtas_vpd_header_host (a ∷ b ∷ c ∷ d ∷ type ∷ lo ∷ []) h = refl
parse_rtas_vpd_header_host (a ∷ b ∷ c ∷ d ∷ type ∷ lo ∷ hi ∷ body) (ha, (hb, (hc, (hd, rest)))) =
    rw (be32toh-load_u32 little a b c d ha hb hc hd, be32toh-load_u32 big a b c d ha hb hc hd) refl

abbrev size_of : Outcome Header → ℕ
size_of (ok h) = h.size
size_of fault = 0

-- The OPAL header is not: the two bytes of its size are swapped on a little-endian machine only.
pub parse_opal_vpd_header_host :
    (lo hi : ℕ) (body : Bytes)
    → lo < 256
    → hi < 256
    → lo ≢ hi
    → parse_opal_vpd_header little (0x84 ∷ lo ∷ hi ∷ body)
      ≢ parse_opal_vpd_header big (0x84 ∷ lo ∷ hi ∷ body)
unfolding parse_opal_vpd_header
parse_opal_vpd_header_host lo hi body hl hh ne e = ne (omega (arith, ap size_of e))
