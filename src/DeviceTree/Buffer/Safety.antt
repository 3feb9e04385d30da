-- ===== src/DeviceTree/Buffer/Safety.antt =====
-- Which buffers `parseVPDBuffer` reads without leaving the block, and what it stores.
use lsvpd.Base.{
  ℕ, zero, suc, ◌+◌, ◌-◌, ◌*◌, ◌/◌, ◌%◌, ◌^◌, ◌≤◌, ◌<◌, List, [], ◌∷◌, ◌++◌, ◌≡◌, ◌≢◌, refl, arith,
  Bytes, length, length-drop, All,
}
use lsvpd.Platform.{pf_powervm_lpar}
use lsvpd.Vpd.Sanitize.Hex.{IsByte}
use lsvpd.DeviceTree.Buffer.{
  Host, Outcome, ok, fault, Header, name_calls, rtas_name, parse_rtas_vpd_header, parse_body,
  parse_vpd_buffer, parse_records,
}
use lsvpd.DeviceTree.Buffer.ByteOrder.{be32toh-load_u32}
use lsvpd.DeviceTree.Buffer.Encode.{Item, AllItems, be32, encode_items, items_size}
use lsvpd.DeviceTree.Buffer.Records.{
  after-ne-fault, parse_records-ne-fault, parse_records-encode_items,
}
use lsvpd.DeviceTree.Buffer.RoundTrip.{header_stated}

-- The number that the first four bytes state.
abbrev pub stated_size : Bytes → ℕ
stated_size (a ∷ b ∷ c ∷ d ∷ rest) = d + 2 ^ 8 * c + 2 ^ 16 * b + 2 ^ 24 * a
stated_size _ = 0

-- The header's records end inside the block.
abbrev InBlock : Outcome Header → Type 0
InBlock (ok h) = h.left ≤ length h.records
InBlock fault = ⊥

rtas_name-InBlock :
    (size dlen : ℕ) (body : Bytes) → size + 4 ≤ 7 + length body → InBlock (rtas_name size dlen body)
unfolding rtas_name
rtas_name-InBlock size dlen body h = ground (arith, length-drop (dlen + 3) body)

rtas_header-InBlock :
    (host : Host) (buf : Bytes)
    → All IsByte buf
    → 7 ≤ length buf
    → stated_size buf + 4 ≤ length buf
    → InBlock (parse_rtas_vpd_header host buf)
unfolding parse_rtas_vpd_header
rtas_header-InBlock host [] b h l = absurd (omega arith)
rtas_header-InBlock host (_ ∷ []) b h l = absurd (omega arith)
rtas_header-InBlock host (_ ∷ _ ∷ []) b h l = absurd (omega arith)
rtas_header-InBlock host (_ ∷ _ ∷ _ ∷ []) b h l = absurd (omega arith)
rtas_header-InBlock host (_ ∷ _ ∷ _ ∷ _ ∷ []) b h l = absurd (omega arith)
rtas_header-InBlock host (_ ∷ _ ∷ _ ∷ _ ∷ _ ∷ []) b h l = absurd (omega arith)
rtas_header-InBlock host (_ ∷ _ ∷ _ ∷ _ ∷ _ ∷ _ ∷ []) b h l = absurd (omega arith)
rtas_header-InBlock host (a ∷ b ∷ c ∷ d ∷ type ∷ lo ∷ hi ∷ body) (ha, (hb, (hc, (hd, _)))) h l =
    rw (be32toh-load_u32 host a b c d ha hb hc hd) (
      ground (
        arith,
        rtas_name-InBlock (d + 2 ^ 8 * c + 2 ^ 16 * b + 2 ^ 24 * a) (lo + 2 ^ 8 * hi) body
            (omega arith),
      ))

parse_body-ne-fault : (h : Header) → h.left ≤ length h.records → parse_body h ≢ fault
unfolding parse_body
parse_body-ne-fault h l = ground (
  arith,
  after-ne-fault (name_calls h.fru_name) (parse_records h.left h.records h.left),
  parse_records-ne-fault h.left h.records h.left l,
)

-- An RTAS buffer that is as long as it states is parsed without a read outside of it, whatever
-- else its bytes are.
pub parse_vpd_buffer-ne-fault :
    (host : Host) (buf : Bytes)
    → All IsByte buf
    → 7 ≤ length buf
    → stated_size buf + 4 ≤ length buf
    → parse_vpd_buffer host pf_powervm_lpar buf ≢ fault
unfolding parse_vpd_buffer
parse_vpd_buffer-ne-fault host buf b h l =
    go (parse_rtas_vpd_header host buf) (rtas_header-InBlock host buf b h l)
  where
    go : (o : Outcome Header) → InBlock o → (elim o [ fault ↦ fault | ok h ↦ parse_body h ]) ≢ fault
    go (ok h) i = parse_body-ne-fault h i
    go fault i = absurd i

parse_records_past_end : (left : ℕ) → 0 < left → parse_records left [] left ≡ fault
unfolding parse_records
parse_records_past_end zero h = elim h [ ]
parse_records_past_end (suc left) h = refl

-- An RTAS buffer that ends with its keywords, and states more than that, is read past its end.
pub parse_vpd_buffer_overread :
    (host : Host) (name : Bytes) (is : List Item) (size : ℕ)
    → AllItems is
    → 6 + length name + items_size is < size
    → size + 4 < 2 ^ 32
    → parse_vpd_buffer host pf_powervm_lpar (
        be32 size (
          0x82
          ∷ length name % 2 ^ 8
          ∷ length name / 2 ^ 8
          ∷ (name ++ (0 ∷ 0 ∷ 0 ∷ encode_items is []))))
      ≡ fault
unfolding parse_vpd_buffer parse_body
parse_vpd_buffer_overread host name is size vs more hs =
    let k : ℕ = size - (6 + length name + items_size is) in
    let left : size + 4 - (length name + 10) ≡ items_size is + k = omega arith in
    rw
      (
        header_stated host size name (0 ∷ 0 ∷ 0 ∷ encode_items is []) hs (omega arith),
        parse_vpd_buffer,
        left,
      )
      (rw
        (
          parse_records-encode_items is (items_size is + k) k [] vs (omega arith),
          parse_records_past_end k (omega arith),
        )
        (ground arith))
