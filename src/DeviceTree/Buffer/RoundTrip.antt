-- ===== src/DeviceTree/Buffer/RoundTrip.antt =====
-- A whole RTAS buffer: what is encoded is read back, and a size that overstates the block is not
-- noticed.
use lsvpd.Base.{
  ℕ, suc, ◌+◌, ◌-◌, ◌*◌, ◌/◌, ◌%◌, ◌^◌, ◌≤◌, ◌<◌, List, [], ◌∷◌, ◌++◌, ◌≡◌, ◌⊎◌, ◌∙◌, ap, arith,
  Bytes, length, drop, length-append, take-append, c_str, append-nil, some,
}
use lsvpd.Platform.{pf_powervm_lpar}
use lsvpd.Vpd.{set_value, description}
use lsvpd.DeviceTree.Buffer.{
  Host, load_u32, be32toh, ok, complete, rtas_name, parse_rtas_vpd_header, parse_body,
  parse_vpd_buffer, parse_records,
}
use lsvpd.DeviceTree.Buffer.ByteOrder.{be32toh-load_u32}
use lsvpd.DeviceTree.Buffer.Encode.{
  Item, AllItems, be32, encode_items, items_size, item_calls, rtas_size, encode_rtas,
}
use lsvpd.DeviceTree.Buffer.Records.{parse_records-encode_items}

pub drop-append_add : (n : ℕ) (xs ys : Bytes) → drop (length xs + n) (xs ++ ys) ≡ drop n ys
drop-append_add n [] ys = ap (λ (k : ℕ). drop k ys) (omega arith)
drop-append_add n (x ∷ xs) ys = rw suc-add (drop-append_add n xs ys)
  where
    suc-add : suc (length xs) + n ≡ suc (length xs + n)
    suc-add = omega arith

pub be32-value :
    (host : Host) (n : ℕ)
    → n < 2 ^ 32
    → be32toh host
        (load_u32 host (n / 2 ^ 24) ((n / 2 ^ 16) % 2 ^ 8) ((n / 2 ^ 8) % 2 ^ 8) (n % 2 ^ 8))
      ≡ n
be32-value host n h =
    be32toh-load_u32 host _ _ _ _ (omega arith) (omega arith) (omega arith) (omega arith)
    ∙ omega arith

pub rtas_name-encode :
    (size : ℕ) (name body : Bytes)
    → size + 4 < 2 ^ 32
    → length name + 3 ≤ size
    → rtas_name size (length name) (name ++ body)
      ≡ ok (record {
        size = size + 4;
        fru_name = some (c_str name);
        records = drop 3 body;
        left = size + 4 - (length name + 10);
      })
unfolding rtas_name
rtas_name-encode size name body hs hn =
    let e : (size + 4) % 2 ^ 32 ≡ size + 4 = omega arith in
    rw (take-append name body, drop-append_add 3 name body, e)
      (ground (arith, length-append name body))

-- The header of a buffer that states `size` and has `body` behind the name.
pub header_stated :
    (host : Host) (size : ℕ) (name body : Bytes)
    → size + 4 < 2 ^ 32
    → length name + 3 ≤ size
    → parse_rtas_vpd_header host
        (be32 size (0x82 ∷ length name % 2 ^ 8 ∷ length name / 2 ^ 8 ∷ (name ++ body)))
      ≡ ok (record {
        size = size + 4;
        fru_name = some (c_str name);
        records = drop 3 body;
        left = size + 4 - (length name + 10);
      })
unfolding parse_rtas_vpd_header
header_stated host size name body hs hn =
    let l : length name % 2 ^ 8 + 2 ^ 8 * (length name / 2 ^ 8) ≡ length name = omega arith in
    rw (be32-value host size (omega arith), l) (rtas_name-encode size name body hs hn)

pub header-encode_rtas :
    (host : Host) (name : Bytes) (is : List Item) (tag : ℕ) (rest : Bytes)
    → rtas_size name is + 4 < 2 ^ 32
    → parse_rtas_vpd_header host (encode_rtas name is tag rest)
      ≡ ok (record {
        size = rtas_size name is + 4;
        fru_name = some (c_str name);
        records = encode_items is (tag ∷ rest);
        left = items_size is + 1;
      })
header-encode_rtas host name is tag rest hs =
    let left : rtas_size name is + 4 - (length name + 10) ≡ items_size is + 1 = omega arith in
    header_stated host (rtas_size name is) name (0 ∷ 0 ∷ 0 ∷ encode_items is (tag ∷ rest)) hs
      (omega arith)
    ∙ rw left

parse_records-tag :
    (tag : ℕ) (rest : Bytes)
    → (tag ≡ 0x78) ⊎ (tag ≡ 0x79)
    → parse_records 1 (tag ∷ rest) 1 ≡ ok (complete [])
unfolding parse_records
parse_records-tag tag [] h = ground arith
parse_records-tag tag (c ∷ []) h = ground arith
parse_records-tag tag (c ∷ d ∷ rest) h = ground arith

parse_body-items :
    (name : Bytes) (is : List Item) (size tag : ℕ) (rest : Bytes)
    → AllItems is
    → (tag ≡ 0x78) ⊎ (tag ≡ 0x79)
    → 0 < size
    → parse_body (record {
      size = size;
      fru_name = some name;
      records = encode_items is (tag ∷ rest);
      left = items_size is + 1;
    })
      ≡ ok (size, set_value description name 80 ∷ item_calls is)
unfolding parse_body
parse_body-items name is size tag rest vs ht hs =
    rw
      (
        parse_records-encode_items is (items_size is + 1) 1 (tag ∷ rest) vs (omega arith),
        parse_records-tag tag rest ht,
        append-nil,
      )
      (ground arith)

-- Reading an encoded RTAS buffer gives back its size, its name and its keywords in order, whatever
-- follows it and whatever the byte order of the machine.
pub parse_vpd_buffer-encode_rtas :
    (host : Host) (name : Bytes) (is : List Item) (tag : ℕ) (rest : Bytes)
    → AllItems is
    → (tag ≡ 0x78) ⊎ (tag ≡ 0x79)
    → rtas_size name is + 4 < 2 ^ 32
    → parse_vpd_buffer host pf_powervm_lpar (encode_rtas name is tag rest)
      ≡ ok (rtas_size name is + 4, set_value description (c_str name) 80 ∷ item_calls is)
unfolding parse_vpd_buffer
parse_vpd_buffer-encode_rtas host name is tag rest vs ht hs =
    rw (header-encode_rtas host name is tag rest hs, parse_vpd_buffer)
      (parse_body-items (c_str name) is (rtas_size name is + 4) tag rest vs ht (omega arith))
