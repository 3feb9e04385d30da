-- ===== src/Sysfs/Pci/Laws.antt =====
-- The VPD of a PCI device is read inside its block, and gives back what was encoded.
use lsvpd.Base.{
  ℕ, zero, suc, ◌+◌, ◌-◌, ◌*◌, ◌/◌, ◌%◌, ◌^◌, ◌≤◌, ◌<◌, List, [], ◌∷◌, ◌++◌, ◌≡◌, ◌≢◌, ◌⊎◌, refl,
  sym, ◌∙◌, ap, arith, Option, none, some, Bytes, length, take, drop, length-drop, length-append,
  take-append, drop-append, append_assoc,
}
use lsvpd.Vpd.{Call}
use lsvpd.DeviceTree.Buffer.{
  Outcome, ok, fault, Parsed, complete, corrupt, after, record_calls, result,
}
use lsvpd.DeviceTree.Buffer.Encode.{
  Item, IsItem, AllItems, cons, encode_items, items_size, item_calls,
}
use lsvpd.DeviceTree.Buffer.Records.{after-ne-fault}
use lsvpd.Sysfs.Pci.{parse_pci_records, parse_pci_body, parse_pci_vpd_buffer, fill_pci_dev_vpd}

-- Rounds beyond the distance to the end are never made.
parse_pci_records-fuel :
    (f g : ℕ) (buf : Bytes) (left : ℕ)
    → left ≤ f
    → left ≤ g
    → parse_pci_records f buf left ≡ parse_pci_records g buf left
unfolding parse_pci_records
parse_pci_records-fuel zero zero buf left hf hg = refl
parse_pci_records-fuel zero (suc g) buf zero hf hg = refl
parse_pci_records-fuel (suc f) zero buf zero hf hg = refl
parse_pci_records-fuel zero (suc g) buf (suc left) hf hg = absurd (omega arith)
parse_pci_records-fuel (suc f) zero buf (suc left) hf hg = absurd (omega arith)
parse_pci_records-fuel (suc f) (suc g) buf zero hf hg = refl
parse_pci_records-fuel (suc f) (suc g) [] (suc left) hf hg = refl
parse_pci_records-fuel (suc f) (suc g) (c ∷ []) (suc left) hf hg = refl
parse_pci_records-fuel (suc f) (suc g) (c ∷ d ∷ []) (suc left) hf hg = refl
parse_pci_records-fuel (suc f) (suc g) (k₀ ∷ k₁ ∷ len ∷ buf) (suc left) hf hg =
    rw (parse_pci_records-fuel f g (drop len buf) (suc left - 3 - len) (omega arith) (omega arith))

parse_pci_records-ne-fault :
    (f : ℕ) (buf : Bytes) (left : ℕ) → left ≤ length buf → parse_pci_records f buf left ≢ fault
unfolding parse_pci_records
parse_pci_records-ne-fault zero buf left h = cc
parse_pci_records-ne-fault (suc f) buf zero h = cc
parse_pci_records-ne-fault (suc f) [] (suc left) h = absurd (omega arith)
parse_pci_records-ne-fault (suc f) (c ∷ []) (suc left) h = ground arith
parse_pci_records-ne-fault (suc f) (c ∷ d ∷ []) (suc left) h = ground arith
parse_pci_records-ne-fault (suc f) (k₀ ∷ k₁ ∷ len ∷ buf) (suc left) h = ground (
  arith,
  after-ne-fault (record_calls k₀ k₁ (take len buf))
      (parse_pci_records f (drop len buf) (suc left - 3 - len)),
  parse_pci_records-ne-fault f (drop len buf) (suc left - 3 - len),
  length-drop len buf,
)

result-ne-fault : (size : ℕ) (o : Outcome Parsed) → o ≢ fault → result size o ≢ fault
result-ne-fault size (ok (complete cs)) h = cc
result-ne-fault size (ok (corrupt cs)) h = cc
result-ne-fault size fault h = absurd (h refl)

parse_pci_body-ne-fault :
    (size len : ℕ) (body : Bytes) → size ≤ 3 + length body → parse_pci_body size len body ≢ fault
unfolding parse_pci_body
parse_pci_body-ne-fault size len body h = ground (
  arith,
  result-ne-fault size
      (parse_pci_records (size - (6 + len)) (drop (len + 3) body) (size - (6 + len))),
  parse_pci_records-ne-fault (size - (6 + len)) (drop (len + 3) body) (size - (6 + len)),
  length-drop (len + 3) body,
)

parse_pci_vpd_buffer-ne-fault :
    (buf : Bytes) (size : ℕ) → size < length buf → parse_pci_vpd_buffer buf size ≢ fault
unfolding parse_pci_vpd_buffer
parse_pci_vpd_buffer-ne-fault [] size h = absurd (omega arith)
parse_pci_vpd_buffer-ne-fault (c ∷ []) size h = ground arith
parse_pci_vpd_buffer-ne-fault (c ∷ d ∷ []) size h = ground arith
parse_pci_vpd_buffer-ne-fault (c ∷ lo ∷ hi ∷ body) size h =
    ground (arith, parse_pci_body-ne-fault size (lo + 2 ^ 8 * hi) body (omega arith))

-- Whatever the file vpd of a PCI device holds, it is read without a read outside of its bytes.
pub fill_pci_dev_vpd-ne-fault : (file : Option Bytes) → fill_pci_dev_vpd file ≢ fault
unfolding fill_pci_dev_vpd
fill_pci_dev_vpd-ne-fault none = cc
fill_pci_dev_vpd-ne-fault (some []) = cc
fill_pci_dev_vpd-ne-fault (some (c ∷ cs)) =
    go (parse_pci_vpd_buffer ((c ∷ cs) ++ 0 ∷ []) (length (c ∷ cs))) (
      parse_pci_vpd_buffer-ne-fault ((c ∷ cs) ++ 0 ∷ []) (length (c ∷ cs))
        (omega (arith, length-append (c ∷ cs) (0 ∷ []))))
  where
    go :
        (o : Outcome (ℕ × List Call))
        → o ≢ fault
        → (elim o [ fault ↦ fault | ok r ↦ ok r.1 ]) ≢ fault
    go fault h = absurd (h refl)
    go (ok r) h = cc

parse_pci_records-item :
    (f k : ℕ) (i : Item) (rest : Bytes)
    → IsItem i
    → 0 < k
    → parse_pci_records (suc f) (encode_items (i ∷ []) rest) (suc (2 + length i.value + k))
      ≡ after (record_calls i.key₀ i.key₁ i.value) (parse_pci_records f rest k)
unfolding parse_pci_records
parse_pci_records-item f k i rest h hk =
    let e : suc (2 + length i.value + k) - 3 - length i.value ≡ k = omega arith in
    rw (take-append i.value rest, drop-append i.value rest, e)
      (ground (arith, length-append i.value rest))

-- Over encoded keywords and an end tag the loop makes their calls and ends.
parse_pci_records-encode_items :
    (is : List Item) (f k tag : ℕ) (rest : Bytes)
    → AllItems is
    → (tag ≡ 0x78) ⊎ (tag ≡ 0x79)
    → items_size is + suc k ≤ f
    → parse_pci_records f (encode_items is (tag ∷ rest)) (items_size is + suc k)
      ≡ ok (complete (item_calls is))
unfolding parse_pci_records
parse_pci_records-encode_items [] zero k tag rest h t hf = absurd (omega arith)
parse_pci_records-encode_items [] (suc f) k tag [] h t hf = ground arith
parse_pci_records-encode_items [] (suc f) k tag (a ∷ []) h t hf = ground arith
parse_pci_records-encode_items [] (suc f) k tag (a ∷ b ∷ rest) h t hf = ground arith
parse_pci_records-encode_items (i ∷ is) zero k tag rest h t hf = absurd (omega arith)
parse_pci_records-encode_items (i ∷ is) (suc f) k tag rest (cons v vs) t hf =
    let e : 3 + length i.value + items_size is + suc k
        ≡ suc (2 + length i.value + (items_size is + suc k)) =
      omega arith in
    rw e (
      parse_pci_records-item f (items_size is + suc k) i (encode_items is (tag ∷ rest)) v
        (omega arith)
      ∙ ap (after (record_calls i.key₀ i.key₁ i.value))
          (parse_pci_records-encode_items is f k tag rest vs t (omega arith)))

-- The layout of the VPD of a PCI device: a name, the tag of the keywords with two bytes of a
-- length, the keywords, and an end tag
abbrev pub encode_pci : Bytes → Bytes → List Item → ℕ → Bytes → Bytes
encode_pci name header is tag rest =
    0x82
    ∷ length name % 2 ^ 8
    ∷ length name / 2 ^ 8
    ∷ (name ++ (header ++ encode_items is (tag ∷ rest)))

drop-two : (a b c : Bytes) (n : ℕ) → length a + length b ≡ n → drop n (a ++ (b ++ c)) ≡ c
drop-two a b c n h =
    ap (λ m. drop m (a ++ (b ++ c))) (sym h ∙ sym (length-append a b))
    ∙ ap (drop (length (a ++ b))) (sym (append_assoc a b c))
    ∙ drop-append (a ++ b) c

parse_pci_body-items :
    (name header : Bytes) (is : List Item) (tag : ℕ) (rest : Bytes) (k : ℕ)
    → AllItems is
    → (tag ≡ 0x78) ⊎ (tag ≡ 0x79)
    → length header ≡ 3
    → parse_pci_body
        (6 + length name + (items_size is + suc k))
        (length name)
        (name ++ (header ++ encode_items is (tag ∷ rest)))
      ≡ ok (6 + length name + (items_size is + suc k), item_calls is)
unfolding parse_pci_body
parse_pci_body-items name header is tag rest k v t h =
    let e : 6 + length name + (items_size is + suc k) - (6 + length name) ≡ items_size is + suc k =
      omega arith in
    rw
      (
        drop-two name header (encode_items is (tag ∷ rest)) (length name + 3) (omega arith),
        e,
        parse_pci_records-encode_items is (items_size is + suc k) k tag rest v t (omega arith),
      )
      (ground arith)

-- The VPD of a PCI device gives back its keywords in order, whatever follows the end tag in the
-- buffer, if three bytes stand between the name and the keywords.
pub parse_pci_vpd_buffer-encode_pci :
    (name header : Bytes) (is : List Item) (tag : ℕ) (rest : Bytes) (k : ℕ)
    → AllItems is
    → (tag ≡ 0x78) ⊎ (tag ≡ 0x79)
    → length header ≡ 3
    → parse_pci_vpd_buffer
        (encode_pci name header is tag rest)
        (6 + length name + (items_size is + suc k))
      ≡ ok (6 + length name + (items_size is + suc k), item_calls is)
unfolding parse_pci_vpd_buffer
parse_pci_vpd_buffer-encode_pci name header is tag rest k v t h =
    let e : length name % 2 ^ 8 + 2 ^ 8 * (length name / 2 ^ 8) ≡ length name = omega arith in
    rw (e, parse_pci_body-items name header is tag rest k v t h) (ground arith)
