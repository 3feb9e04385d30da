-- ===== src/DeviceTree/SystemVpd/Reading.antt =====
-- The system's loop over encoded keywords, and the end tag that it does not know.
use lsvpd.Base.{
  ℕ, zero, suc, ◌+◌, ◌-◌, ◌^◌, ◌≤◌, ◌<◌, List, [], ◌∷◌, ◌++◌, ◌≡◌, refl, sym, ◌∙◌, ap, arith, Bytes,
  length, length-append, take-append, drop-append, c_str, append_assoc, append-nil,
}
use lsvpd.Platform.{pf_powervm_lpar}
use lsvpd.DeviceTree.Buffer.{Host, Outcome, ok, fault}
use lsvpd.DeviceTree.Buffer.Encode.{
  Item, IsItem, AllItems, cons, encode_items, items_size, rtas_size, encode_rtas,
}
use lsvpd.DeviceTree.Buffer.RoundTrip.{header-encode_rtas}
use lsvpd.DeviceTree.SystemVpd.{
  SystemEffect, set_description, then_effects, system_record, parse_sys_records, sys_body,
  parse_sys_vpd,
}

abbrev pub item_effects : List Item → List SystemEffect
item_effects [] = []
item_effects (i ∷ is) = system_record i.key₀ i.key₁ i.value ++ item_effects is

then_effects-append :
    (es fs : List SystemEffect) (o : Outcome (List SystemEffect))
    → then_effects es (then_effects fs o) ≡ then_effects (es ++ fs) o
then_effects-append es fs (ok gs) = rw append_assoc
then_effects-append es fs fault = refl

then_effects-nil : (o : Outcome (List SystemEffect)) → then_effects [] o ≡ o
then_effects-nil (ok gs) = refl
then_effects-nil fault = refl

parse_sys_records-item :
    (f k : ℕ) (i : Item) (rest : Bytes)
    → IsItem i
    → parse_sys_records (suc f) (encode_items (i ∷ []) rest) (suc (2 + length i.value + k))
      ≡ then_effects (system_record i.key₀ i.key₁ i.value) (parse_sys_records f rest k)
unfolding parse_sys_records
parse_sys_records-item f k i rest h =
    let e : suc (2 + length i.value + k) - 3 - length i.value ≡ k = omega arith in
    rw (take-append i.value rest, drop-append i.value rest, e)
      (ground (arith, length-append i.value rest))

parse_sys_records-encode_items :
    (is : List Item) (f k : ℕ) (rest : Bytes)
    → AllItems is
    → items_size is + suc k ≤ f
    → (g : ℕ) × (parse_sys_records f (encode_items is rest) (items_size is + suc k)
        ≡ then_effects (item_effects is) (parse_sys_records (suc g) rest (suc k)))
parse_sys_records-encode_items [] zero k rest h hf = absurd (omega arith)
parse_sys_records-encode_items [] (suc f) k rest h hf =
    let e : 0 + suc k ≡ suc k = omega arith in
    (f, rw e (sym (then_effects-nil (parse_sys_records (suc f) rest (suc k)))))
parse_sys_records-encode_items (i ∷ is) zero k rest h hf = absurd (omega arith)
parse_sys_records-encode_items (i ∷ is) (suc f) k rest (cons v vs) hf =
    let e : 3 + length i.value + items_size is + suc k
        ≡ suc (2 + length i.value + (items_size is + suc k)) =
      omega arith in
    let (g, ih) = parse_sys_records-encode_items is f k rest vs (omega arith) in
    (
      g,
      rw e (
          parse_sys_records-item f (items_size is + suc k) i (encode_items is rest) v
          ∙ ap (then_effects (system_record i.key₀ i.key₁ i.value)) ih
          ∙ then_effects-append (system_record i.key₀ i.key₁ i.value) (item_effects is)
              (parse_sys_records (suc g) rest (suc k))),
    )

at_small_end : (g : ℕ) (rest : Bytes) → parse_sys_records (suc g) (0x78 ∷ rest) 1 ≡ ok []
unfolding parse_sys_records
at_small_end g [] = refl
at_small_end g (c ∷ []) = refl
at_small_end g (c ∷ d ∷ rest) = refl

at_large_end : (g : ℕ) → parse_sys_records (suc g) (0x79 ∷ []) 1 ≡ fault
unfolding parse_sys_records
at_large_end g = refl

-- An encoded RTAS buffer with the end tag 0x78 is read back: the name, then each keyword.
pub parse_sys_vpd-encode_rtas :
    (host : Host) (name : Bytes) (is : List Item) (rest : Bytes)
    → AllItems is
    → rtas_size name is + 4 < 2 ^ 32
    → parse_sys_vpd host pf_powervm_lpar (encode_rtas name is 0x78 rest)
      ≡ ok (set_description (c_str name) 60 ∷ item_effects is)
unfolding parse_sys_vpd sys_body
parse_sys_vpd-encode_rtas host name is rest vs hs =
    let (g, e) =
      parse_sys_records-encode_items is (items_size is + 1) 0 (0x78 ∷ rest) vs (omega arith) in
    rw (header-encode_rtas host name is 0x78 rest hs, parse_sys_vpd)
      (ground (arith, e, at_small_end g rest, append-nil (item_effects is)))

-- The end tag 0x79, at which `parseVPDBuffer` stops, is taken for a keyword: if the block ends with
-- it, the loop reads past the end.
pub parse_sys_vpd_large_end :
    (host : Host) (name : Bytes) (is : List Item)
    → AllItems is
    → rtas_size name is + 4 < 2 ^ 32
    → parse_sys_vpd host pf_powervm_lpar (encode_rtas name is 0x79 []) ≡ fault
unfolding parse_sys_vpd sys_body
parse_sys_vpd_large_end host name is vs hs =
    let (g, e) =
      parse_sys_records-encode_items is (items_size is + 1) 0 (0x79 ∷ []) vs (omega arith) in
    rw (header-encode_rtas host name is 0x79 [] hs, parse_sys_vpd)
      (ground (arith, e, at_large_end g))
