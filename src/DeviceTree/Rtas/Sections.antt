-- ===== src/DeviceTree/Rtas/Sections.antt =====
-- Section after section, the components come out as they were encoded.
use lsvpd.Base.{
  ℕ, zero, suc, ◌+◌, ◌^◌, ◌≤◌, ◌<◌, List, [], ◌∷◌, ◌++◌, ◌≡◌, ◌⊎◌, refl, ap, ◌∙◌, arith,
  if◌then◌else◌, Bytes, codes, same, drop, length, c_str,
}
use lsvpd.Platform.{PlatformType, pf_powervm_lpar}
use lsvpd.Vpd.{Call, set_value, description}
use lsvpd.DeviceTree.Buffer.{Host, Outcome, ok, fault, parse_vpd_buffer}
use lsvpd.DeviceTree.Buffer.Encode.{
  Item, AllItems, encode_items, items_size, item_calls, rtas_size, encode_rtas,
}
use lsvpd.DeviceTree.Buffer.RoundTrip.{parse_vpd_buffer-encode_rtas, drop-append_add}
use lsvpd.DeviceTree.Rtas.{RtasDevice, parse_sections, parse_rtas_vpd}

pub record Section : Type 0 where
  pub name : Bytes
  pub items : List Item
  pub tag : ℕ

pub record IsSection (s : Section) : Type 0 where
  pub items_fit : AllItems s.items
  pub end_tag : (s.tag ≡ 0x78) ⊎ (s.tag ≡ 0x79)
  pub size_fits : rtas_size s.name s.items + 4 < 2 ^ 31

pub data AllSections : List Section → Type 0 where
  nil : AllSections []
  cons : {s : Section} {ss : List Section} → IsSection s → AllSections ss → AllSections (s ∷ ss)

abbrev pub encode_sections : List Section → Bytes → Bytes
encode_sections [] rest = rest
encode_sections (s ∷ ss) rest = encode_rtas s.name s.items s.tag (encode_sections ss rest)

abbrev pub sections_size : List Section → ℕ
sections_size [] = 0
sections_size (s ∷ ss) = rtas_size s.name s.items + 4 + sections_size ss

-- What a component made from the section is told.
abbrev pub section_calls : Section → List Call
section_calls s = set_value description (c_str s.name) 80 ∷ item_calls s.items

drop-encode_items :
    (is : List Item) (n : ℕ) (rest : Bytes)
    → drop (items_size is + n) (encode_items is rest) ≡ drop n rest
drop-encode_items [] n rest = ap (λ (k : ℕ). drop k rest) (omega arith)
drop-encode_items (i ∷ is) n rest =
    let e : items_size (i ∷ is) + n ≡ suc (suc (suc (length i.value + (items_size is + n)))) =
      omega arith in
    rw e (
      drop-append_add (items_size is + n) i.value (encode_items is rest)
      ∙ drop-encode_items is n rest)

drop-encode_rtas :
    (name : Bytes) (is : List Item) (tag : ℕ) (rest : Bytes)
    → drop (rtas_size name is + 4) (encode_rtas name is tag rest) ≡ rest
drop-encode_rtas name is tag rest =
    let e : rtas_size name is + 4
        ≡ suc (
            suc (suc (suc (suc (suc (suc (length name + suc (suc (suc (items_size is + 1)))))))))) =
      omega arith in
    rw e (
      drop-append_add (suc (suc (suc (items_size is + 1)))) name
        (0 ∷ 0 ∷ 0 ∷ encode_items is (tag ∷ rest))
      ∙ drop-encode_items is 1 (tag ∷ rest))

module _ (get_description get_physical_location : List Call → Bytes) where
  -- The components for the sections that do not describe the system.
  pub devices : List Section → List RtasDevice
  devices [] = []
  devices (s ∷ ss) =
      let cs = section_calls s in
      let rest = devices ss in
      if same (get_description cs) (codes "System VPD")
      then rest
      else record { calls = cs; id = codes "/proc/device-tree/rtas/" ++ get_physical_location cs }
        ∷ rest

  parse_sections-encode :
      (host : Host) (ss : List Section) (total fuel size : ℕ) (rest : Bytes)
      → AllSections ss
      → size + sections_size ss ≡ total
      → sections_size ss ≤ fuel
      → parse_sections get_description get_physical_location host pf_powervm_lpar total fuel
          (encode_sections ss rest)
          size
        ≡ ok (devices ss)
  unfolding parse_sections devices
  parse_sections-encode host [] total zero size rest vs ht hf = refl
  parse_sections-encode host [] total (suc fuel) size rest vs ht hf = ground arith
  parse_sections-encode host (s ∷ ss) total zero size rest vs ht hf = absurd (omega arith)
  parse_sections-encode host (s ∷ ss) total (suc fuel) size rest (cons v vs) ht hf =
      let e =
        parse_vpd_buffer-encode_rtas host s.name s.items s.tag (encode_sections ss rest) v.items_fit
          v.end_tag (omega (arith, v.size_fits)) in
      let d = drop-encode_rtas s.name s.items s.tag (encode_sections ss rest) in
      let ih =
        parse_sections-encode host ss total fuel (size + (rtas_size s.name s.items + 4)) rest vs
          (omega arith) (omega arith) in
      ground (arith, e, d, ih, v.size_fits)

  -- The data of encoded sections gives one component for each section that is not the system's, in
  -- order, with the section's name and keywords.
  pub parse_rtas_vpd-encode :
      (host : Host) (ss : List Section) (rest : Bytes)
      → AllSections ss
      → sections_size ss < 2 ^ 63
      → parse_rtas_vpd get_description get_physical_location host pf_powervm_lpar
          (encode_sections ss rest)
          (sections_size ss)
        ≡ ok (devices ss)
  unfolding parse_rtas_vpd
  parse_rtas_vpd-encode host [] rest vs h = unfold devices in refl
  parse_rtas_vpd-encode host (s ∷ ss) rest vs h =
      let total = sections_size (s ∷ ss) in
      ground (
        arith,
        parse_sections-encode host (s ∷ ss) total total 0 rest vs (omega arith) (omega arith),
      )

  -- Each buffer that the loop takes has at least one byte, so rounds beyond the bytes that are left
  -- are never made.
  pub parse_sections-fuel :
      (host : Host) (p : PlatformType) (total f g : ℕ) (buf : Bytes) (size : ℕ)
      → total ≤ size + f
      → total ≤ size + g
      → parse_sections get_description get_physical_location host p total f buf size
        ≡ parse_sections get_description get_physical_location host p total g buf size
  unfolding parse_sections
  parse_sections-fuel host p total zero zero buf size hf hg = refl
  parse_sections-fuel host p total zero (suc g) buf size hf hg = ground arith
  parse_sections-fuel host p total (suc f) zero buf size hf hg = ground arith
  parse_sections-fuel host p total (suc f) (suc g) buf size hf hg =
      go (parse_vpd_buffer host p buf) refl λ ret pos.
        parse_sections-fuel host p total f g (drop ret buf) (size + ret) (omega arith) (omega arith)
    where
      go :
          (o : Outcome (ℕ × List Call))
          → parse_vpd_buffer host p buf ≡ o
          → ((ret : ℕ)
              → 0 < ret
              → parse_sections get_description get_physical_location host p total f
                  (drop ret buf)
                  (size + ret)
                ≡ parse_sections get_description get_physical_location host p total g
                    (drop ret buf)
                    (size + ret))
          → parse_sections get_description get_physical_location host p total (suc f) buf size
            ≡ parse_sections get_description get_physical_location host p total (suc g) buf size
      go fault e ih = ground (arith, e)
      go (ok (zero, cs)) e ih = ground (arith, e)
      go (ok (suc ret, cs)) e ih = ground (arith, e, ih (suc ret) (omega arith))
