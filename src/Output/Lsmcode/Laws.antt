-- ===== src/Output/Lsmcode/Laws.antt =====
-- Which firmware lsmcode prints, and how its levels are read.
use lsvpd.Base.{
  suc, ◌-◌, Bool, true, false, List, [], ◌∷◌, ◌++◌, ◌≡◌, refl, arith, ap, sym, ◌∙◌, inl, inr,
  Option, none, some, if◌then◌else◌, Bytes, codes, same, Bool-cases, length, take, append_assoc,
  starts_with,
}
use lsvpd.Scsi.Templates.Codes.{has, split_first-has}
use lsvpd.Gatherer.{Forest, nil, tree, nodes}
use lsvpd.Output.{Component}
use lsvpd.Output.Archive.Laws.{split_last-join}
use lsvpd.Output.Lsmcode.{
  Firmware, not_found, printed, thrown, newline, is_firmware, or_thrown, or_next, system_firmware,
  print_firmware, levels,
}
use lsvpd.Output.Lsmcode.Bmc.{
  from_text, bmc_get_fw_dt_info, bmc_get_product_version, first_property, product_version,
  product_extra,
}

-- The first component of a list that is the firmware.
unfoldable pub first_firmware : Bool → List Component → Firmware
first_firmware all [] = not_found
first_firmware all (c ∷ cs) =
    let later = first_firmware all cs in
    if is_firmware c then or_thrown (system_firmware all c) else later

or_next_assoc : (a b c : Firmware) → or_next (or_next a b) c ≡ or_next a (or_next b c)
or_next_assoc not_found b c = refl
or_next_assoc (printed text) b c = refl
or_next_assoc thrown b c = refl

or_thrown-ends : (o : Option Bytes) (f : Firmware) → or_next (or_thrown o) f ≡ or_thrown o
or_thrown-ends none f = refl
or_thrown-ends (some text) f = refl

first_firmware-append :
    (all : Bool) (xs ys : List Component)
    → first_firmware all (xs ++ ys) ≡ or_next (first_firmware all xs) (first_firmware all ys)
unfolding first_firmware
first_firmware-append all [] ys = refl
first_firmware-append all (c ∷ xs) ys = elim (Bool-cases (is_firmware c)) [
  | inl h ↦ rw h (sym (or_thrown-ends (system_firmware all c) (first_firmware all ys)))
  | inr h ↦ rw h (first_firmware-append all xs ys)
]

-- Of a tree the firmware of the first component that is the system's firmware is printed, where a
-- component comes before those below it.
pub print_firmware-first :
    (all : Bool) (forest : Forest Component)
    → print_firmware all forest ≡ first_firmware all (nodes forest)
unfolding print_firmware first_firmware
print_firmware-first all nil = refl
print_firmware-first all (tree c leaves next) = elim (Bool-cases (is_firmware c)) [
  | inl h ↦ rw h refl
  | inr h ↦
      rw (h, print_firmware-first all leaves, print_firmware-first all next)
        (sym (first_firmware-append all (nodes leaves) (nodes next)))
]

-- Three levels with spaces between them are read back; the middle one may have spaces itself.
pub levels-join :
    (t p b : Bytes)
    → has b' ' t ≡ false
    → has b' ' b ≡ false
    → levels (t ++ b' ' ∷ (p ++ b' ' ∷ b)) ≡ (t, p, b)
unfolding levels
levels-join t p b h k =
    rw (levels, split_first-has b' ' t (p ++ b' ' ∷ b) h, split_last-join b' ' p b k) refl

take-line : (v rest : Bytes) → take (suc (length v)) (v ++ 10 ∷ rest) ≡ v ++ newline
take-line [] rest = refl
take-line (c ∷ v) rest = rw (take-line v rest) refl

abbrev header : Bytes
header =
    newline
    ++ codes " Product Name          : OpenPOWER Firmware"
    ++ newline
    ++ codes " Product Version       : "

fw_dt_info-header :
    (names : List Bytes) (exists : Bytes → Bool) (read : Bytes → Bytes) (v : Bytes)
    → exists (codes "version") ≡ true
    → read (codes "version") ≡ v
    → same v [] ≡ false
    → bmc_get_fw_dt_info (some names) exists read
      ≡ header ++ (v ++ 10 ∷ product_extra read (codes "version") names)
unfolding bmc_get_fw_dt_info first_property product_version same
fw_dt_info-header names exists read v e r n =
    rw (e, r, n, append_assoc v newline (product_extra read (codes "version") names)) refl

version-header :
    (v rest : Bytes)
    → has 10 v ≡ false
    → bmc_get_product_version (header ++ (v ++ 10 ∷ rest)) ≡ v ++ newline
unfolding bmc_get_product_version from_text starts_with
version-header v rest h =
    let d : suc (suc (length v)) - 1 ≡ suc (length v) = omega arith in
    rw (bmc_get_product_version, split_first-has 10 (b':' ∷ b' ' ∷ v) rest h, d) (take-line v rest)

-- The version that the device tree states is what is printed as the version of the system, with the
-- end of its line.
pub bmc_get_product_version-version :
    (names : List Bytes) (exists : Bytes → Bool) (read : Bytes → Bytes) (v : Bytes)
    → exists (codes "version") ≡ true
    → read (codes "version") ≡ v
    → same v [] ≡ false
    → has 10 v ≡ false
    → bmc_get_product_version (bmc_get_fw_dt_info (some names) exists read) ≡ v ++ newline
bmc_get_product_version-version names exists read v e r n h =
    ap bmc_get_product_version (fw_dt_info-header names exists read v e r n)
    ∙ version-header v (product_extra read (codes "version") names) h
