-- ===== src/Tests/Values.antt =====
-- VPD values, platforms, names of devices and location codes at concrete inputs.
use lsvpd.Base.{
  ℕ, ◌++◌, true, false, List, [], ◌∷◌, ◌≡◌, ◌≢◌, refl, arith, Bytes, codes, All, starts_with, same,
}
use lsvpd.Vpd.Fields.{set_vpd_field}
use lsvpd.Vpd.Fru.{get_fru_description}
use lsvpd.Vpd.Sanitize.{sanitize_vpd_field}
use lsvpd.Vpd.Sanitize.Hex.{Printable}
use lsvpd.Vpd.Sanitize.Laws.{nuls, has_mark, sanitize_vpd_field-Printable}
use lsvpd.Platform.{PlatformState, pf_null, pf_sp_null, line_kind, powernv}
use lsvpd.Platform.Laws.{IsPlain}
use lsvpd.DeviceTree.Buffer.{ok}
use lsvpd.DeviceTree.Names.{is_device}

fru_anchor : get_fru_description (codes "AV1") ≡ codes "Anchor VPD"
unfolding get_fru_description
fru_anchor = refl

part_number : set_vpd_field (codes "VP") (codes "7") ≡ set_vpd_field (codes "PN") (codes "7")
unfolding set_vpd_field same
part_number = refl

dump : sanitize_vpd_field (1 ∷ 0x12 ∷ []) ≡ codes "0x112"
unfolding sanitize_vpd_field
dump = refl

sanitize_vpd_field-Printable_example :
    All Printable (sanitize_vpd_field (1 ∷ 200 ∷ [])) × (sanitize_vpd_field (1 ∷ 200 ∷ []) ≢ [])
sanitize_vpd_field-Printable_example = sanitize_vpd_field-Printable (1 ∷ 200 ∷ []) (omega arith)

binary_value :
    (text : Bytes) (n : ℕ) → 0 ∷ [] ≡ text ++ nuls n → All Printable text → has_mark text ≡ false
binary_value [] n e h = refl
binary_value (c ∷ cs) n e h = ground (arith, h.0, e)

abbrev plain_line : List Bytes
plain_line = codes "processor : 0" ∷ []

abbrev unknown : PlatformState
unknown = record { platform_type = pf_null; platform_sp_type = pf_sp_null }

plain_line-IsPlain : All IsPlain plain_line
unfolding line_kind
plain_line-IsPlain = ground arith

power_line : line_kind (codes "machine : PowerNV") ≡ powernv
unfolding line_kind
power_line = refl

pci_is_device : is_device (codes "pci@1f") ≡ ok true
unfolding is_device starts_with
pci_is_device = refl
