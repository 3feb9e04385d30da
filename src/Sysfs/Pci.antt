-- ===== src/Sysfs/Pci.antt =====
-- `parsePciVPDBuffer` and `fillPciDevVpd`: the VPD of a PCI device. A buffer is the block behind
-- the pointer, as in DeviceTree/Buffer, and `left` is the distance from `buf` to `end`. A `char` is
-- unsigned.
pub mod Laws
use lsvpd.Base.{
  ℕ, zero, suc, ◌+◌, ◌-◌, ◌*◌, ◌^◌, Bool, true, false, ◌||◌, List, [], ◌∷◌, ◌++◌, Option, none,
  some, ◌==◌, leb, ltb, if◌then◌else◌, Bytes, length, take, drop,
}
use lsvpd.Vpd.{Call}
use lsvpd.DeviceTree.Buffer.{
  Outcome, ok, fault, Parsed, complete, corrupt, after, record_calls, result,
}

-- The loop, with the rounds that may still be made; each takes at least 3 bytes.
unfoldable pub parse_pci_records : ℕ → Bytes → ℕ → Outcome Parsed
parse_pci_records zero buf left = ok (complete [])
parse_pci_records (suc fuel) buf zero = ok (complete [])
parse_pci_records (suc fuel) [] (suc left) = fault
parse_pci_records (suc fuel) (c ∷ []) (suc left) =
    if c == 0x78 || c == 0x79
    then ok (complete [])
    else if leb (suc left) 3
    then ok (corrupt [])
    else fault
parse_pci_records (suc fuel) (c ∷ d ∷ []) (suc left) =
    if c == 0x78 || c == 0x79
    then ok (complete [])
    else if leb (suc left) 3
    then ok (corrupt [])
    else fault
parse_pci_records (suc fuel) (k₀ ∷ k₁ ∷ len ∷ buf) (suc left) =
    let rest =
      after (record_calls k₀ k₁ (take len buf))
        (parse_pci_records fuel (drop len buf) (suc left - 3 - len)) in
    if k₀ == 0x78 || k₀ == 0x79
    then ok (complete [])
    else if leb (suc left) 3
    then ok (corrupt [])
    else if leb (suc left - 3) len
    then ok (corrupt [])
    else if ltb (length buf) len
    then fault
    else rest

-- Behind the length of the product name: the tests on the way to the first keyword.
unfoldable pub parse_pci_body : ℕ → ℕ → Bytes → Outcome (ℕ × List Call)
unfolding parse_pci_records
parse_pci_body size len body =
    if leb size 3
    then ok (0, [])
    else if leb size (3 + len)
    then ok (0, [])
    else if leb size (4 + len)
    then ok (0, [])
    else if leb size (6 + len)
    then ok (0, [])
    else result size (parse_pci_records (size - (6 + len)) (drop (len + 3) body) (size - (6 + len)))

-- `parsePciVPDBuffer`
unfoldable pub parse_pci_vpd_buffer : Bytes → ℕ → Outcome (ℕ × List Call)
unfolding parse_pci_body
parse_pci_vpd_buffer [] size = fault
parse_pci_vpd_buffer (c ∷ lo ∷ hi ∷ body) size =
    if c == 0x82
    then if leb size 1 then ok (0, []) else parse_pci_body size (lo + 2 ^ 8 * hi) body
    else ok (0, [])
parse_pci_vpd_buffer (c ∷ rest) size =
    if c == 0x82 then if leb size 1 then ok (0, []) else fault else ok (0, [])

-- `fillPciDevVpd`, for the bytes of the file vpd, none if there is none. Behind the bytes of a
-- string is a NUL.
unfoldable pub fill_pci_dev_vpd : Option Bytes → Outcome (List Call)
unfolding parse_pci_vpd_buffer
fill_pci_dev_vpd none = ok []
fill_pci_dev_vpd (some []) = ok []
fill_pci_dev_vpd (some (c ∷ cs)) =
    elim (parse_pci_vpd_buffer ((c ∷ cs) ++ 0 ∷ []) (length (c ∷ cs))) [
      | fault ↦ fault
      | ok r ↦ ok r.1
    ]
