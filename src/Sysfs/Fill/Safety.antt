-- ===== src/Sysfs/Fill/Safety.antt =====
-- A PCI device is filled without a read outside of the file vpd.
use lsvpd.Base.{ℕ, List, ◌++◌, ◌≡◌, ◌≢◌, refl, Option, Bytes}
use lsvpd.Vpd.{Call}
use lsvpd.Ids.Parse.{Manufacturer}
use lsvpd.DeviceTree.Buffer.{Outcome, ok, fault}
use lsvpd.Sysfs.Pci.{fill_pci_dev_vpd}
use lsvpd.Sysfs.Pci.Laws.{fill_pci_dev_vpd-ne-fault}
use lsvpd.Sysfs.Fill.{PciIds, fill_pci_names, fill_pcids}
use lsvpd.Sysfs.Fill.Buses.{
  set_custom_vpd_fields, config_calls, before_custom, behind_vpd, fill_pci_dev,
}

-- What is done for a device whose file vpd gives `vpd`
abbrev pub IsFilled :
    (List Call → Bytes)
    → Option (List Manufacturer)
    → PciIds
    → Bytes
    → List Call
    → Option ℕ
    → Outcome (List Call)
    → Outcome (List Call)
    → Type 0
IsFilled described table i class nvme config fault res = ⊥
IsFilled described table i class nvme config (ok vpd) res =
    let first = (fill_pci_names table i ++ fill_pcids class) ++ vpd in
    res ≡ ok (first ++ set_custom_vpd_fields (described first) i ++ nvme ++ config_calls config)

-- Whatever the file vpd of a PCI device holds, the device is filled: its items are set from the
-- tables, by its class, from vpd, and then the fixed items of some cards, which see those before.
pub fill_pci_dev-IsFilled :
    (described : List Call → Bytes) (table : Option (List Manufacturer)) (i : PciIds)
    (class : Bytes) (vpd : Option Bytes) (nvme : List Call) (config : Option ℕ)
    → IsFilled described table i class nvme config
        (fill_pci_dev_vpd vpd)
        (fill_pci_dev described table i class vpd nvme config)
unfolding fill_pci_dev
fill_pci_dev-IsFilled described table i class vpd nvme config =
    go (fill_pci_dev_vpd vpd) (fill_pci_dev_vpd-ne-fault vpd)
  where
    go :
        (o : Outcome (List Call))
        → o ≢ fault
        → IsFilled described table i class nvme config o (
            behind_vpd described i nvme config
              (before_custom (fill_pci_names table i ++ fill_pcids class) o))
    go fault h = h refl
    go (ok calls) h = refl
