-- ===== src/Sysfs/Numbers.antt =====
-- `scsiGetHTBL` and `ideGetHTBL`: the numbers in the name of a SCSI or IDE device. Behind a `:`
-- that is not found the code goes on from the start of the name.
pub mod Laws
use lsvpd.Base.{
  List, [], ◌∷◌, ◌++◌, Option, none, some, String, Bytes, codes, split_first, after_last,
}
use lsvpd.Vpd.{Call, add_device_specific}

abbrev pub number : Bytes → String → Bytes → Call
number key name text = add_device_specific key (codes name) text 60

-- The item for the text up to the next colon, and the text that is read next
abbrev pub next_number : Bytes → Bytes → String → Option (Bytes × Bytes) → List Call × Bytes
next_number whole key name none = ([], whole)
next_number whole key name (some (text, rest)) = (number key name text ∷ [], rest)

abbrev pub take_number : Bytes → Bytes → String → Bytes → List Call × Bytes
take_number whole key name rest = next_number whole key name (split_first b':' rest)

unfoldable pub scsi_numbers : Bytes → List Call
unfolding split_first
scsi_numbers name =
    let (host, r) = take_number name (codes "XH") "SCSI Host" name in
    let (bus, r') = take_number name (codes "XB") "SCSI Bus" r in
    let (target, r'') = take_number name (codes "XT") "SCSI Target" r' in
    host ++ bus ++ target ++ number (codes "XL") "SCSI Lun" r'' ∷ []

unfoldable pub scsi_get_htbl : Bytes → List Call
unfolding split_first after_last scsi_numbers
scsi_get_htbl node = elim (split_first b'/' node) [
  | none ↦ []
  | some _ ↦ scsi_numbers (after_last b'/' node)
]

unfoldable pub ide_get_htbl : Bytes → List Call
unfolding split_first after_last
ide_get_htbl node = elim (split_first b'/' node) [
  | none ↦ []
  | some _ ↦ number (codes "XI") "IDE Device Identifier" (after_last b'/' node) ∷ []
]
