-- ===== src/Sysfs/Numbers/Laws.antt =====
-- The numbers of a SCSI device are read back from its name.
use lsvpd.Base.{
  ℕ, false, ◌==◌, List, [], ◌∷◌, ◌++◌, ◌≡◌, inl, inr, refl, arith, some, Bytes, codes, split_first,
  after_last, Bool-cases,
}
use lsvpd.Scsi.Templates.Codes.{has, split_first-has}
use lsvpd.Scsi.Templates.Process.Cuts.{split_first-none}
use lsvpd.Vpd.{Call}
use lsvpd.Sysfs.Numbers.{number, scsi_numbers, scsi_get_htbl}

split_first-some :
    (x : ℕ) (a b : Bytes) → (p : Bytes × Bytes) × (split_first x (a ++ x ∷ b) ≡ some p)
unfolding split_first
split_first-some x [] b = (([], b), ground arith)
split_first-some x (c ∷ a) b = elim (Bool-cases (c == x)) [
  | inl k ↦ (([], a ++ x ∷ b), rw k refl)
  | inr k ↦ let (p, h) = split_first-some x a b in ((c ∷ p.0, p.1), rw (k, h) refl)
]

after_last-none : (x : ℕ) (b : Bytes) → has x b ≡ false → after_last x b ≡ b
unfolding after_last
after_last-none x [] h = refl
after_last-none x (c ∷ b) h = rw (after_last, split_first-none x (c ∷ b) h) refl

after_last-behind : (x : ℕ) (a b : Bytes) → has x b ≡ false → after_last x (a ++ x ∷ b) ≡ b
unfolding after_last
after_last-behind x [] b h = rw (after_last, (split_first-some x [] b).1) (after_last-none x b h)
after_last-behind x (c ∷ a) b h =
    rw (after_last, (split_first-some x (c ∷ a) b).1) (after_last-behind x a b h)

abbrev pub four_numbers : Bytes → Bytes → Bytes → Bytes → List Call
four_numbers host bus target lun =
    number (codes "XH") "SCSI Host" host
    ∷ number (codes "XB") "SCSI Bus" bus
    ∷ number (codes "XT") "SCSI Target" target
    ∷ number (codes "XL") "SCSI Lun" lun
    ∷ []

abbrev pub four_texts : Bytes → Bytes → Bytes → Bytes → Bytes
four_texts host bus target lun = host ++ b':' ∷ (bus ++ b':' ∷ (target ++ b':' ∷ lun))

scsi_numbers-four :
    (host bus target lun : Bytes)
    → has b':' host ≡ false
    → has b':' bus ≡ false
    → has b':' target ≡ false
    → scsi_numbers (four_texts host bus target lun) ≡ four_numbers host bus target lun
unfolding scsi_numbers
scsi_numbers-four host bus target lun h b t =
    rw
      (
        split_first-has b':' host (bus ++ b':' ∷ (target ++ b':' ∷ lun)) h,
        split_first-has b':' bus (target ++ b':' ∷ lun) b,
        split_first-has b':' target lun t,
      )
      refl

-- In any directory, the device whose name is four numbers with a colon between two of them gives
-- the four items, if no other colon is in the first three and no slash is in the name.
pub scsi_get_htbl-four :
    (dir host bus target lun : Bytes)
    → has b':' host ≡ false
    → has b':' bus ≡ false
    → has b':' target ≡ false
    → has b'/' (four_texts host bus target lun) ≡ false
    → scsi_get_htbl (dir ++ b'/' ∷ four_texts host bus target lun)
      ≡ four_numbers host bus target lun
unfolding scsi_get_htbl
scsi_get_htbl-four dir host bus target lun h b t s =
    let name = four_texts host bus target lun in
    rw (scsi_get_htbl, (split_first-some b'/' dir name).1, after_last-behind b'/' dir name s)
      (scsi_numbers-four host bus target lun h b t)
