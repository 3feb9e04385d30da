-- ===== src/Scsi/Templates/Process.antt =====
-- `strdupTrim` and `process_template`: what the fields of a format take from a page of data.
pub mod Cuts
use lsvpd.Base.{
  ℕ, zero, suc, ◌+◌, ◌-◌, ◌*◌, ◌/◌, ◌%◌, ◌^◌, Bool, true, false, ◌||◌, ◌&&◌, List, [], ◌∷◌, ◌++◌,
  Option, none, some, ◌==◌, ltb, leb, if◌then◌else◌, Bytes, codes, find, split_first, length, take,
  drop, same, c_str, isspace, within, get_elem?,
}
use lsvpd.Vpd.{Call, set_value, record_type, plant_mfg, second_location}
use lsvpd.Vpd.Fields.{set_vpd_field}
use lsvpd.Scsi.Templates.Fields.{ℤ, pos, negsuc, get_field_name, get_field_value, hexify}

-- A result, or a read outside the buffer.
pub data Read {ℓ} (A : Type ℓ) : Type ℓ where
  got : A → Read A
  outside : Read A

-- The blanks before the text, and the spaces behind it.
unfoldable pub trim_start : Bytes → Bytes
trim_start [] = []
trim_start (c ∷ cs) = let rest = trim_start cs in if c == b' ' || c == 10 then rest else c ∷ cs

unfoldable pub trim_end : Bytes → Bytes
trim_end [] = []
trim_end (c ∷ cs) = elim (trim_end cs) [
  | [] ↦ if c == b' ' then [] else c ∷ []
  | d ∷ ds ↦ c ∷ d ∷ ds
]

-- `strdupTrim(data + loc, size)`. A size below zero is a very large one for `strndup`, which then
-- copies up to the NUL.
unfoldable pub strdup_trim : Bytes → ℕ → ℤ → Read Bytes
unfolding trim_start trim_end c_str
strdup_trim bytes loc (pos zero) = got []
strdup_trim bytes loc (pos (suc n)) =
    if ltb (length bytes) (loc + suc n)
    then outside
    else got (c_str (trim_end (trim_start (take (suc n) (drop loc bytes)))))
strdup_trim bytes loc (negsuc n) =
    let text = c_str (drop loc bytes) in
    if ltb (loc + length text) (length bytes) then got text else outside

-- `dataCurLoc += fieldSize`; a place before the buffer is none.
abbrev pub advance : ℕ → ℤ → Option ℕ
advance loc (pos n) = some (loc + n)
advance loc (negsuc n) = if ltb loc (suc n) then none else some (loc - suc n)

-- `os << (int) slotNum` for the five bits of the slot.
abbrev two_digits : ℕ → Bytes
two_digits n = if ltb n 10 then (b'0' + n) ∷ [] else (b'0' + n / 10) ∷ (b'0' + n % 10) ∷ []

-- The slot is in the third of the four bytes that end at `loc`.
unfoldable pub slot_number : Bytes → ℕ → Read (List Call)
slot_number bytes loc = elim (leb 2 loc) [
  | false ↦ outside
  | true ↦ elim (get_elem? bytes (loc - 2)) [
    | none ↦ outside
    | some c ↦ got (set_value second_location (two_digits (c % 32)) 60 ∷ [])
  ]
]

-- The text before the first dash; the loop does not stop at the end of a text with none.
unfoldable pub vscsi_calls : Bytes → Read (List Call)
unfolding split_first
vscsi_calls val = elim (split_first b'-' val) [
  | none ↦ outside
  | some p ↦ got (set_value record_type (codes "VSYS") 100 ∷ set_value plant_mfg p.0 85 ∷ [])
]

-- What is done with a value that is not empty; `loc` is behind it.
unfoldable pub field_calls : Bytes → Bytes → Bytes → ℕ → Read (List Call)
unfolding vscsi_calls slot_number hexify set_vpd_field
field_calls name val bytes loc =
    if same name (codes "SE_VSCSI")
    then vscsi_calls val
    else if same name (codes "AA")
    then slot_number bytes loc
    else if same name (codes "_")
    then got []
    else if same name (codes "RL") || same name (codes "Z7")
    then got (set_vpd_field name (hexify val))
    else got (set_vpd_field name val)

-- The texts of the fields: what stands between the commas. The end of the last one is a cell of
-- `eof` that the code never sets: `junk` is what the cell holds, none if it is below zero. An end
-- before the start is a very long text for `substr`, which then goes to the end of the format.
-- `cur` is the start of the field, and `text` the format from there on.
unfoldable pub last_field : Option ℕ → ℕ → Bytes → Bytes
last_field none cur text = text
last_field (some junk) cur text = if ltb junk cur then text else take (junk - cur) text

unfoldable pub cut_fields : ℕ → Option ℕ → ℕ → Bytes → List Bytes
unfolding split_first last_field
cut_fields zero junk cur text = last_field junk cur text ∷ []
cut_fields (suc fuel) junk cur text = elim (split_first b',' text) [
  | none ↦ last_field junk cur text ∷ []
  | some p ↦ p.0 ∷ cut_fields fuel junk (cur + suc (length p.0)) p.1
]

unfoldable pub commas : Bytes → ℕ
commas [] = 0
commas (c ∷ cs) = if c == b',' then suc (commas cs) else commas cs

-- A format with no comma has no field: `fieldTotal` stays 0. The array `eof` has 30 cells, and the
-- code writes one behind the last field's.
unfoldable pub field_templates : Option ℕ → Bytes → Read (List Bytes)
unfolding cut_fields split_first commas
field_templates junk format = elim (split_first b',' format) [
  | none ↦ got []
  | some _ ↦
      if ltb (commas format) 29
      then got (cut_fields (suc (length format)) junk 0 format)
      else outside
]

-- The calls for a value; an empty one is passed over.
unfoldable pub value_calls : Bytes → Bytes → Bytes → ℕ → Read (List Call)
unfolding field_calls
value_calls name [] bytes loc = got []
value_calls name (c ∷ cs) bytes loc = field_calls name (c ∷ cs) bytes loc

abbrev pub and_then : Read (List Call) → Read (List Call) → Read (List Call)
and_then outside rest = outside
and_then (got cs) outside = outside
and_then (got cs) (got ds) = got (cs ++ ds)

-- The loop over the fields: the calls that it makes, in order.
unfoldable pub process_fields : Bytes → ℕ → List Bytes → Read (List Call)
unfolding get_field_name get_field_value strdup_trim value_calls
process_fields bytes loc [] = got []
process_fields bytes loc (f ∷ fs) =
    let size = get_field_value f in
    elim (strdup_trim bytes loc size) [
      | outside ↦ outside
      | got val ↦ elim (advance loc size) [
        | none ↦ outside
        | some loc' ↦
            and_then (value_calls (get_field_name f) val bytes loc') (process_fields bytes loc' fs)
      ]
    ]

-- `strlen(data)`, for a format with a comma, looks for a NUL.
abbrev pub fits : Bytes → Bytes → Bool
fits bytes format = commas format == 0 || ltb (length (c_str bytes)) (length bytes)

abbrev pub process_read : Bytes → ℕ → Read (List Bytes) → Read (List Call)
process_read bytes loc outside = outside
process_read bytes loc (got fields) = process_fields bytes loc fields

-- `process_template`; page 0 has a header of 32 bytes.
unfoldable pub process_template : Option ℕ → Bytes → Bytes → ℕ → Read (List Call)
unfolding process_fields field_templates commas c_str
process_template junk bytes format page_code = elim (fits bytes format) [
  | false ↦ outside
  | true ↦ process_read bytes (if page_code == 0 then 32 else 0) (field_templates junk format)
]
