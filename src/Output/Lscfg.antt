-- ===== src/Output/Lscfg.antt =====
-- src/output/lscfg.cpp: the fields of a listing, padded and broken into lines.
pub mod Component
pub mod Specific
pub mod Models
pub mod Main
pub mod Wrap
use lsvpd.Base.{
  ℕ, zero, suc, ◌-◌, Bool, true, false, ◌||◌, List, [], ◌∷◌, ◌++◌, Option, none, some,
  if◌then◌else◌, String, Bytes, codes, length, get_elem?, take, drop, ◌==◌, ltb, leb,
}
use lsvpd.Output.{Item}

-- The global variables.
pub record CfgFlags : Type 0 where
  pub verbose : Bool
  pub specific : Bool
  pub debug : Bool
  pub dev_name : Bytes
  pub path : Bytes

abbrev pub copies : ℕ → ℕ → Bytes
copies zero c = []
copies (suc n) c = c ∷ copies n c

-- `left << setfill( fill ) << setw( width ) << text`
unfoldable pub padded : ℕ → ℕ → Bytes → Bytes
padded fill width text = text ++ copies (width - length text) fill

abbrev pub is_blank : Option ℕ → Bool
is_blank none = false
is_blank (some c) = c == b' ' || c == 9

-- The loop down from `stop` to the first blank, or to 0. `at` throws behind the end, where the
-- callers never start.
unfoldable pub blank_before : ℕ → Bytes → ℕ
blank_before zero text = zero
blank_before (suc stop) text =
    let rest = blank_before stop text in
    if is_blank (get_elem? text (suc stop)) then suc stop else rest

-- A text that is too long is broken at the last blank of the line, which is left out.
unfoldable pub broken : ℕ → Bytes → Bytes × Option Bytes
unfolding blank_before
broken width text = elim (blank_before width text) [
  | zero ↦ (text, none)
  | suc n ↦ (take (suc n) text, some (drop (suc (suc n)) text))
]

-- The lines of a text behind what stands in its first line, and before the second.
abbrev pub broken_lines : Bytes → Bytes → Bytes × Option Bytes → List Bytes
broken_lines start indent (text, none) = (start ++ text) ∷ []
broken_lines start indent (text, some rest) = (start ++ text) ∷ (indent ++ rest) ∷ []

-- The label, and the line that the data stands in.
abbrev pub label_start : Bytes → List Bytes × Bytes
label_start label =
    let start = codes "        " ++ padded b'.' 26 label in
    if leb 26 (length label)
    then (start ∷ [], codes "        " ++ padded b'.' 26 (codes "."))
    else ([], start)

-- `printField`
unfoldable pub print_field : Bytes → Bytes → List Bytes
unfolding padded broken
print_field label data_text =
    (label_start label).0
    ++ (if ltb 46 (length data_text)
        then broken_lines (label_start label).1 (codes "                                    ")
            (broken 46 data_text)
        else ((label_start label).1 ++ data_text) ∷ [])

-- A field that is printed under its human name if it has a value.
unfoldable pub optional_field : Item → List Bytes
unfolding print_field
optional_field i = elim i.value [ [] ↦ [] | c ∷ cs ↦ print_field i.human_name (c ∷ cs) ]

-- A field with its keyword behind the human name.
abbrev pub keyword_label : Item → Bytes
keyword_label i = i.human_name ++ codes ".(" ++ i.ac ++ codes ")"

unfoldable pub keyword_field : Item → List Bytes
unfolding print_field
keyword_field i = print_field (keyword_label i) i.value

unfoldable pub optional_keyword_field : Item → List Bytes
unfolding keyword_field
optional_keyword_field i = elim i.value [ [] ↦ [] | _ ∷ _ ↦ keyword_field i ]
