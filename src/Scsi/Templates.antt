-- ===== src/Scsi/Templates.antt =====
-- The pages of a template: `numPageTemplates`, `retrievePageTemplate` and `retrievePageCode`.
pub mod Pages
pub mod Codes
pub mod Fields
pub mod Process
use lsvpd.Base.{
  ℕ, zero, suc, ◌+◌, ◌-◌, ◌/◌, ◌%◌, Bool, true, false, ◌||◌, List, [], ◌∷◌, ◌++◌, Option, none,
  some, ◌==◌, ltb, leb, if◌then◌else◌, Bytes, codes, find, starts_with, split_first, length, take,
  drop,
}

unfoldable pub num_page_templates : Bytes → ℕ
num_page_templates [] = 0
num_page_templates (c ∷ cs) =
    if c == b'?' then suc (num_page_templates cs) else num_page_templates cs

-- The loop of `retrievePageTemplate`, on the characters from position `i` on: `count` question
-- marks stand before it, and `beg` is -1 until the one that is asked for is found. The answer is
-- the final `beg` and `end`.
unfoldable pub page_bounds : ℕ → Bytes → ℕ → ℕ → Option ℕ → Option ℕ × ℕ
page_bounds num [] i count beg = (beg, i)
page_bounds num (c ∷ cs) i count beg = elim (c == b'?') [
  | false ↦ page_bounds num cs (suc i) count beg
  | true ↦ elim beg [
    | some b ↦ (some b, i)
    | none ↦ page_bounds num cs (suc i) (suc count) (if count == num then some i else none)
  ]
]

unfoldable pub retrieve_page_template : Bytes → ℕ → Bytes
unfolding page_bounds num_page_templates
retrieve_page_template templ num = elim (leb (num_page_templates templ) num) [
  | true ↦ []
  | false ↦ elim (page_bounds num templ 0 0 none).0 [
    | none ↦ []
    | some beg ↦ take ((page_bounds num templ 0 0 none).1 - beg) (drop beg templ)
  ]
]

-- `find("0x")`: what stands behind it.
unfoldable pub behind_0x : Bytes → Option Bytes
unfolding starts_with
behind_0x [] = none
behind_0x (c ∷ cs) =
    if starts_with (codes "0x") (c ∷ cs) then some (drop 2 (c ∷ cs)) else behind_0x cs

-- The text up to the first semicolon, if there is one.
unfoldable pub up_to_semicolon : Bytes → Bytes
unfolding split_first
up_to_semicolon text = elim (split_first b';' text) [ none ↦ text | some p ↦ p.0 ]

-- `page_code` and `format`, and -1 with both empty if the text has no "0x" or no "=" behind it.
unfoldable pub retrieve_page_code : Bytes → Option (Bytes × Bytes)
unfolding behind_0x up_to_semicolon split_first
retrieve_page_code page = elim (behind_0x page) [
  | none ↦ none
  | some rest ↦ elim (split_first b'=' rest) [
    | none ↦ none
    | some p ↦ some (p.0, up_to_semicolon p.1)
  ]
]
