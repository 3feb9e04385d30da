-- ===== src/Scsi/Matching.antt =====
-- `matches` and `findTemplate`: which template a device gets.
pub mod Laws
pub mod Fuel
pub mod First
mod Texts
mod Cases
use lsvpd.Base.{
  ℕ, zero, suc, Bool, true, false, ◌||◌, ◌&&◌, List, [], ◌∷◌, Option, none, some, ◌==◌, ltb,
  if◌then◌else◌, Bytes, same, contains_text, find, length, take, drop,
}
use lsvpd.Vpd.Fields.{first_char}

-- What a call of `matches` comes to; `substr` throws `std::out_of_range` behind the end.
pub data Outcome : Type 0 where
  answer : Bool → Outcome
  out_of_range : Outcome
  out_of_fuel : Outcome

abbrev pub star : Bytes
star = b'*' ∷ []

-- `s.substr(beg, end)` where `beg` is inside; no `end` stands for -1, which is `npos`.
abbrev pub piece : ℕ → Option ℕ → Bytes → Bytes
piece beg none s = drop beg s
piece beg (some end) s = take end (drop beg s)

-- `matches(s1.substr(end, ...), s2.substr(end, ...))`
unfoldable pub match_rest : (Bytes → Bytes → Outcome) → Option ℕ → Bytes → Bytes → Outcome
match_rest again none s1 s2 = out_of_range
match_rest again (some end) s1 s2 = elim (ltb (length s1) end || ltb (length s2) end) [
  | true ↦ out_of_range
  | false ↦ again (drop end s1) (drop end s2)
]

-- The last test of the function, on the pieces up to the next star.
unfoldable pub match_piece : (Bytes → Bytes → Outcome) → ℕ → Option ℕ → Bytes → Bytes → Outcome
unfolding match_rest
match_piece again beg end s1 s2 = elim (same (piece beg end s1) (piece beg end s2)) [
  | true ↦ match_rest again end s1 s2
  | false ↦ answer false
]

-- The first star is behind the position 0: `s1.find("*", 1)`.
abbrev pub next_star : Bytes → Option ℕ
next_star [] = none
next_star (c ∷ cs) = elim (find b'*' cs) [ none ↦ none | some n ↦ some (suc n) ]

-- The result of the call is not looked at, but what it throws gets out.
abbrev pub discard : Outcome → Outcome → Outcome
discard (answer b) next = next
discard out_of_range next = out_of_range
discard out_of_fuel next = out_of_fuel

-- The branch for `s1[0] == '*'`.
unfoldable pub match_star : (Bytes → Bytes → Outcome) → Bytes → Bytes → Outcome
unfolding match_rest match_piece
match_star again s1 s2 = elim (next_star s1) [
  | none ↦ elim (contains_text (drop 1 s1) s2) [
    | true ↦ answer true
    | false ↦ match_piece again 1 none s1 s2
  ]
  | some end ↦ elim (contains_text (take end (drop 1 s1)) s2) [
    | true ↦ discard (match_rest again (some end) s1 s2) (match_piece again 1 (some end) s1 s2)
    | false ↦ match_piece again 1 (some end) s1 s2
  ]
]

-- The four tests at the start of the function.
abbrev pub base_case : Bytes → Bytes → Option Bool
base_case s1 s2 =
    if same s1 s2
    then some true
    else if same s1 []
    then some (same s2 star)
    else if same s2 []
    then some (same s1 star)
    else if same s1 star
    then some true
    else none

unfoldable pub matches : ℕ → Bytes → Bytes → Outcome
unfolding match_star match_piece
matches zero s1 s2 = out_of_fuel
matches (suc fuel) s1 s2 = elim (base_case s1 s2) [
  | some b ↦ answer b
  | none ↦ elim (first_char s1 == b'*') [
    | true ↦ match_star (matches fuel) s1 s2
    | false ↦ match_piece (matches fuel) 0 (find b'*' s1) s1 s2
  ]
]

-- A call with fuel for every pattern.
unfoldable pub pattern_matches : Bytes → Bytes → Outcome
unfolding matches
pattern_matches s1 s2 = matches (suc (length s1)) s1 s2

-- A row of scsi_templates.conf and one of nvme_templates.conf.
pub record ScsiTemplate : Type 0 where
  pub vendor : Bytes
  pub dev_class : Bytes
  pub model : Bytes
  pub format_str : Bytes

pub record NvmeTemplate : Type 0 where
  pub log_page_version : Bytes
  pub format_str : Bytes

-- What a search comes to; `missing` is the null pointer.
pub data Search {ℓ} (A : Type ℓ) : Type ℓ where
  found : A → Search A
  missing : Search A
  thrown : Search A

-- `if (!matches(...)) continue;`
abbrev pub or_continue {ℓ} : {A : Type ℓ} → Outcome → Search A → Search A → Search A
or_continue (answer true) next rest = next
or_continue (answer false) next rest = rest
or_continue out_of_range next rest = thrown
or_continue out_of_fuel next rest = thrown

unfoldable pub find_template : Bytes → Bytes → Bytes → List ScsiTemplate → Search ScsiTemplate
unfolding pattern_matches
find_template v c m [] = missing
find_template v c m (t ∷ ts) =
    let rest = find_template v c m ts in
    or_continue (pattern_matches t.vendor v)
      (or_continue (pattern_matches t.dev_class c)
        (or_continue (pattern_matches t.model m) (found t) rest) rest)
      rest

unfoldable pub find_nvme_template : Bytes → List NvmeTemplate → Search NvmeTemplate
unfolding pattern_matches
find_nvme_template version [] = missing
find_nvme_template version (t ∷ ts) =
    let rest = find_nvme_template version ts in
    or_continue (pattern_matches t.log_page_version version) (found t) rest
