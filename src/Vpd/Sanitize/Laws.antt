-- ===== src/Vpd/Sanitize/Laws.antt =====
-- Which values `sanitizeVPDField` keeps as they are, and what it makes of the others.
use lsvpd.Base.{
  ℕ, zero, suc, Bool, true, false, not, ◌||◌, inl, inr, [], ◌∷◌, ◌++◌, ◌≡◌, ◌≢◌, refl, sym, ◌∙◌, ap,
  arith, Bytes, c_str, isspace, All, Bool-cases,
}
use lsvpd.Vpd.Sanitize.{all_nul, printable_from, is_printable, hex_dump, sanitize_vpd_field}
use lsvpd.Vpd.Sanitize.Hex.{Printable, IsByte, hex_digits-Printable}

-- `n` NULs.
abbrev pub nuls : ℕ → Bytes
nuls zero = []
nuls (suc n) = 0 ∷ nuls n

-- Some byte of the text is no white space.
abbrev pub has_mark : Bytes → Bool
has_mark [] = false
has_mark (c ∷ cs) = not (isspace c) || has_mark cs

all_nul-nuls : (n : ℕ) → all_nul (nuls n) ≡ true
unfolding all_nul
all_nul-nuls zero = refl
all_nul-nuls (suc n) = all_nul-nuls n

all_nul-inv : (val : Bytes) → all_nul val ≡ true → (n : ℕ) × (val ≡ nuls n)
unfolding all_nul
all_nul-inv [] h = (0, refl)
all_nul-inv (c ∷ cs) h = let (n, e) = all_nul-inv cs (ground arith) in (suc n, ground arith)

-- Text with NULs behind it passes the test of a started loop.
printable_from-text :
    (text : Bytes) (n : ℕ) (seen : Bool)
    → All Printable text
    → text ≢ []
    → printable_from seen (text ++ nuls n) ≡ (seen || has_mark text)
unfolding printable_from
printable_from-text [] n seen h ne = absurd (ne refl)
printable_from-text (c ∷ []) n seen h ne = ground (arith, all_nul-nuls n)
printable_from-text (c ∷ d ∷ ds) n seen h ne =
    ground (arith, printable_from-text (d ∷ ds) n (seen || not (isspace c)) h.1)

more_left : (cs : Bytes) → cs ≡ [] → all_nul cs ≡ false → ⊥
unfolding all_nul
more_left [] e h = cc
more_left (c ∷ cs) e h = cc

printable_from-inv :
    (val : Bytes) (seen : Bool)
    → val ≢ []
    → printable_from seen val ≡ true
    → (text : Bytes) × (n : ℕ) × (val ≡ text ++ nuls n) × All Printable text × (text ≢ [])
unfolding printable_from
printable_from-inv [] seen ne h = absurd (ne refl)
printable_from-inv (c ∷ cs) seen ne h = elim (Bool-cases (all_nul cs)) [
  | inl nul ↦
      let (n, e) = all_nul-inv cs nul in (c ∷ [], n, ap (◌∷◌ c) e, ground arith, ground arith)
  | inr more ↦
      let (text, n, e, p, ne') =
        printable_from-inv cs (seen || not (isspace c)) (λ e. more_left cs e more) (ground arith) in
      (c ∷ text, n, ap (◌∷◌ c) e, (ground arith, p), ground arith)
]

c_str-text : (text : Bytes) (n : ℕ) → All Printable text → c_str (text ++ nuls n) ≡ text
unfolding c_str
c_str-text [] zero h = refl
c_str-text [] (suc n) h = refl
c_str-text (c ∷ cs) n h = ground (arith, c_str-text cs n h.1)

-- A text with a mark in it is stored as it is, without the NULs that pad it.
pub sanitize_vpd_field_text :
    (text : Bytes) (n : ℕ)
    → All Printable text
    → has_mark text ≡ true
    → sanitize_vpd_field (text ++ nuls n) ≡ text
unfolding sanitize_vpd_field
sanitize_vpd_field_text [] n h m = cc
sanitize_vpd_field_text (c ∷ cs) n h m =
    rw (printable_from-text (c ∷ cs) n false h (ground arith), m) (c_str-text (c ∷ cs) n h)

is_printable-inv :
    (val : Bytes)
    → is_printable val ≡ true
    → (text : Bytes) × (n : ℕ) × (val ≡ text ++ nuls n)
      × All Printable text
      × (has_mark text ≡ true)
unfolding is_printable
is_printable-inv [] h = cc
is_printable-inv (c ∷ cs) h =
    let (text, n, e, p, ne) = printable_from-inv (c ∷ cs) false (ground arith) h in
    (
      text,
      n,
      e,
      p,
      sym (printable_from-text text n false p ne) ∙ sym (ap (printable_from false) e) ∙ h,
    )

-- Any other value is stored as its dump.
pub sanitize_vpd_field_binary :
    (val : Bytes)
    → ((text : Bytes) (n : ℕ) → val ≡ text ++ nuls n → All Printable text → has_mark text ≡ false)
    → sanitize_vpd_field val ≡ hex_dump val
unfolding sanitize_vpd_field
sanitize_vpd_field_binary val h = elim (Bool-cases (is_printable val)) [
  | inl yes' ↦ let (text, n, e, p, m) = is_printable-inv val yes' in cc (h text n e p, m)
  | inr no' ↦ rw no'
]

-- Whatever bytes a value has, what is stored is printable and not empty.
pub sanitize_vpd_field-Printable :
    (val : Bytes)
    → All IsByte val
    → All Printable (sanitize_vpd_field val) × (sanitize_vpd_field val ≢ [])
sanitize_vpd_field-Printable val h = elim (Bool-cases (is_printable val)) [
  | inl text' ↦
      let (text, n, e, p, m) = is_printable-inv val text' in
      rw (e, sanitize_vpd_field_text text n p m) (p, λ z. no_mark text z m)
  | inr binary ↦ unfold sanitize_vpd_field in rw binary (ground (arith, hex_digits-Printable val h))
]
  where
    no_mark : (text : Bytes) → text ≡ [] → has_mark text ≡ true → ⊥
    no_mark [] e m = cc
    no_mark (c ∷ cs) e m = cc
