-- ===== src/Output/Lscfg/Wrap.antt =====
-- Where a text of a listing is broken.
use lsvpd.Base.{
  ℕ, zero, suc, ◌≤◌, ◌<◌, true, false, [], ◌∷◌, ◌++◌, ◌≡◌, refl, arith, ap, sym, ◌∙◌, Option, none,
  some, Bytes, length, get_elem?, take, drop, length-take, Bool-cases, inl, inr, ◌==◌, ==_iff,
}
use lsvpd.Output.Lscfg.{is_blank, blank_before, broken}

-- The answer of the loop: at most `stop`, a blank unless it is 0, and the last one up to `stop`.
blank_before-IsLast :
    (stop : ℕ) (text : Bytes)
    → (blank_before stop text ≤ stop)
      × (1 ≤ blank_before stop text → is_blank (get_elem? text (blank_before stop text)) ≡ true)
      × ((i : ℕ) → blank_before stop text < i → i ≤ stop → is_blank (get_elem? text i) ≡ false)
unfolding blank_before
blank_before-IsLast zero text =
    (omega arith, λ h. absurd (omega (arith, h)), λ i h k. absurd (omega (arith, h, k)))
blank_before-IsLast (suc stop) text =
    let (below, blank, last) = blank_before-IsLast stop text in
    elim (Bool-cases (is_blank (get_elem? text (suc stop)))) [
      | inl h ↦ rw h (omega arith, λ _. h, λ i l k. absurd (omega (arith, l, k)))
      | inr h ↦ rw h (omega (arith, below), blank, λ i l k. at_or_below i l k h last)
    ]
  where
    at_or_below :
        (i : ℕ)
        → blank_before stop text < i
        → i ≤ suc stop
        → is_blank (get_elem? text (suc stop)) ≡ false
        → ((j : ℕ) → blank_before stop text < j → j ≤ stop → is_blank (get_elem? text j) ≡ false)
        → is_blank (get_elem? text i) ≡ false
    at_or_below i l k h last = elim (Bool-cases (i == suc stop)) [
      | inl e ↦ ap (λ j. is_blank (get_elem? text j)) ((==_iff i (suc stop)).0 e) ∙ h
      | inr e ↦ last i l (ground (arith, k, e))
    ]

split_at :
    (n : ℕ) (text : Bytes) (c : ℕ)
    → get_elem? text n ≡ some c
    → (take n text ++ c ∷ drop (suc n) text ≡ text) × (n < length text)
split_at n [] c h = cc
split_at zero (x ∷ text) c h = (ground (arith, h), omega arith)
split_at (suc n) (x ∷ text) c h = let (e, l) = split_at n text c h in (rw e refl, omega (arith, l))

-- What a text is broken into: all of it where no character of the line but the first is a blank;
-- or a line that is not empty and no longer than the width, and the rest behind a blank, with no
-- other blank from there to the end of the width.
abbrev pub IsBroken : ℕ → Bytes → Bytes × Option Bytes → Type 0
IsBroken width text (line, none) =
    (line ≡ text) × ((i : ℕ) → 1 ≤ i → i ≤ width → is_blank (get_elem? text i) ≡ false)
IsBroken width text (line, some rest) =
    (c : ℕ) × (is_blank (some c) ≡ true)
    × (line ++ c ∷ rest ≡ text)
    × (1 ≤ length line)
    × (length line ≤ width)
    × ((i : ℕ) → length line < i → i ≤ width → is_blank (get_elem? text i) ≡ false)

is_blank-some : (o : Option ℕ) → is_blank o ≡ true → (c : ℕ) × (o ≡ some c)
is_blank-some none h = cc
is_blank-some (some c) h = (c, refl)

-- The text is broken at its last blank from its second character up to the place `width`, which is dropped, and nothing else
-- of it. With no such blank it stays whole.
pub broken-IsBroken : (width : ℕ) (text : Bytes) → IsBroken width text (broken width text)
unfolding broken
broken-IsBroken width text = go (blank_before width text) refl
  where
    go : (n : ℕ) → blank_before width text ≡ n → IsBroken width text (broken width text)
    go zero e =
        let (low, blank, last) = blank_before-IsLast width text in
        rw (broken, e) (refl, λ i l k. last i (omega (arith, e, l)) k)
    go (suc n) e =
        let (low, blank, last) = blank_before-IsLast width text in
        let b : is_blank (get_elem? text (suc n)) ≡ true =
          sym (ap (λ j. is_blank (get_elem? text j)) e) ∙ blank (omega (arith, e)) in
        let (c, s) = is_blank-some (get_elem? text (suc n)) b in
        let (whole, inside) = split_at (suc n) text c s in
        let l : length (take (suc n) text) ≡ suc n =
          length-take (suc n) text (omega (arith, inside)) in
        rw (broken, e)
          (
            c,
            sym (ap is_blank s) ∙ b,
            whole,
            omega (arith, l),
            omega (arith, l, low, e),
            λ i k m. last i (omega (arith, e, l, k)) m,
          )
