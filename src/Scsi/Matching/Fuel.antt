-- ===== src/Scsi/Matching/Fuel.antt =====
-- `matches` ends and throws nothing.
use lsvpd.Base.{
  ℕ, zero, suc, ◌≤◌, ◌<◌, Bool, true, false, [], ◌∷◌, none, some, ◌==◌, Bytes, same, contains_text,
  find, length, take, drop, length-drop, length-take, ==_iff, ◌≡◌, ◌∙◌, refl, arith, Bool-cases,
  Option-cases, inl, inr,
}
use lsvpd.Scsi.Matching.{Outcome, answer, star, matches, match_rest, match_piece, match_star}
use lsvpd.Scsi.Matching.Texts.{contains_text-tail, contains_text-le}
use lsvpd.Scsi.Matching.Cases.{
  matches-piece, matches-star, matches-only_star, match_star-discard, matches-same,
  match_piece-differ, match_piece-agree, match_star-found, match_star-missing, match_star-apart,
  match_rest-within,
}

-- The call gives an answer.
abbrev IsAnswer : Outcome → Type 0
IsAnswer o = (b : Bool) × (o ≡ answer b)

-- A position in the text behind its first character.
module _ (c x : ℕ) (xs : Bytes) (n : (x == c) ≡ false) where
  find-none : find c xs ≡ none → find c (x ∷ xs) ≡ none
  unfolding find
  find-none e = ground (arith, n, e)

  find-some : (m : ℕ) → find c xs ≡ some m → find c (x ∷ xs) ≡ some (suc m)
  unfolding find
  find-some m e = ground (arith, n, e)

find-head : (c x : ℕ) (xs : Bytes) → (x == c) ≡ true → find c (x ∷ xs) ≡ some 0
unfolding find
find-head c x xs h = ground (arith, h)

find-lt : (c : ℕ) (s : Bytes) (n : ℕ) → find c s ≡ some n → n < length s
find-lt c [] n h = unfold find in ground (arith, h)
find-lt c (x ∷ xs) n h = elim (Bool-cases (x == c)) [
  | inl e ↦ ground (arith, h, find-head c x xs e)
  | inr e ↦ elim (Option-cases (find c xs)) [
    | inl k ↦ ground (arith, h, find-none c x xs e k)
    | inr (m, k) ↦ ground (arith, h, find-some c x xs e m k, find-lt c xs m k)
  ]
]

same-le : (n : ℕ) (p s : Bytes) → n ≤ length p → same (take n p) (take n s) ≡ true → n ≤ length s
unfolding same
same-le zero p s h k = omega arith
same-le (suc n) [] s h k = ground (arith, h)
same-le (suc n) (c ∷ p) [] h k = ground (arith, k)
same-le (suc n) (c ∷ p) (d ∷ s) h k = ground (arith, h, k, same-le n p s)

-- The function that is called on what is left answers on a shorter pattern.
module _ (again : Bytes → Bytes → Outcome) (c d : ℕ) (p s : Bytes) where
  abbrev Answers : Type 0
  Answers = (q t : Bytes) → length q < suc (length p) → IsAnswer (again q t)

  rest-Answer :
      (n : ℕ)
      → Answers
      → n < length p
      → n ≤ length s
      → IsAnswer (match_rest again (some (suc n)) (c ∷ p) (d ∷ s))
  rest-Answer n ans h k =
      rw (match_rest-within again (suc n) (c ∷ p) (d ∷ s) (omega (arith, h)) (omega (arith, k)))
        (ans (drop n p) (drop n s) (omega (arith, h, length-drop n p)))

  -- The pieces begin at 1 or at 0.
  piece-Answer :
      (n : ℕ)
      → Answers
      → n < length p
      → IsAnswer (match_piece again 1 (some (suc n)) (c ∷ p) (d ∷ s))
  piece-Answer n ans h = elim (Bool-cases (same (take (suc n) p) (take (suc n) s))) [
    | inl e ↦
        let k = same-le (suc n) p s (omega (arith, h)) e in
        rw (match_piece-agree again 1 (some (suc n)) (c ∷ p) (d ∷ s) e)
          (rest-Answer n ans h (omega (arith, k)))
    | inr e ↦ (false, match_piece-differ again 1 (some (suc n)) (c ∷ p) (d ∷ s) e)
  ]

  first_piece-Answer :
      (n : ℕ)
      → Answers
      → n < length p
      → IsAnswer (match_piece again 0 (some (suc n)) (c ∷ p) (d ∷ s))
  first_piece-Answer n ans h =
      elim (Bool-cases (same (take (suc n) (c ∷ p)) (take (suc n) (d ∷ s)))) [
        | inl e ↦
            let k = same-le (suc n) (c ∷ p) (d ∷ s) (omega (arith, h)) e in
            rw (match_piece-agree again 0 (some (suc n)) (c ∷ p) (d ∷ s) e)
              (rest-Answer n ans h (omega (arith, k)))
        | inr e ↦ (false, match_piece-differ again 0 (some (suc n)) (c ∷ p) (d ∷ s) e)
      ]

-- The pattern begins with a star.
star-Answer :
    (again : Bytes → Bytes → Outcome) (d : ℕ) (p s : Bytes)
    → Answers again b'*' d p s
    → IsAnswer (match_star again (b'*' ∷ p) (d ∷ s))
star-Answer again d p s ans = elim (Option-cases (find b'*' p)) [
  | inl k ↦ elim (Bool-cases (contains_text p (d ∷ s))) [
    | inl e ↦ (true, match_star-found again p (d ∷ s) k e)
    | inr e ↦ (
      false,
      match_star-missing again p (d ∷ s) k e
          ∙ match_piece-differ again 1 none (b'*' ∷ p) (d ∷ s)
              (ground (arith, e, contains_text-tail p s d)),
    )
  ]
  | inr (n, k) ↦
      let h = find-lt b'*' p n k in
      let (b, a) = piece-Answer again b'*' d p s n ans h in
      elim (Bool-cases (contains_text (take (suc n) p) (d ∷ s))) [
        | inl e ↦
            let l = contains_text-le (take (suc n) p) (d ∷ s) e in
            let (b', a') =
              rest-Answer again b'*' d p s n ans h
                (omega (arith, l, length-take (suc n) p (omega (arith, h)))) in
            (b, match_star-discard again p (d ∷ s) n k e ∙ rw (a', a) refl)
        | inr e ↦ (b, match_star-apart again p (d ∷ s) n k e ∙ a)
      ]
]

-- It does not.
plain-Answer :
    (again : Bytes → Bytes → Outcome) (c d : ℕ) (p s : Bytes)
    → Answers again c d p s
    → (c == b'*') ≡ false
    → same (c ∷ p) (d ∷ s) ≡ false
    → IsAnswer (match_piece again 0 (find b'*' (c ∷ p)) (c ∷ p) (d ∷ s))
plain-Answer again c d p s ans h n = elim (Option-cases (find b'*' p)) [
  | inl k ↦ rw (find-none b'*' c p h k) (false, match_piece-differ again 0 none (c ∷ p) (d ∷ s) n)
  | inr (m, k) ↦
      rw (find-some b'*' c p h m k) (first_piece-Answer again c d p s m ans (find-lt b'*' p m k))
]

-- Fuel for the length of the pattern and one more is enough for a call of `matches`, which gives
-- an answer and never throws.
pub matches-fuel :
    (fuel : ℕ) (s1 s2 : Bytes) → length s1 < fuel → (b : Bool) × (matches fuel s1 s2 ≡ answer b)
matches-fuel zero s1 s2 h = elim h [ ]
matches-fuel (suc fuel) [] [] h = (true, unfold matches same in refl)
matches-fuel (suc fuel) [] (d ∷ s) h = (same (d ∷ s) star, unfold matches same in refl)
matches-fuel (suc fuel) (c ∷ p) [] h = (same (c ∷ p) star, unfold matches same in refl)
matches-fuel (suc fuel) (c ∷ p) (d ∷ s) h =
    let ans = λ (q t : Bytes) (l : length q < suc (length p)).
      matches-fuel fuel q t (omega (arith, h, l)) in
    elim (Bool-cases (same (c ∷ p) (d ∷ s))) [
      | inl e ↦ (true, matches-same fuel (c ∷ p) (d ∷ s) e)
      | inr e ↦ elim (Bool-cases (c == b'*')) [
        | inl k ↦ elim (Bool-cases (same p [])) [
          | inl z ↦ (true, matches-only_star fuel c d p s e k z)
          | inr z ↦
              rw (matches-star fuel c d p s e k z, (==_iff c b'*').0 k)
                (star-Answer (matches fuel) d p s ans)
        ]
        | inr k ↦ rw (matches-piece fuel c d p s e k) (plain-Answer (matches fuel) c d p s ans k e)
      ]
    ]
