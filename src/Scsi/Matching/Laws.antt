-- ===== src/Scsi/Matching/Laws.antt =====
-- What a pattern with no star, with one star and with two of them matches.
use lsvpd.Base.{
  ℕ, suc, true, false, [], ◌∷◌, ◌++◌, none, some, Bytes, same, same_iff, starts_with, contains_text,
  length, take, drop, take-append, drop-append, length-append, ◌≡◌, ◌∙◌, refl, arith, Bool-cases,
  inl, inr,
}
use lsvpd.Scsi.Matching.{answer, star, matches, match_piece}
use lsvpd.Scsi.Matching.Texts.{
  has_star, find-star_free, find-star, same-take, starts_with-append, starts_with-le,
  contains_text-tail, has_star-append, has_star-take, contains_text-star, take-star, same-star,
}
use lsvpd.Scsi.Matching.Cases.{
  matches-piece, matches-star, matches-same, match_piece-differ, match_piece-agree,
  match_star-found, match_star-missing, match_star-apart, match_rest-within,
}

-- A pattern that has characters and no star matches itself only.
pub matches-star_free :
    (fuel : ℕ) (c : ℕ) (p s : Bytes)
    → has_star (c ∷ p) ≡ false
    → matches (suc fuel) (c ∷ p) s ≡ answer (same (c ∷ p) s)
matches-star_free fuel c p [] h = unfold matches same in ground (arith, h)
matches-star_free fuel c p (d ∷ s) h = elim (Bool-cases (same (c ∷ p) (d ∷ s))) [
  | inl e ↦ matches-same fuel (c ∷ p) (d ∷ s) e ∙ rw e refl
  | inr e ↦
      rw (matches-piece fuel c d p s e (ground (arith, h)), find-star_free (c ∷ p) h, e)
        (match_piece-differ (matches fuel) 0 none (c ∷ p) (d ∷ s) e)
]

-- Behind the prefix, the star takes what is left.
matches-star_only : (fuel : ℕ) (s : Bytes) → matches (suc fuel) star s ≡ answer true
unfolding matches same
matches-star_only fuel [] = ground arith
matches-star_only fuel (c ∷ s) = ground arith

-- Both prefixes are the star-free one.
prefix-piece :
    (fuel : ℕ) (p s : Bytes)
    → match_piece (matches (suc fuel)) 0 (some (length p)) (p ++ star) s ≡ answer (starts_with p s)
prefix-piece fuel p s =
    let agree : same (take (length p) (p ++ star)) (take (length p) s) ≡ starts_with p s =
      rw (take-append p star) (same-take p s) in
    elim (Bool-cases (starts_with p s)) [
      | inl e ↦
          match_piece-agree (matches (suc fuel)) 0 (some (length p)) (p ++ star) s (agree ∙ e)
          ∙ match_rest-within (matches (suc fuel)) (length p) (p ++ star) s
              (omega (arith, length-append p star)) (starts_with-le p s e)
          ∙ rw (e, drop-append p star) (matches-star_only fuel (drop (length p) s))
      | inr e ↦
          match_piece-differ (matches (suc fuel)) 0 (some (length p)) (p ++ star) s (agree ∙ e)
          ∙ rw e refl
    ]

-- A pattern whose only star is its last character, with another one before it, matches exactly what
-- begins with the text before the star.
pub matches-prefix :
    (fuel c : ℕ) (p s : Bytes)
    → has_star (c ∷ p) ≡ false
    → matches (suc (suc fuel)) (c ∷ p ++ star) s ≡ answer (starts_with (c ∷ p) s)
matches-prefix fuel c p [] h = unfold matches same starts_with in ground (arith, h)
matches-prefix fuel c p (d ∷ s) h = elim (Bool-cases (same (c ∷ p ++ star) (d ∷ s))) [
  | inl e ↦
      matches-same (suc fuel) (c ∷ p ++ star) (d ∷ s) e
      ∙ rw (← (same_iff (c ∷ p ++ star) (d ∷ s)).0 e, starts_with-append (c ∷ p) star) refl
  | inr e ↦
      rw (matches-piece (suc fuel) c d (p ++ star) s e (ground (arith, h)), find-star (c ∷ p) [] h)
        (prefix-piece fuel (c ∷ p) (d ∷ s))
]

-- A pattern whose only star is its first character, with another one behind it, matches exactly
-- what the text behind the star stands in, at the end or not.
pub matches-contains :
    (fuel c : ℕ) (p s : Bytes)
    → has_star (c ∷ p) ≡ false
    → matches (suc fuel) (b'*' ∷ c ∷ p) s ≡ answer (contains_text (c ∷ p) s)
matches-contains fuel c p [] h = unfold matches same contains_text starts_with in ground (arith, h)
matches-contains fuel c p (d ∷ s) h = elim (Bool-cases (same (b'*' ∷ c ∷ p) (d ∷ s))) [
  | inl e ↦
      matches-same fuel (b'*' ∷ c ∷ p) (d ∷ s) e
      ∙ rw (contains_text-tail (c ∷ p) s d (unfold same in ground (arith, e))) refl
  | inr e ↦
      matches-star fuel b'*' d (c ∷ p) s e refl (unfold same in refl)
      ∙ elim (Bool-cases (contains_text (c ∷ p) (d ∷ s))) [
        | inl k ↦
            match_star-found (matches fuel) (c ∷ p) (d ∷ s) (find-star_free (c ∷ p) h) k ∙ rw k refl
        | inr k ↦
            match_star-missing (matches fuel) (c ∷ p) (d ∷ s) (find-star_free (c ∷ p) h) k
            ∙ match_piece-differ (matches fuel) 1 none (b'*' ∷ c ∷ p) (d ∷ s)
                (ground (arith, k, contains_text-tail (c ∷ p) s d))
            ∙ rw k refl
      ]
]

-- A pattern that begins with a star and has another one matches no text that has no star itself:
-- what is looked for in the text, and compared with it, includes the second star.
pub matches-two_stars :
    (fuel : ℕ) (p r s : Bytes)
    → has_star p ≡ false
    → has_star s ≡ false
    → matches (suc fuel) (b'*' ∷ p ++ b'*' ∷ r) s ≡ answer false
matches-two_stars fuel p r [] h k =
    let e = same-star (p ++ b'*' ∷ r) [] (has_star-append p r) refl in
    unfold matches same in ground (arith, e)
matches-two_stars fuel p r (d ∷ s) h k =
    let q = p ++ b'*' ∷ r in
    let starred = has_star-append p [] in
    matches-star fuel b'*' d q s (same-star (b'*' ∷ q) (d ∷ s) (ground arith) k) refl
      (same-star q [] (has_star-append p r) refl)
    ∙ match_star-apart (matches fuel) q (d ∷ s) (length p) (find-star p r h)
        (rw (take-star p r) (contains_text-star (p ++ star) (d ∷ s) starred k))
    ∙ match_piece-differ (matches fuel) 1 (some (suc (length p))) (b'*' ∷ q) (d ∷ s) (
        rw (take-star p r) (
          same-star (p ++ star) (take (suc (length p)) s) starred
            (has_star-take (suc (length p)) s (ground (arith, k)))))
