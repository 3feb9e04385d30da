-- ===== src/Scsi/Matching/Texts.antt =====
-- Texts with and without a star in them, and texts that stand in others.
use lsvpd.Base.{
  ℕ, zero, suc, ◌≤◌, Bool, true, false, ◌||◌, [], ◌∷◌, ◌++◌, none, some, ◌==◌, Bytes, same,
  starts_with, contains_text, find, length, take, ◌≡◌, refl, arith, Bool-cases, inl, inr,
}
use lsvpd.Scsi.Matching.{star}

-- A star stands in the text.
abbrev pub has_star : Bytes → Bool
has_star [] = false
has_star (c ∷ cs) = c == b'*' || has_star cs

pub find-star_free : (p : Bytes) → has_star p ≡ false → find b'*' p ≡ none
unfolding find
find-star_free [] h = refl
find-star_free (c ∷ p) h = ground (arith, find-star_free p)

pub find-star : (p r : Bytes) → has_star p ≡ false → find b'*' (p ++ b'*' ∷ r) ≡ some (length p)
unfolding find
find-star [] r h = refl
find-star (c ∷ p) r h = ground (arith, find-star p r)

pub same-take : (p s : Bytes) → same p (take (length p) s) ≡ starts_with p s
unfolding same starts_with
same-take [] s = ground arith
same-take (c ∷ p) [] = refl
same-take (c ∷ p) (d ∷ s) = ground (arith, same-take p s)

pub starts_with-append : (p s : Bytes) → starts_with p (p ++ s) ≡ true
unfolding starts_with
starts_with-append [] s = refl
starts_with-append (c ∷ p) s = ground (arith, starts_with-append p s)

pub starts_with-le : (p s : Bytes) → starts_with p s ≡ true → length p ≤ length s
unfolding starts_with
starts_with-le [] s h = omega arith
starts_with-le (c ∷ p) [] h = ground (arith, h)
starts_with-le (c ∷ p) (d ∷ s) h = ground (arith, h, starts_with-le p s)

-- The same text begins with the other one, and so holds it.
pub starts_with-same : (p s : Bytes) → same p s ≡ true → starts_with p s ≡ true
unfolding same starts_with
starts_with-same [] s h = refl
starts_with-same (c ∷ p) [] h = ground (arith, h)
starts_with-same (c ∷ p) (d ∷ s) h = ground (arith, h, starts_with-same p s)

pub contains_text-same : (p s : Bytes) → same p s ≡ true → contains_text p s ≡ true
unfolding contains_text
contains_text-same p [] h = starts_with-same p [] h
contains_text-same p (d ∷ s) h = ground (arith, starts_with-same p (d ∷ s) h)

pub contains_text-tail : (p s : Bytes) (d : ℕ) → same p s ≡ true → contains_text p (d ∷ s) ≡ true
unfolding contains_text
contains_text-tail p s d h = ground (arith, contains_text-same p s h)

pub has_star-append : (p s : Bytes) → has_star (p ++ b'*' ∷ s) ≡ true
has_star-append [] s = refl
has_star-append (c ∷ p) s = ground (arith, has_star-append p s)

pub has_star-take : (n : ℕ) (s : Bytes) → has_star s ≡ false → has_star (take n s) ≡ false
has_star-take zero s h = refl
has_star-take (suc n) [] h = refl
has_star-take (suc n) (c ∷ s) h = ground (arith, h, has_star-take n s)

-- A text with no star does not begin with one that has a star, and so does not hold it.
pub starts_with-star :
    (p s : Bytes) → has_star p ≡ true → has_star s ≡ false → starts_with p s ≡ false
unfolding starts_with
starts_with-star [] s h k = ground (arith, h)
starts_with-star (c ∷ p) [] h k = refl
starts_with-star (c ∷ p) (d ∷ s) h k = ground (arith, h, k, starts_with-star p s)

pub contains_text-star :
    (p s : Bytes) → has_star p ≡ true → has_star s ≡ false → contains_text p s ≡ false
unfolding contains_text
contains_text-star p [] h k = starts_with-star p [] h k
contains_text-star p (d ∷ s) h k =
    ground (arith, k, starts_with-star p (d ∷ s) h k, contains_text-star p s h)

pub take-star : (p r : Bytes) → take (suc (length p)) (p ++ b'*' ∷ r) ≡ p ++ star
take-star [] r = refl
take-star (c ∷ p) r = rw (take-star p r) refl

-- A text with no star differs from one that has a star.
pub same-star : (p s : Bytes) → has_star p ≡ true → has_star s ≡ false → same p s ≡ false
unfolding same
same-star [] s h k = ground (arith, h)
same-star (c ∷ p) [] h k = refl
same-star (c ∷ p) (d ∷ s) h k = ground (arith, h, k, same-star p s)

pub contains_text-le : (p s : Bytes) → contains_text p s ≡ true → length p ≤ length s
unfolding contains_text
contains_text-le p [] h = starts_with-le p [] h
contains_text-le p (d ∷ s) h = elim (Bool-cases (starts_with p (d ∷ s))) [
  | inl e ↦ starts_with-le p (d ∷ s) e
  | inr e ↦ ground (arith, h, e, contains_text-le p s)
]
