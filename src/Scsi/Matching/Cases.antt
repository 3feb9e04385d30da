-- ===== src/Scsi/Matching/Cases.antt =====
-- The branches of `matches`, by the tests that lead to them.
use lsvpd.Base.{
  ℕ, suc, ◌≤◌, true, false, [], ◌∷◌, Option, none, some, ◌==◌, Bytes, same, contains_text, find,
  length, take, drop, ◌≡◌, arith,
}
use lsvpd.Scsi.Matching.{
  Outcome, answer, piece, matches, match_rest, match_piece, match_star, discard,
}

-- The cases of a call on two texts that are not empty and differ.
module _ (fuel c d : ℕ) (p s : Bytes) (n : same (c ∷ p) (d ∷ s) ≡ false) where
  pub matches-piece :
      (c == b'*') ≡ false
      → matches (suc fuel) (c ∷ p) (d ∷ s)
        ≡ match_piece (matches fuel) 0 (find b'*' (c ∷ p)) (c ∷ p) (d ∷ s)
  unfolding matches same
  matches-piece h = ground (arith, n, h)

  pub matches-only_star :
      (c == b'*') ≡ true → same p [] ≡ true → matches (suc fuel) (c ∷ p) (d ∷ s) ≡ answer true
  unfolding matches same
  matches-only_star h k = ground (arith, n, h, k)

  pub matches-star :
      (c == b'*') ≡ true
      → same p [] ≡ false
      → matches (suc fuel) (c ∷ p) (d ∷ s) ≡ match_star (matches fuel) (c ∷ p) (d ∷ s)
  unfolding matches same
  matches-star h k = ground (arith, n, h, k)

pub matches-same : (fuel : ℕ) (p s : Bytes) → same p s ≡ true → matches (suc fuel) p s ≡ answer true
unfolding matches
matches-same fuel p s h = ground (arith, h)

-- The last test, on pieces that differ and on pieces that do not.
module _ (again : Bytes → Bytes → Outcome) (beg : ℕ) (end : Option ℕ) (p s : Bytes) where
  pub match_piece-differ :
      same (piece beg end p) (piece beg end s) ≡ false
      → match_piece again beg end p s ≡ answer false
  unfolding match_piece
  match_piece-differ h = ground (arith, h)

  pub match_piece-agree :
      same (piece beg end p) (piece beg end s) ≡ true
      → match_piece again beg end p s ≡ match_rest again end p s
  unfolding match_piece
  match_piece-agree h = ground (arith, h)

-- The cases of a pattern that begins with a star, by where the next one stands.
module _ (again : Bytes → Bytes → Outcome) (p s : Bytes) where
  pub match_star-found :
      find b'*' p ≡ none → contains_text p s ≡ true → match_star again (b'*' ∷ p) s ≡ answer true
  unfolding match_star
  match_star-found h k = ground (arith, h, k)

  pub match_star-missing :
      find b'*' p ≡ none
      → contains_text p s ≡ false
      → match_star again (b'*' ∷ p) s ≡ match_piece again 1 none (b'*' ∷ p) s
  unfolding match_star
  match_star-missing h k = ground (arith, h, k)

  pub match_star-discard :
      (n : ℕ)
      → find b'*' p ≡ some n
      → contains_text (take (suc n) p) s ≡ true
      → match_star again (b'*' ∷ p) s
        ≡ discard
            (match_rest again (some (suc n)) (b'*' ∷ p) s)
            (match_piece again 1 (some (suc n)) (b'*' ∷ p) s)
  unfolding match_star
  match_star-discard n h k = ground (arith, h, k)

  pub match_star-apart :
      (n : ℕ)
      → find b'*' p ≡ some n
      → contains_text (take (suc n) p) s ≡ false
      → match_star again (b'*' ∷ p) s ≡ match_piece again 1 (some (suc n)) (b'*' ∷ p) s
  unfolding match_star
  match_star-apart n h k = ground (arith, h, k)

pub match_rest-within :
    (again : Bytes → Bytes → Outcome) (n : ℕ) (p s : Bytes)
    → n ≤ length p
    → n ≤ length s
    → match_rest again (some n) p s ≡ again (drop n p) (drop n s)
unfolding match_rest
match_rest-within again n p s h k = ground (arith, h, k)
