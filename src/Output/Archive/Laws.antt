-- ===== src/Output/Archive/Laws.antt =====
-- What is unpacked, and where it is written.
use lsvpd.Base.{
  ℕ, zero, suc, ◌≤◌, ◌<◌, false, List, [], ◌∷◌, ◌++◌, ◌≡◌, refl, arith, ◌∙◌, Bytes, length, take,
  drop, take-drop, length-drop, flat_map, Option, none, some,
}
use lsvpd.Output.Archive.{split_last, uncompressed_path, write_chunk, uncompress}
use lsvpd.Scsi.Templates.Codes.{has}

-- Each call of `write` of n bytes takes some of them, and not more.
abbrev pub IsWriter : (ℕ → ℕ → ℕ) → Type 0
IsWriter takes = (call n : ℕ) → (1 ≤ takes call (suc n)) × (takes call (suc n) ≤ suc n)

module _ (takes : ℕ → ℕ → ℕ) (writer : IsWriter takes) where
  write_chunk-step :
      (fuel call m x : ℕ) (xs : Bytes)
      → takes call (suc (length xs)) ≡ suc m
      → (write_chunk takes (suc fuel) call (x ∷ xs)).0
        ≡ take (suc m) (x ∷ xs) ++ (write_chunk takes fuel (suc call) (drop (suc m) (x ∷ xs))).0
  unfolding write_chunk
  write_chunk-step fuel call m x xs h = rw (write_chunk, h) refl

  pub write_chunk-all :
      (fuel call : ℕ) (left : Bytes)
      → length left < fuel
      → (write_chunk takes fuel call left).0 ≡ left
  unfolding write_chunk
  write_chunk-all zero call left h = absurd (omega (arith, h))
  write_chunk-all (suc fuel) call [] h = refl
  write_chunk-all (suc fuel) call (x ∷ xs) h =
      go (takes call (suc (length xs))) refl
        (λ m. write_chunk-all fuel (suc call) (drop m xs) (omega (arith, h, length-drop m xs)))
    where
      go :
          (n : ℕ)
          → takes call (suc (length xs)) ≡ n
          → ((m : ℕ) → (write_chunk takes fuel (suc call) (drop m xs)).0 ≡ drop m xs)
          → (write_chunk takes (suc fuel) call (x ∷ xs)).0 ≡ x ∷ xs
      go zero e rest = absurd (omega (arith, e, (writer call (length xs)).0))
      go (suc m) e rest = write_chunk-step fuel call m x xs e ∙ rw (rest m, take-drop m xs) refl

  -- All of the archive is written, whatever number of bytes, but at least one, each call of `write`
  -- takes.
  pub uncompress-all :
      (call : ℕ) (chunks : List Bytes) → uncompress takes call chunks ≡ flat_map (λ c. c) chunks
  unfolding uncompress
  uncompress-all call [] = refl
  uncompress-all call (chunk ∷ chunks) =
      let done = write_chunk takes (suc (length chunk)) call chunk in
      rw
        (
          write_chunk-all (suc (length chunk)) call chunk (omega arith),
          uncompress-all done.1 chunks,
        )
        refl

pub split_last-none : (c : ℕ) (path : Bytes) → has c path ≡ false → split_last c path ≡ none
unfolding split_last
split_last-none c [] h = refl
split_last-none c (x ∷ path) h = ground (arith, h, split_last-none c path)

pub split_last-join :
    (c : ℕ) (a b : Bytes) → has c b ≡ false → split_last c (a ++ c ∷ b) ≡ some (a, b)
unfolding split_last
split_last-join c [] b h = ground (arith, split_last-none c b h)
split_last-join c (x ∷ a) b h = rw (split_last-join c a b h) refl

pub split_last-some : (c : ℕ) (path : Bytes) → (split_last c (c ∷ path) ≡ none) → ⊥
unfolding split_last
split_last-some c path h = go (split_last c path) refl h
  where
    go : (o : Option (Bytes × Bytes)) → split_last c path ≡ o → split_last c (c ∷ path) ≡ none → ⊥
    go none e k = ground (arith, e, k)
    go (some p) e k = ground (arith, e, k)

-- The parts make the text again.
pub split_last-append :
    (c : ℕ) (path a b : Bytes) → split_last c path ≡ some (a, b) → path ≡ a ++ c ∷ b
unfolding split_last
split_last-append c [] a b h = cc
split_last-append c (x ∷ path) a b h = go (split_last c path) refl (split_last-append c path)
  where
    go :
        (o : Option (Bytes × Bytes))
        → split_last c path ≡ o
        → ((a b : Bytes) → split_last c path ≡ some (a, b) → path ≡ a ++ c ∷ b)
        → x ∷ path ≡ a ++ c ∷ b
    go none e again = ground (arith, e, h)
    go (some p) e again = ground (arith, e, h, again p.0 p.1 e)

pub uncompressed_path-none : (path : Bytes) → has b'.' path ≡ false → uncompressed_path path ≡ path
unfolding uncompressed_path
uncompressed_path-none path h = rw (uncompressed_path, split_last-none b'.' path h) refl
