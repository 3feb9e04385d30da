-- ===== src/Update/Files.antt =====
-- What the operations on files do to the paths.
use lsvpd.Base.{
  false, [], ◌∷◌, ◌≡◌, refl, ap, ◌∙◌, Option, none, some, Bytes, same, same_iff, same_refl,
  Bool-cases, inl, inr,
}
use lsvpd.Update.{Node, regular, directory, special, FileSystem, stat, erase, unlink, put}

pub stat-put : (path : Bytes) (n : Node) (fs : FileSystem) → stat path (put path n fs) ≡ some n
unfolding stat
stat-put path n fs = rw (same_refl path) refl

pub stat-put_other :
    (path other : Bytes) (n : Node) (fs : FileSystem)
    → same path other ≡ false
    → stat other (put path n fs) ≡ stat other fs
unfolding stat
stat-put_other path other n fs h = rw h refl

stat-erase : (path : Bytes) (fs : FileSystem) → stat path (erase path fs) ≡ none
unfolding stat erase
stat-erase path [] = refl
stat-erase path (e ∷ fs) = elim (Bool-cases (same e.0 path)) [
  | inl h ↦ rw h (stat-erase path fs)
  | inr h ↦ rw (h, h) (stat-erase path fs)
]

stat-erase_other :
    (path other : Bytes) (fs : FileSystem)
    → same path other ≡ false
    → stat other (erase path fs) ≡ stat other fs
unfolding stat erase
stat-erase_other path other [] h = refl
stat-erase_other path other (e ∷ fs) h = elim (Bool-cases (same e.0 path)) [
  | inl k ↦
      let d : same e.0 other ≡ false =
        ap (λ (x : Bytes). same x other) ((same_iff e.0 path).0 k) ∙ h in
      rw (k, d) (stat-erase_other path other fs h)
  | inr k ↦ rw (k, stat-erase_other path other fs h) refl
]

-- A file that is removed is gone, and the other paths name what they named.
pub stat-unlink :
    (path c : Bytes) (fs : FileSystem)
    → stat path fs ≡ some (regular c)
    → stat path (unlink path fs) ≡ none
unfolding unlink
stat-unlink path c fs h = rw (unlink, h) (stat-erase path fs)

pub stat-unlink_other :
    (path other : Bytes) (fs : FileSystem)
    → same path other ≡ false
    → stat other (unlink path fs) ≡ stat other fs
unfolding unlink
stat-unlink_other path other fs h = go (stat path fs) refl
  where
    go : (o : Option Node) → stat path fs ≡ o → stat other (unlink path fs) ≡ stat other fs
    go none e = rw (unlink, e) refl
    go (some (regular c)) e = rw (unlink, e) (stat-erase_other path other fs h)
    go (some (directory m)) e = rw (unlink, e) refl
    go (some special) e = rw (unlink, e) (stat-erase_other path other fs h)
