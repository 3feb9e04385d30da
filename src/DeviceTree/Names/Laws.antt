-- ===== src/DeviceTree/Names/Laws.antt =====
-- What `isDevice` answers, and the names at which it reads before the string.
use mathlib.Core.List.{reverse, reverse-append, reverse-reverse}
use mathlib.Core.Path.{subst}
use lsvpd.Base.{
  ℕ, Bool, true, false, ◌↔◌, [], ◌∷◌, ◌++◌, ◌≡◌, refl, sym, ap, ◌∙◌, arith, ◌==◌, Bytes, All,
  append_assoc, append-nil, All-append, ◌⊎◌, inl, inr, Bool-cases, ==_iff,
}
use lsvpd.DeviceTree.Buffer.{ok, fault}
use lsvpd.DeviceTree.Names.{ignore_path, is_ignored, in_address, scan_back, is_device}

abbrev pub InAddress : ℕ → Type 0
InAddress c = in_address c ≡ true

scan_back-address : (xs ys : Bytes) → All InAddress xs → scan_back (xs ++ ys) ≡ scan_back ys
unfolding scan_back
scan_back-address [] ys h = refl
scan_back-address (x ∷ xs) ys h = ground (arith, scan_back-address xs ys h.1)

-- The scan stops at the last character that is no part of an address.
scan_back-stop :
    (xs ys : Bytes) (c : ℕ)
    → All InAddress xs
    → in_address c ≡ false
    → scan_back (xs ++ c ∷ ys) ≡ ok (c == b'@')
scan_back-stop xs ys c h n = scan_back-address xs (c ∷ ys) h ∙ unfold scan_back in rw n

scan_back-off : (xs : Bytes) → All InAddress xs → scan_back xs ≡ fault
scan_back-off xs h =
    ap scan_back (sym (append-nil xs)) ∙ scan_back-address xs [] h ∙ unfold scan_back in refl

-- Either all characters are passed, or there is one at which the scan stops.
scan_back-split :
    (s : Bytes)
    → All InAddress s
      ⊎ ((xs : Bytes) × (c : ℕ) × (ys : Bytes) × (s ≡ xs ++ c ∷ ys)
          × All InAddress xs
          × (in_address c ≡ false))
scan_back-split [] = inl tt
scan_back-split (x ∷ s) = elim (Bool-cases (in_address x)) [
  | inr stop ↦ inr ([], x, s, refl, tt, stop)
  | inl go ↦ elim (scan_back-split s) [
    | inl all ↦ inl (go, all)
    | inr (xs, c, ys, e, all, stop) ↦ inr (x ∷ xs, c, ys, ap (◌∷◌ x) e, (go, all), stop)
  ]
]

reverse-cons : (x : ℕ) (xs : Bytes) → reverse (x ∷ xs) ≡ reverse xs ++ x ∷ []
reverse-cons x xs = reverse-append (x ∷ []) xs

reverse-address : (xs : Bytes) → All InAddress xs → All InAddress (reverse xs)
reverse-address [] h = tt
reverse-address (x ∷ xs) h =
    subst (All InAddress) (sym (reverse-cons x xs))
      (All-append InAddress (reverse xs) (x ∷ []) (reverse-address xs h.1) (h.0, tt))

reverse_middle : (xs ys : Bytes) (c : ℕ) → reverse (xs ++ c ∷ ys) ≡ reverse ys ++ c ∷ reverse xs
reverse_middle xs ys c = reverse-append xs (c ∷ ys) ∙ rw (reverse-cons c ys, append_assoc)

-- A name that is not ignored is a device exactly if it has an `@` with nothing but the characters
-- of an address behind it.
pub is_device_iff :
    (name : Bytes)
    → is_ignored ignore_path name ≡ false
    → (is_device name ≡ ok true) ↔ (
        (front : Bytes) × (address : Bytes) × (name ≡ front ++ b'@' ∷ address)
        × All InAddress address)
unfolding is_device
is_device_iff name i = (forward, backward)
  where
    backward :
        (front : Bytes) × (address : Bytes) × (name ≡ front ++ b'@' ∷ address)
          × All InAddress address
        → is_device name ≡ ok true
    backward (front, address, e, h) = rw i (
        ap scan_back (ap reverse e ∙ reverse_middle front address b'@')
        ∙ scan_back-stop (reverse address) (reverse front) b'@' (reverse-address address h) refl)

    only : (b : Bool) → ok b ≡ ok true → b ≡ true
    only b e = cc

    forward :
        is_device name ≡ ok true
        → (front : Bytes) × (address : Bytes) × (name ≡ front ++ b'@' ∷ address)
          × All InAddress address
    forward h = elim (scan_back-split (reverse name)) [
      | inl all ↦ cc (scan_back-off (reverse name) all, rw i at h)
      | inr (xs, c, ys, e, all, stop) ↦
          let k : (c == b'@') ≡ true =
            only (c == b'@')
              (sym (scan_back-stop xs ys c all stop) ∙ ap scan_back (sym e) ∙ rw i at h) in
          (
            reverse ys,
            reverse xs,
            sym (reverse-reverse name)
                ∙ ap reverse e
                ∙ reverse_middle xs ys c
                ∙ ap (λ (d : ℕ). reverse ys ++ d ∷ reverse xs) ((==_iff c b'@').0 k),
            reverse-address xs all,
          )
    ]

-- On a name that is not ignored and has nothing but such characters, the scan runs off the front of
-- the string.
pub is_device_reads_before :
    (name : Bytes)
    → is_ignored ignore_path name ≡ false
    → All InAddress name
    → is_device name ≡ fault
unfolding is_device
is_device_reads_before name i h = rw i (scan_back-off (reverse name) (reverse-address name h))
