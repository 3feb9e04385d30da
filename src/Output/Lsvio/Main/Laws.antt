-- ===== src/Output/Lsvio/Main/Laws.antt =====
-- The options and the path of lsvio.
use mathlib.Core.List.{reverse, reverse-append}
use lsvpd.Base.{
  Bool, true, false, not, ◌||◌, List, [], ◌∷◌, ◌++◌, ◌≡◌, ◌≢◌, refl, arith, ◌∙◌, ap, sym, none,
  ==_iff, append_assoc, ℕ, Bytes, Option, some, Bool-cases, inl, inr, ◌==◌, same,
}
use lsvpd.Output.{Event}
use lsvpd.Vpd.Fields.{first_char}
use lsvpd.Output.Archive.{split_last, split_path}
use lsvpd.Output.Archive.Laws.{split_last-some, split_last-append}
use lsvpd.Output.Lsvio.Main.{
  VioOptions, VioRound, go_on, stop_usage, stop_version, null_text, vio_loop, need_kind,
  vio_options, no_vio_options, is_file_path,
}

need_kind-kind :
    (r : VioRound) (o : VioOptions)
    → need_kind r ≡ go_on o
    → (o.flags.scsi_adapters || o.flags.ethernet || o.flags.scsi_devices) ≡ true
unfolding need_kind
need_kind-kind (go_on o') o h =
    elim (Bool-cases (o'.flags.scsi_adapters || o'.flags.ethernet || o'.flags.scsi_devices)) [
      | inl k ↦ ground (arith, k, h)
      | inr k ↦ ground (arith, k, h)
    ]
need_kind-kind (stop_usage n) o h = cc
need_kind-kind stop_version o h = cc
need_kind-kind null_text o h = cc

-- Whatever the options are, the database is read only if some kind of device is to be listed.
pub vio_options-kind :
    (has_arguments : Bool) (events : List Event) (o : VioOptions)
    → vio_options has_arguments events ≡ go_on o
    → (o.flags.scsi_adapters || o.flags.ethernet || o.flags.scsi_devices) ≡ true
unfolding vio_options
vio_options-kind true [] o h = cc
vio_options-kind false [] o h = need_kind-kind (go_on no_vio_options) o h
vio_options-kind has_arguments (e ∷ events) o h =
    need_kind-kind (vio_loop no_vio_options (e ∷ events)) o h

-- Parts of a text with a slash between them, whose first and last characters are known.
first-IsRoot :
    (a b : Bytes) → first_char (a ++ b'/' ∷ b) ≡ b'/' → first_char (a ++ b'/' ∷ []) ≡ b'/'
first-IsRoot [] b h = refl
first-IsRoot (x ∷ a) b h = h

last-IsName : (a b : Bytes) → first_char (reverse (a ++ b'/' ∷ b)) ≢ b'/' → b ≢ []
last-IsName a b h e = h (
    ap (λ (b : Bytes). first_char (reverse (a ++ b'/' ∷ b))) e
    ∙ ap first_char (reverse-append a (b'/' ∷ [])))

and_not :
    (empty root slash : Bool)
    → not (empty || not root || slash) ≡ true
    → (root ≡ true) × (slash ≡ false)
and_not true root slash h = cc
and_not false true true h = cc
and_not false true false h = (refl, refl)
and_not false false slash h = cc

file_path-ends :
    (path : Bytes)
    → is_file_path path ≡ true
    → (first_char path ≡ b'/') × (first_char (reverse path) ≢ b'/')
file_path-ends path h =
    let (root, slash) =
      and_not (same path []) (first_char path == b'/') (first_char (reverse path) == b'/') h in
    ((==_iff (first_char path) b'/').0 root, λ e. ground (arith, e, slash))

first-some : (path : Bytes) → first_char path ≡ b'/' → split_last b'/' path ≡ none → ⊥
first-some [] h e = ground (arith, h)
first-some (x ∷ path) h e =
    split_last-some b'/' path (sym (ap (λ (y : ℕ). split_last b'/' (y ∷ path)) h) ∙ e)

-- A path that is accepted has the two parts that the database is opened with: a directory that
-- begins at the root, and a name.
pub is_file_path-split :
    (path : Bytes)
    → is_file_path path ≡ true
    → (dir name : Bytes) × (split_path path ≡ (dir, name))
      × (dir ++ name ≡ path)
      × (first_char dir ≡ b'/')
      × (name ≢ [])
unfolding split_path
is_file_path-split path h = go (split_last b'/' path) refl
  where
    go :
        (o : Option (Bytes × Bytes))
        → split_last b'/' path ≡ o
        → (dir name : Bytes) × (split_path path ≡ (dir, name))
          × (dir ++ name ≡ path)
          × (first_char dir ≡ b'/')
          × (name ≢ [])
    go none e = absurd (first-some path (file_path-ends path h).0 e)
    go (some (a, b)) e =
        let p = split_last-append b'/' path a b e in
        (
          a ++ b'/' ∷ [],
          b,
          rw (split_path, e) refl,
          append_assoc a (b'/' ∷ []) b ∙ sym p,
          first-IsRoot a b (sym (ap first_char p) ∙ (file_path-ends path h).0),
          last-IsName a b
              (λ k. (file_path-ends path h).1 (ap (λ (q : Bytes). first_char (reverse q)) p ∙ k)),
        )
