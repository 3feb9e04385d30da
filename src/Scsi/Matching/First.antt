-- ===== src/Scsi/Matching/First.antt =====
-- `findTemplate` takes the first template that fits.
use lsvpd.Base.{
  suc, Bool, true, false, List, [], ◌∷◌, ◌++◌, Bytes, All, ◌≡◌, ◌⊎◌, inl, inr, refl, arith, ap, ◌∙◌,
  length,
}
use lsvpd.Scsi.Matching.{answer, pattern_matches, ScsiTemplate, found, missing, find_template}
use lsvpd.Scsi.Matching.Fuel.{matches-fuel}

-- The three patterns of the template match.
abbrev pub Fits : Bytes → Bytes → Bytes → ScsiTemplate → Type 0
Fits v c m t =
    (pattern_matches t.vendor v ≡ answer true)
    × (pattern_matches t.dev_class c ≡ answer true)
    × (pattern_matches t.model m ≡ answer true)

abbrev pub Differs : Bytes → Bytes → Bytes → ScsiTemplate → Type 0
Differs v c m t =
    (pattern_matches t.vendor v ≡ answer false)
    ⊎ (pattern_matches t.dev_class c ≡ answer false)
    ⊎ (pattern_matches t.model m ≡ answer false)

pattern_matches-answer : (p s : Bytes) → (b : Bool) × (pattern_matches p s ≡ answer b)
unfolding pattern_matches
pattern_matches-answer p s = matches-fuel (suc (length p)) p s (omega arith)

-- A template fits and is the answer, or it does not and the search goes on.
module _ (v c m : Bytes) (t : ScsiTemplate) (ts : List ScsiTemplate) where
  find_template-step :
      (Fits v c m t × (find_template v c m (t ∷ ts) ≡ found t))
      ⊎ (Differs v c m t × (find_template v c m (t ∷ ts) ≡ find_template v c m ts))
  unfolding find_template
  find_template-step =
      let rest = find_template v c m ts in
      let (a, ea) = pattern_matches-answer t.vendor v in
      let (b, eb) = pattern_matches-answer t.dev_class c in
      let (d, ed) = pattern_matches-answer t.model m in ground (arith, ea, eb, ed)

-- Either no template fits and the answer is none, or the answer is the first one that fits: its three
-- patterns match, and each template before it has one that does not. Nothing is thrown.
pub find_template_first :
    (v c m : Bytes) (ts : List ScsiTemplate)
    → ((find_template v c m ts ≡ missing) × All (Differs v c m) ts)
      ⊎ ((before after : List ScsiTemplate) × (t : ScsiTemplate) × (ts ≡ before ++ t ∷ after)
          × All (Differs v c m) before
          × Fits v c m t
          × (find_template v c m ts ≡ found t))
find_template_first v c m [] = inl (unfold find_template in refl, tt)
find_template_first v c m (t ∷ ts) = elim (find_template-step v c m t ts) [
  | inl (fits, e) ↦ inr ([], ts, t, refl, tt, fits, e)
  | inr (differs, e) ↦ elim (find_template_first v c m ts) [
    | inl (e', none_fits) ↦ inl (e ∙ e', (differs, none_fits))
    | inr (before, after, t', split, none_fits, fits, e') ↦
        inr (t ∷ before, after, t', ap (λ us. t ∷ us) split, (differs, none_fits), fits, e ∙ e')
  ]
]
