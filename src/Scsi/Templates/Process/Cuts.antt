-- ===== src/Scsi/Templates/Process/Cuts.antt =====
-- Which fields of a format are handled.
use lsvpd.Base.{
  ℕ, zero, suc, if◌then◌else◌, ltb, leb, ◌+◌, ◌-◌, ◌<◌, ◌≤◌, false, List, [], ◌∷◌, ◌++◌, Option,
  none, some, Bytes, split_first, length, take, ◌≡◌, refl, arith, ap, All, ◌∙◌, length-append,
}
use lsvpd.Scsi.Templates.Codes.{has, split_first-has}
use lsvpd.Scsi.Templates.Process.{
  got, outside, process_template, field_templates, cut_fields, last_field, commas, process_fields,
}

pub split_first-none : (x : ℕ) (a : Bytes) → has x a ≡ false → split_first x a ≡ none
unfolding split_first
split_first-none x [] h = refl
split_first-none x (c ∷ a) h = ground (arith, h, split_first-none x a)

commas-none : (a : Bytes) → has b',' a ≡ false → commas a ≡ 0
unfolding commas
commas-none [] h = refl
commas-none (c ∷ a) h = ground (arith, h, commas-none a)

field_templates-plain :
    (junk : Option ℕ) (format : Bytes)
    → split_first b',' format ≡ none
    → field_templates junk format ≡ got []
unfolding field_templates
field_templates-plain junk format h = ground (arith, h)

-- A format of one field, which has no comma, is not handled at all: no data item is written.
pub process_template_single :
    (junk : Option ℕ) (bytes format : Bytes) (page_code : ℕ)
    → has b',' format ≡ false
    → process_template junk bytes format page_code ≡ got []
unfolding process_template process_fields
process_template_single junk bytes format page_code h = ground (
  arith,
  commas-none format h,
  field_templates-plain junk format (split_first-none b',' format h),
)

-- The fields, with commas between them.
abbrev pub join_commas : Bytes → List Bytes → Bytes
join_commas f [] = f
join_commas f (g ∷ gs) = f ++ b',' ∷ join_commas g gs

abbrev pub IsField : Bytes → Type 0
IsField f = has b',' f ≡ false

-- What the unset cell holds does not cut the last field short.
abbrev pub IsHarmless : Option ℕ → ℕ → Type 0
IsHarmless none n = Unit
IsHarmless (some junk) n = n ≤ junk

take-all : (n : ℕ) (xs : Bytes) → length xs ≤ n → take n xs ≡ xs
take-all zero [] h = refl
take-all zero (x ∷ xs) h = ground (arith, h)
take-all (suc n) [] h = refl
take-all (suc n) (x ∷ xs) h = rw (take-all n xs (omega (arith, h))) refl

last_field-whole :
    (junk : Option ℕ) (cur : ℕ) (text : Bytes)
    → IsHarmless junk (cur + length text)
    → last_field junk cur text ≡ text
unfolding last_field
last_field-whole none cur text h = refl
last_field-whole (some junk) cur text h =
    ground (arith, h, take-all (junk - cur) text (omega (arith, h)))

IsHarmless-eq : (junk : Option ℕ) (m n : ℕ) → m ≡ n → IsHarmless junk m → IsHarmless junk n
IsHarmless-eq none m n e h = h
IsHarmless-eq (some junk) m n e h = omega (arith, e, h)

-- The scan at a comma, and with none left.
module _ (fuel : ℕ) (junk : Option ℕ) (cur : ℕ) (text : Bytes) where
  cut_fields-step :
      (a b : Bytes)
      → split_first b',' text ≡ some (a, b)
      → cut_fields (suc fuel) junk cur text ≡ a ∷ cut_fields fuel junk (cur + suc (length a)) b
  unfolding cut_fields
  cut_fields-step a b h = ground (arith, h)

  cut_fields-last :
      split_first b',' text ≡ none
      → cut_fields (suc fuel) junk cur text ≡ last_field junk cur text ∷ []
  unfolding cut_fields
  cut_fields-last h = ground (arith, h)

cut_fields-join_commas :
    (fuel : ℕ) (junk : Option ℕ) (cur : ℕ) (f : Bytes) (fs : List Bytes)
    → length fs < fuel
    → IsField f
    → All IsField fs
    → IsHarmless junk (cur + length (join_commas f fs))
    → cut_fields fuel junk cur (join_commas f fs) ≡ f ∷ fs
cut_fields-join_commas zero junk cur f fs l h k n = elim l [ ]
cut_fields-join_commas (suc fuel) junk cur f [] l h k n =
    cut_fields-last fuel junk cur f (split_first-none b',' f h)
    ∙ rw (last_field-whole junk cur f n) refl
cut_fields-join_commas (suc fuel) junk cur f (g ∷ gs) l h k n =
    let rest = join_commas g gs in
    let e = length-append f (b',' ∷ rest) in
    cut_fields-step fuel junk cur (f ++ b',' ∷ rest) f rest (split_first-has b',' f rest h)
    ∙ ap (λ gs'. f ∷ gs')
        (cut_fields-join_commas fuel junk (cur + suc (length f)) g gs (omega (arith, l)) k.0 k.1 (
          IsHarmless-eq junk (cur + length (f ++ b',' ∷ rest)) (cur + suc (length f) + length rest)
            (omega (arith, e)) n))

length-join_commas : (f : Bytes) (fs : List Bytes) → length fs ≤ length (join_commas f fs)
length-join_commas f [] = omega arith
length-join_commas f (g ∷ gs) =
    omega (arith, length-join_commas g gs, length-append f (b',' ∷ join_commas g gs))

field_templates-comma :
    (junk : Option ℕ) (format : Bytes) (p : Bytes × Bytes)
    → split_first b',' format ≡ some p
    → field_templates junk format ≡ (
        if ltb (commas format) 29
        then got (cut_fields (suc (length format)) junk 0 format)
        else outside)
unfolding field_templates
field_templates-comma junk format p h = rw (field_templates, h) refl

commas-field : (f rest : Bytes) → IsField f → commas (f ++ b',' ∷ rest) ≡ suc (commas rest)
unfolding commas
commas-field [] rest h = ground arith
commas-field (c ∷ f) rest h = ground (arith, h, commas-field f rest)

commas-join_commas :
    (f : Bytes) (fs : List Bytes)
    → IsField f
    → All IsField fs
    → commas (join_commas f fs) ≡ length fs
commas-join_commas f [] h k = commas-none f h
commas-join_commas f (g ∷ gs) h k =
    commas-field f (join_commas g gs) h ∙ ap (λ n. suc n) (commas-join_commas g gs k.0 k.1)

-- A format of two fields or more is cut at its commas, if the cell of `eof` that is never set holds a
-- number below zero or one that is at least the length of the format, and if there are no more than
-- 29 fields; with more of them the code writes outside of `eof`.
pub field_templates-join_commas :
    (junk : Option ℕ) (f g : Bytes) (fs : List Bytes)
    → IsField f
    → IsField g
    → All IsField fs
    → IsHarmless junk (length (join_commas f (g ∷ fs)))
    → field_templates junk (join_commas f (g ∷ fs))
      ≡ (if leb (length (f ∷ g ∷ fs)) 29 then got (f ∷ g ∷ fs) else outside)
field_templates-join_commas junk f g fs h k l n =
    let rest = join_commas g fs in
    let format = f ++ b',' ∷ rest in
    let cut : cut_fields (suc (length format)) junk 0 format ≡ f ∷ g ∷ fs =
      cut_fields-join_commas (suc (length format)) junk 0 f (g ∷ fs)
        (omega (arith, length-join_commas f (g ∷ fs))) h (k, l)
        (IsHarmless-eq junk (length format) (0 + length format) (omega arith) n) in
    rw
      (
        field_templates-comma junk format (f, rest) (split_first-has b',' f rest h),
        commas-join_commas f (g ∷ fs) h (k, l),
        cut,
      )
      (ground arith)
