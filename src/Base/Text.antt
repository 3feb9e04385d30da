-- ===== src/Base/Text.antt =====
-- Texts as lists of bytes, and the parts of the C and C++ standard libraries that the program
-- uses on them.
use Prim.Native.Nat.{ℕ, suc}
use Prim.Native.Char.{code}
use Prim.Native.String.{String}
use mathlib.Core.Path.{◌≡◌, refl}
use mathlib.Core.Logic.{◌↔◌}
use mathlib.Core.Bool.{Bool, true, false, ◌&&◌, ◌||◌}
use mathlib.Core.List.{List, [], ◌∷◌}
use mathlib.Core.Option
use mathlib.Core.Option.{Option, none, some}
use native.Mathlib.Omega.{arith}
use lsvpd.Base.Tests.{◌==◌, if◌then◌else◌, within}

abbrev pub Bytes : Type 0
Bytes = List ℕ

-- The bytes of an ASCII literal.
abbrev pub codes : String → Bytes
codes String.[] = []
codes (String.◌∷◌ c s) = code c ∷ codes s

-- `std::string::operator==`
unfoldable pub same : Bytes → Bytes → Bool
same [] [] = true
same (x ∷ xs) (y ∷ ys) = x == y && same xs ys
same _ _ = false

pub same_iff : (a b : Bytes) → (same a b ≡ true) ↔ (a ≡ b)
unfolding same
same_iff (x ∷ a) (y ∷ b) = ground (arith, same_iff a b)
same_iff _ _ = ground arith

pub same_refl : (a : Bytes) → same a a ≡ true
same_refl a = (same_iff a a).1 refl

-- `std::string(const char *)`: the bytes before the first NUL.
unfoldable pub c_str : Bytes → Bytes
c_str [] = []
c_str (c ∷ cs) = if c == 0 then [] else c ∷ c_str cs

-- `isprint` and `isspace` in the C locale, which the programs never leave
abbrev pub isprint : ℕ → Bool
isprint c = within 32 126 c

abbrev pub isspace : ℕ → Bool
isspace c = c == 32 || within 9 13 c

-- A text with a prefix.
unfoldable pub starts_with : Bytes → Bytes → Bool
starts_with [] s = true
starts_with (p ∷ ps) [] = false
starts_with (p ∷ ps) (c ∷ cs) = p == c && starts_with ps cs

-- `strstr` and `find` of a text: it stands somewhere in the other.
unfoldable pub contains_text : Bytes → Bytes → Bool
unfolding starts_with
contains_text what [] = starts_with what []
contains_text what (c ∷ cs) = starts_with what (c ∷ cs) || contains_text what cs

-- `find` of a character: what stands before and behind its first occurrence.
unfoldable pub split_first : ℕ → Bytes → Option (Bytes × Bytes)
split_first c [] = none
split_first c (x ∷ xs) =
    if x == c
    then some ([], xs)
    else Option.map (λ (p : Bytes × Bytes). (x ∷ p.0, p.1)) (split_first c xs)

-- `substr(rfind(c) + 1)`: what stands behind the last occurrence, or everything.
unfoldable pub after_last : ℕ → Bytes → Bytes
unfolding split_first
after_last c [] = []
after_last c (x ∷ xs) = elim (split_first c (x ∷ xs)) [ none ↦ x ∷ xs | some p ↦ after_last c xs ]

-- `find` of a character: its first position.
unfoldable pub find : ℕ → Bytes → Option ℕ
find c [] = none
find c (x ∷ xs) = if x == c then some 0 else Option.map (λ n. suc n) (find c xs)
