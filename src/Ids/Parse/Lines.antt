-- ===== src/Ids/Parse/Lines.antt =====
-- The operations on a stream that stands in front of a word, of blanks, or of the rest of a line.
use lsvpd.Base.{
  ℕ, zero, suc, ◌≤◌, Bool, false, ◌||◌, [], ◌∷◌, ◌++◌, ◌==◌, Bytes, length, All, isspace, c_str,
  ◌≡◌, refl, arith,
}
use lsvpd.Ids.Stream.{Stream, peek, get, read_word, read_line, word, line_from}
use lsvpd.Ids.Parse.{skip_comments, skip_blanks, rounds}

-- The stream in front of a text, with no flag.
abbrev pub at_text : Bytes → Stream
at_text text = record { left = text; eof = false; fail = false }

abbrev pub IsSolid : ℕ → Type 0
IsSolid c = isspace c ≡ false

-- A word: some characters, none a white space, that do not begin a comment.
abbrev pub IsWord : Bytes → Type 0
IsWord [] = ⊥
IsWord (c ∷ cs) = ((c == b'#') ≡ false) × IsSolid c × All IsSolid cs

-- A name fits on a line, and does not begin with a blank.
abbrev pub IsNameChar : ℕ → Type 0
IsNameChar c = ((c == 10) ≡ false) × ((c == 0) ≡ false)

abbrev pub blank_front : Bytes → Bool
blank_front [] = false
blank_front (c ∷ cs) = c == b' ' || c == 9

abbrev pub IsName : Bytes → Type 0
IsName name = All IsNameChar name × (blank_front name ≡ false) × (length name ≤ 4095)

word-solid : (w r : Bytes) → All IsSolid w → word (w ++ b' ' ∷ r) ≡ (w, b' ' ∷ r)
unfolding word
word-solid [] r h = ground arith
word-solid (c ∷ w) r h = ground (arith, h.0, word-solid w r h.1)

pub read_word-at_text :
    (old w r : Bytes) → IsWord w → read_word old (at_text (w ++ b' ' ∷ r)) ≡ (w, at_text (b' ' ∷ r))
unfolding read_word
read_word-at_text old [] r h = elim h [ ]
read_word-at_text old (c ∷ w) r h = ground (arith, h.1, word-solid (c ∷ w) r (h.1, h.2))

pub read_word-blank :
    (old : Bytes) (text : Bytes)
    → read_word old (at_text (b' ' ∷ text)) ≡ read_word old (at_text text)
unfolding read_word
read_word-blank old text = refl

line_from-name :
    (n : ℕ) (name r : Bytes)
    → All IsNameChar name
    → length name ≤ n
    → line_from n (name ++ 10 ∷ r) ≡ (name, r, false, false)
unfolding line_from
line_from-name zero [] r h l = refl
line_from-name (suc n) [] r h l = refl
line_from-name zero (c ∷ name) r h l = ground (arith, l)
line_from-name (suc n) (c ∷ name) r h l =
    ground (arith, h.0, line_from-name n name r h.1 (omega (arith, l)))

c_str-name : (name : Bytes) → All IsNameChar name → c_str name ≡ name
unfolding c_str
c_str-name [] h = refl
c_str-name (c ∷ name) h = ground (arith, h.0, c_str-name name h.1)

pub read_line-name :
    (name r : Bytes) → IsName name → read_line (at_text (name ++ 10 ∷ r)) ≡ (name, at_text r)
unfolding read_line
read_line-name [] r h = ground (arith, line_from-name 4095 [] r)
read_line-name (c ∷ name) r h =
    ground (arith, line_from-name 4095 (c ∷ name) r h.0 h.2, c_str-name (c ∷ name) h.0)

-- Two blanks and a name.
pub skip_blanks-name :
    (tabs : Bool) (name r : Bytes)
    → IsName name
    → skip_blanks tabs
        (rounds (at_text (b' ' ∷ b' ' ∷ name ++ 10 ∷ r)))
        (at_text (b' ' ∷ b' ' ∷ name ++ 10 ∷ r))
      ≡ at_text (name ++ 10 ∷ r)
unfolding skip_blanks peek get
skip_blanks-name tabs [] r h = ground arith
skip_blanks-name tabs (c ∷ name) r h = ground (arith, h.1)

pub skip_comments-word :
    (n : ℕ) (w r : Bytes) → IsWord w → skip_comments (suc n) (at_text (w ++ r)) ≡ at_text (w ++ r)
unfolding skip_comments peek
skip_comments-word n [] r h = elim h [ ]
skip_comments-word n (c ∷ w) r h = ground (arith, h.0)
