-- ===== src/Scsi/Templates/Codes.antt =====
-- The code and the format of a page.
use lsvpd.Base.{
  ℕ, Bool, false, ◌||◌, List, [], ◌∷◌, ◌++◌, some, ◌==◌, Bytes, starts_with, split_first, length,
  map, map-append, length-map, ◌≡◌, refl, arith, All,
}
use lsvpd.Scsi.Templates.{behind_0x, up_to_semicolon, retrieve_page_code, retrieve_page_template}
use lsvpd.Scsi.Templates.Pages.{IsPage, join_pages, retrieve_page_template-join_pages}

-- The character stands in the text.
abbrev pub has : ℕ → Bytes → Bool
has x [] = false
has x (c ∷ cs) = c == x || has x cs

-- The text of a page: its code and its format.
abbrev pub page_text : Bytes × Bytes → Bytes
page_text p = b'0' ∷ b'x' ∷ (p.0 ++ b'=' ∷ (p.1 ++ b';' ∷ []))

-- What a code and a format may not hold: the characters that end them.
abbrev pub IsPageSpec : Bytes × Bytes → Type 0
IsPageSpec p =
    (has b'=' p.0 ≡ false)
    × (has b';' p.1 ≡ false)
    × (has b'?' p.0 ≡ false)
    × (has b'?' p.1 ≡ false)

abbrev pub template_text : List (Bytes × Bytes) → Bytes
template_text pages = join_pages (map page_text pages)

pub split_first-has :
    (x : ℕ) (a b : Bytes) → has x a ≡ false → split_first x (a ++ x ∷ b) ≡ some (a, b)
unfolding split_first
split_first-has x [] b h = ground arith
split_first-has x (c ∷ a) b h = ground (arith, h, split_first-has x a b)

has-append : (x : ℕ) (a b : Bytes) → has x a ≡ false → has x b ≡ false → has x (a ++ b) ≡ false
has-append x [] b h k = k
has-append x (c ∷ a) b h k = ground (arith, h, k, has-append x a b)

asks-has : (a : Bytes) → has b'?' a ≡ false → IsPage a
asks-has [] h = refl
asks-has (c ∷ a) h = ground (arith, h, asks-has a)

page_text-IsPage : (page : Bytes × Bytes) → IsPageSpec page → IsPage (page_text page)
page_text-IsPage (code, format) (_, _, h, k) = asks-has (page_text (code, format)) (
    has-append b'?' code (b'=' ∷ format ++ b';' ∷ []) h (has-append b'?' format (b';' ∷ []) k refl))

IsPage-map :
    (pages : List (Bytes × Bytes)) → All IsPageSpec pages → All IsPage (map page_text pages)
IsPage-map [] h = tt
IsPage-map (page ∷ pages) h = (page_text-IsPage page h.0, IsPage-map pages h.1)

retrieve_page_code-parts :
    (page rest code behind format : Bytes)
    → behind_0x page ≡ some rest
    → split_first b'=' rest ≡ some (code, behind)
    → up_to_semicolon behind ≡ format
    → retrieve_page_code page ≡ some (code, format)
unfolding retrieve_page_code
retrieve_page_code-parts page rest code behind format h k l = ground (arith, h, k, l)

up_to_semicolon-found :
    (text a b : Bytes) → split_first b';' text ≡ some (a, b) → up_to_semicolon text ≡ a
unfolding up_to_semicolon
up_to_semicolon-found text a b h = ground (arith, h)

retrieve_page_code-page_text :
    (page : Bytes × Bytes)
    → IsPageSpec page
    → retrieve_page_code (b'?' ∷ page_text page) ≡ some page
retrieve_page_code-page_text (code, format) (h, k, _, _) =
    retrieve_page_code-parts (b'?' ∷ page_text (code, format))
      (code ++ b'=' ∷ (format ++ b';' ∷ [])) code (format ++ b';' ∷ []) format
      (unfold behind_0x starts_with in refl) (split_first-has b'=' code (format ++ b';' ∷ []) h)
      (up_to_semicolon-found (format ++ b';' ∷ []) format [] (split_first-has b';' format [] k))

-- Each page of a template has the code and the format that it was written with, where no code holds
-- an equals sign, no format a semicolon, and neither a question mark.
pub retrieve_page_code-template_text :
    (before after : List (Bytes × Bytes)) (page : Bytes × Bytes)
    → All IsPageSpec before
    → IsPageSpec page
    → All IsPageSpec after
    → retrieve_page_code
        (retrieve_page_template (template_text (before ++ page ∷ after)) (length before))
      ≡ some page
retrieve_page_code-template_text before after page h k l =
    rw (map-append page_text before (page ∷ after), ← length-map page_text before)
      (rw
        (retrieve_page_template-join_pages (map page_text before) (map page_text after)
          (page_text page) (IsPage-map before h) (page_text-IsPage page k) (IsPage-map after l))
        (retrieve_page_code-page_text page k))
