-- ===== src/Scsi/Templates/Pages.antt =====
-- The pages of a template.
use lsvpd.Base.{
  ℕ, suc, ◌+◌, ◌<◌, Bool, false, ◌||◌, List, [], ◌∷◌, ◌++◌, Option, none, some, ◌==◌, Bytes, length,
  take, drop, ◌≡◌, refl, arith, ap, All, ◌∙◌, append_assoc, All-append, take-append, drop-append,
  length-append,
}
use lsvpd.Scsi.Templates.{num_page_templates, page_bounds, retrieve_page_template}

-- The text of a page: no question mark stands in it.
abbrev pub asks : Bytes → Bool
asks [] = false
asks (c ∷ cs) = c == b'?' || asks cs

abbrev pub IsPage : Bytes → Type 0
IsPage page = asks page ≡ false

-- The template that has the pages.
abbrev pub join_pages : List Bytes → Bytes
join_pages [] = []
join_pages (page ∷ pages) = b'?' ∷ page ++ join_pages pages

num_page_templates-page :
    (page rest : Bytes) → IsPage page → num_page_templates (page ++ rest) ≡ num_page_templates rest
unfolding num_page_templates
num_page_templates-page [] rest h = refl
num_page_templates-page (c ∷ page) rest h = ground (arith, h, num_page_templates-page page rest)

-- The pages of a template are counted, where none of them holds a question mark.
pub num_page_templates-join_pages :
    (pages : List Bytes) → All IsPage pages → num_page_templates (join_pages pages) ≡ length pages
unfolding num_page_templates
num_page_templates-join_pages [] h = refl
num_page_templates-join_pages (page ∷ pages) h =
    rw
      (num_page_templates-page page (join_pages pages) h.0, num_page_templates-join_pages pages h.1)
      refl

-- Over a page the scan only advances.
page_bounds-page :
    (num : ℕ) (page rest : Bytes) (i count : ℕ) (beg : Option ℕ)
    → IsPage page
    → page_bounds num (page ++ rest) i count beg ≡ page_bounds num rest (i + length page) count beg
unfolding page_bounds
page_bounds-page num [] rest i count beg h =
    ap (λ n. page_bounds num rest n count beg) (omega arith)
page_bounds-page num (c ∷ page) rest i count beg h =
    ground (arith, h, page_bounds-page num page rest (suc i) count beg)

-- From the page that is found the scan goes on to the next one, or to the end.
page_bounds-found :
    (num : ℕ) (page : Bytes) (pages : List Bytes) (i count b : ℕ)
    → IsPage page
    → page_bounds num (page ++ join_pages pages) i count (some b) ≡ (some b, i + length page)
unfolding page_bounds
page_bounds-found num page [] i count b h = page_bounds-page num page [] i count (some b) h
page_bounds-found num page (p ∷ pages) i count b h =
    page_bounds-page num page (join_pages (p ∷ pages)) i count (some b) h

join_pages-append : (xs ys : List Bytes) → join_pages (xs ++ ys) ≡ join_pages xs ++ join_pages ys
join_pages-append [] ys = refl
join_pages-append (x ∷ xs) ys =
    rw (join_pages-append xs ys, append_assoc x (join_pages xs) (join_pages ys)) refl

-- At a question mark: the one that is looked for, and one before it.
module _ (num : ℕ) (cs : Bytes) (i count : ℕ) where
  page_bounds-hit :
      count ≡ num
      → page_bounds num (b'?' ∷ cs) i count none ≡ page_bounds num cs (suc i) (suc count) (some i)
  unfolding page_bounds
  page_bounds-hit e = ground (arith, e)

  page_bounds-miss :
      count < num
      → page_bounds num (b'?' ∷ cs) i count none ≡ page_bounds num cs (suc i) (suc count) none
  unfolding page_bounds
  page_bounds-miss h = ground (arith, h)

-- The scan from the start of a page, `length before` pages ahead of the one that is looked for.
page_bounds-pages :
    (before after : List Bytes) (page : Bytes) (i count num : ℕ)
    → All IsPage before
    → IsPage page
    → count + length before ≡ num
    → page_bounds num (join_pages (before ++ page ∷ after)) i count none
      ≡ (some (i + length (join_pages before)), i + length (join_pages before) + suc (length page))
page_bounds-pages [] after page i count num h k e =
    page_bounds-hit num (page ++ join_pages after) i count (omega (arith, e))
    ∙ page_bounds-found num page after (suc i) (suc count) i k
    ∙ ground arith
page_bounds-pages (p ∷ before) after page i count num h k e =
    page_bounds-miss num (p ++ join_pages (before ++ page ∷ after)) i count (omega (arith, e))
    ∙ page_bounds-page num p (join_pages (before ++ page ∷ after)) (suc i) (suc count) none h.0
    ∙ page_bounds-pages before after page (suc i + length p) (suc count) num h.1 k
        (omega (arith, e))
    ∙ ground (arith, length-append p (join_pages before))

-- The bounds that the scan finds are those of the answer.
retrieve_page_template-within :
    (templ : Bytes) (num b n : ℕ)
    → num < num_page_templates templ
    → page_bounds num templ 0 0 none ≡ (some (0 + b), 0 + b + n)
    → retrieve_page_template templ num ≡ take n (drop b templ)
unfolding retrieve_page_template
retrieve_page_template-within templ num b n h e = ground (arith, h, e)

-- The page of a number is the text from its question mark to the next one or to the end.
pub retrieve_page_template-join_pages :
    (before after : List Bytes) (page : Bytes)
    → All IsPage before
    → IsPage page
    → All IsPage after
    → retrieve_page_template (join_pages (before ++ page ∷ after)) (length before) ≡ b'?' ∷ page
retrieve_page_template-join_pages before after page h k l =
    let pages = join_pages (before ++ page ∷ after) in
    let bounds = page_bounds-pages before after page 0 0 (length before) h k (omega arith) in
    let count =
      num_page_templates-join_pages (before ++ page ∷ after)
        (All-append IsPage before (page ∷ after) h (k, l)) in
    retrieve_page_template-within pages (length before) (length (join_pages before))
      (suc (length page)) (omega (arith, count, length-append before (page ∷ after))) bounds
    ∙ rw
        (
          join_pages-append before (page ∷ after),
          drop-append (join_pages before) (join_pages (page ∷ after)),
          take-append page (join_pages after),
        )
        refl
