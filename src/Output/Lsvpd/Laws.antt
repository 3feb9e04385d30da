-- ===== src/Output/Lsvpd/Laws.antt =====
-- The listing of lsvpd: which components are in it, and that its lines are read back.
use lsvpd.Base.{
  ℕ, ◌==◌, arith, true, Bool, false, ◌&&◌, List, [], ◌∷◌, ◌++◌, ◌≡◌, inl, inr, refl, ap, ◌∙◌,
  append-nil, flat_map-select, if◌then◌else◌, Option, none, some, Bytes, codes, same, map,
  map-append, flat_map, flat_map-append, select, select-append, split_first, All, append_assoc,
  Bool-cases,
}
use lsvpd.Scsi.Templates.Codes.{split_first-has, has}
use lsvpd.Gatherer.{Forest, nil, tree, nodes}
use lsvpd.Output.{
  Item, Key, feature_code, description, record_type, manufacturer, model, machine_serial, cd,
  net_addr, fru, firmware_version, manufacturer_id, firmware_level, serial_number, eng_change,
  part_number, n5, n6, micro_code_image, physical_location, keyword_version, Component, value_of,
}
use lsvpd.Output.Lsvpd.{
  Flags, output_text, star_line, marked, described, item_line, specific_line, optional,
  description_lines, value_lines, vpd_lines, plain_keys, is_listed, is_wanted, debug_lines,
  print_one, print_components,
}

-- The components that a run prints.
abbrev pub is_printed : Flags → Component → Bool
is_printed flags c = is_listed flags c && is_wanted flags c

quiet :
    (d : Bool) (a b c : List Bytes)
    → d ≡ false
    → (if d then a else []) ++ b ++ (if d then c else []) ≡ b
quiet d a b c h = rw (h, append-nil b) refl

print_one_lem :
    (flags : Flags) (c : Component)
    → flags.debug ≡ false
    → print_one flags c ≡ (if is_printed flags c then vpd_lines flags.marked_vpd c else [])
unfolding print_one
print_one_lem flags c h =
    quiet flags.debug (debug_lines c)
      (if is_printed flags c then vpd_lines flags.marked_vpd c else [])
      (codes " ------------------------- " ∷ []) h

-- Without --debug the listing of a tree is the lines of those of its components that are listed
-- and asked for, each before those below it.
pub print_components-selected :
    (flags : Flags) (forest : Forest Component)
    → flags.debug ≡ false
    → print_components flags forest
      ≡ flat_map (vpd_lines flags.marked_vpd) (select (is_printed flags) (nodes forest))
unfolding print_components
print_components-selected flags nil h = refl
print_components-selected flags (tree c leaves next) h =
    let f = vpd_lines flags.marked_vpd in
    let p = is_printed flags in
    rw
      (
        print_one_lem flags c h,
        print_components-selected flags leaves h,
        print_components-selected flags next h,
        flat_map-select f p c (nodes leaves ++ nodes next),
        select-append p (nodes leaves) (nodes next),
        flat_map-append f (select p (nodes leaves)) (select p (nodes next)),
        append_assoc (if p c then f c else []) (flat_map f (select p (nodes leaves)))
            (flat_map f (select p (nodes next))),
      )
      refl

-- The lines of a text, each up to its newline
abbrev onto_first : ℕ → List Bytes → List Bytes
onto_first c [] = (c ∷ []) ∷ []
onto_first c (l ∷ ls) = (c ∷ l) ∷ ls

unfoldable pub lines : Bytes → List Bytes
lines [] = []
lines (c ∷ cs) = let rest = lines cs in if c == 10 then [] ∷ rest else onto_first c rest

-- The keyword and the value of a line.
pub read_entry : Bytes → Option (Bytes × Bytes)
unfolding split_first
read_entry [] = none
read_entry (c ∷ cs) = split_first b' ' cs

abbrev print_entry : Bytes × Bytes → Bytes
print_entry e = star_line e.0 e.1

abbrev entry : Item → Bytes × Bytes
entry i = (i.ac, i.value)

-- A keyword that no space stands in, and a value; no newline is in the two.
abbrev pub IsEntry : Bytes × Bytes → Type 0
IsEntry e = (has b' ' e.0 ≡ false) × (has 10 e.0 ≡ false) × (has 10 e.1 ≡ false)

unfoldable pub specific_entry : Item → Bytes × Bytes
specific_entry i = (if same i.ac (codes "SZ") then codes "Size" else i.ac, i.value)

-- A pair that has a value.
unfoldable pub present : Item → List (Bytes × Bytes)
present i = if same i.value [] then [] else entry i ∷ []

-- The feature code, which --mark makes eight stars where there is none
abbrev pub feature_text : Bool → Bytes → Bytes
feature_text true [] = codes "********"
feature_text true (c ∷ cs) = c ∷ cs
feature_text false code = code

-- The description, and with a space the value of CD behind it if there is one
abbrev pub with_cd : Bytes → Bytes → Bytes
with_cd text [] = text
with_cd text (c ∷ cs) = text ++ b' ' ∷ c ∷ cs

unfoldable pub description_entry : Component → List (Bytes × Bytes)
description_entry c =
    if same (c.item description).value []
    then []
    else ((c.item description).ac, with_cd (c.item description).value (c.item cd).value) ∷ []

-- The items of the device between its names and the items that are specific to it
abbrev pub device_entries : Component → List (Bytes × Bytes)
device_entries c =
    present (c.item manufacturer)
    ++ (present (c.item model)
        ++ (present (c.item machine_serial)
            ++ (present (c.item cd)
                ++ (present (c.item net_addr)
                    ++ (present (c.item fru)
                        ++ (present (c.item firmware_version)
                            ++ (present (c.item manufacturer_id)
                                ++ (present (c.item firmware_level)
                                    ++ (present (c.item serial_number)
                                        ++ (present (c.item eng_change)
                                            ++ (present (c.item part_number)
                                                ++ (present (c.item n5)
                                                    ++ (present (c.item n6) ++ [])))))))))))))

unfoldable pub value_entries : Component → List (Bytes × Bytes)
value_entries c =
    description_entry c
    ++ present (c.item record_type)
    ++ map entry c.aix_names
    ++ device_entries c
    ++ map specific_entry c.device_specific
    ++ present (c.item micro_code_image)
    ++ map entry c.user_data
    ++ present (c.item physical_location)
    ++ present (c.item keyword_version)

-- The pairs of keywords and values of a component: those of its data items that have a value, the
-- feature code always.
abbrev pub vpd_entries : Bool → Component → List (Bytes × Bytes)
vpd_entries m c =
    ((c.item feature_code).ac, feature_text m (c.item feature_code).value) ∷ value_entries c

lines-line : (l rest : Bytes) → has 10 l ≡ false → lines (l ++ 10 ∷ rest) ≡ l ∷ lines rest
unfolding lines
lines-line [] rest h = ground arith
lines-line (c ∷ l) rest h = ground (arith, h, lines-line l rest)

has-append : (x : ℕ) (a b : Bytes) → has x a ≡ false → has x b ≡ false → has x (a ++ b) ≡ false
has-append x [] b h k = k
has-append x (c ∷ a) b h k = ground (arith, h, has-append x a b)

lines-entries :
    (es : List (Bytes × Bytes))
    → All IsEntry es
    → lines (output_text (map print_entry es)) ≡ map print_entry es
unfolding lines
lines-entries [] h = refl
lines-entries (e ∷ es) ((_, k, v), hs) =
    lines-line (print_entry e) (output_text (map print_entry es))
      (has-append 10 (b'*' ∷ e.0) (b' ' ∷ e.1) k v)
    ∙ ap (λ ls. print_entry e ∷ ls) (lines-entries es hs)

read-entries :
    (es : List (Bytes × Bytes)) → All IsEntry es → map read_entry (map print_entry es) ≡ map some es
unfolding read_entry
read-entries [] h = refl
read-entries (e ∷ es) ((h, _, _), hs) = rw (split_first-has b' ' e.0 e.1 h, read-entries es hs) refl

-- The lines of the parts of a component are those of their pairs.
optional-present : (i : Item) → optional i ≡ map print_entry (present i)
unfolding optional present
optional-present i = elim (Bool-cases (same i.value [])) [ inl h ↦ rw h refl | inr h ↦ rw h refl ]

described-with_cd :
    (c : Component) → described c ≡ with_cd (c.item description).value (c.item cd).value
unfolding same
described-with_cd c = go (c.item cd).value
  where
    go :
        (v : Bytes)
        → (c.item description).value ++ (if same v [] then [] else b' ' ∷ v)
          ≡ with_cd (c.item description).value v
    go [] = append-nil (c.item description).value
    go (x ∷ xs) = refl

marked-feature_text : (m : Bool) (code : Bytes) → marked m code ≡ feature_text m code
unfolding same
marked-feature_text true [] = refl
marked-feature_text true (c ∷ cs) = refl
marked-feature_text false code = refl

description_lines-entry :
    (c : Component) → description_lines c ≡ map print_entry (description_entry c)
unfolding description_lines description_entry
description_lines-entry c = elim (Bool-cases (same (value_of c description) [])) [
  | inl h ↦ rw h refl
  | inr h ↦ rw (h, described-with_cd c) refl
]

items-entries : (is : List Item) → map item_line is ≡ map print_entry (map entry is)
items-entries [] = refl
items-entries (i ∷ is) = rw (items-entries is) refl

specific-entry : (i : Item) → specific_line i ≡ print_entry (specific_entry i)
unfolding specific_line specific_entry
specific-entry i = elim (Bool-cases (same i.ac (codes "SZ"))) [
  | inl h ↦ rw h refl
  | inr h ↦ rw h refl
]

specifics-entries :
    (is : List Item) → map specific_line is ≡ map print_entry (map specific_entry is)
specifics-entries [] = refl
specifics-entries (i ∷ is) = rw (specific-entry i, specifics-entries is) refl

lines_of_both :
    {a b : List Bytes} (x y : List (Bytes × Bytes))
    → a ≡ map print_entry x
    → b ≡ map print_entry y
    → a ++ b ≡ map print_entry (x ++ y)
lines_of_both x y h k = rw (h, k, map-append print_entry x y) refl

keys-entries :
    (c : Component) (ks : List Key)
    → flat_map (λ k. optional (c.item k)) ks
      ≡ map print_entry (flat_map (λ k. present (c.item k)) ks)
keys-entries c [] = refl
keys-entries c (k ∷ ks) = lines_of_both _ _ (optional-present (c.item k)) (keys-entries c ks)

plain_keys-entries :
    (c : Component)
    → flat_map (λ k. optional (c.item k)) plain_keys ≡ map print_entry (device_entries c)
plain_keys-entries c = keys-entries c plain_keys

value_lines-entries : (c : Component) → value_lines c ≡ map print_entry (value_entries c)
unfolding value_lines value_entries
value_lines-entries c =
    lines_of_both _ _
      (lines_of_both _ _
        (lines_of_both _ _
          (lines_of_both _ _
            (lines_of_both _ _
              (lines_of_both _ _
                (lines_of_both _ _
                  (lines_of_both _ _ (description_lines-entry c)
                    (optional-present (c.item record_type)))
                  (items-entries c.aix_names))
                (plain_keys-entries c))
              (specifics-entries c.device_specific))
            (optional-present (c.item micro_code_image)))
          (items-entries c.user_data))
        (optional-present (c.item physical_location)))
      (optional-present (c.item keyword_version))

vpd_lines-entries : (m : Bool) (c : Component) → vpd_lines m c ≡ map print_entry (vpd_entries m c)
unfolding vpd_lines
vpd_lines-entries m c =
    rw (value_lines-entries c, marked-feature_text m (value_of c feature_code)) refl

-- What is printed for a component is read back as its pairs, if no keyword has a space and neither
-- keywords nor values have a newline.
pub read-vpd_lines :
    (m : Bool) (c : Component)
    → All IsEntry (vpd_entries m c)
    → map read_entry (lines (output_text (vpd_lines m c))) ≡ map some (vpd_entries m c)
read-vpd_lines m c h =
    ap (λ ls. map read_entry (lines (output_text ls))) (vpd_lines-entries m c)
    ∙ ap (map read_entry) (lines-entries (vpd_entries m c) h)
    ∙ read-entries (vpd_entries m c) h
