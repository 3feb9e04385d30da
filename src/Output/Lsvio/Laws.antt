-- ===== src/Output/Lsvio/Laws.antt =====
-- Which components lsvio prints, and when it ends at an exception.
use mathlib.Core.Option
use lsvpd.Base.{
  List, [], ◌∷◌, ◌++◌, ◌≡◌, ◌↔◌, refl, arith, Option, none, some, Bytes, All, flat_map,
  flat_map-append, append_assoc, All-append, All-left, if◌then◌else◌,
}
use lsvpd.Gatherer.{Forest, nil, tree, nodes}
use lsvpd.Output.{Item, Component, dev_tree_node, base_name, physical_location, value_of}
use lsvpd.Output.Lsvio.{
  VioFlags, Shown, hidden, network, storage, shown, last_char, name_of, up_to_at, vio_debug_lines,
  node_name, scsi_name, vio_lines, print_vio, print_vios, then_print,
}

-- If each component prints its lines, the tree prints them all, each component before those below
-- it.
pub print_vios-lines :
    (flags : VioFlags) (f : Component → List Bytes) (forest : Forest Component)
    → All (λ c. print_vio flags c ≡ some (f c)) (nodes forest)
    → print_vios flags forest ≡ some (flat_map f (nodes forest))
unfolding print_vios
print_vios-lines flags f nil h = refl
print_vios-lines flags f (tree c leaves next) (h, k) =
    let (kl, kn) = All-left _ (nodes leaves) (nodes next) k in
    rw
      (
        h,
        print_vios-lines flags f leaves kl,
        print_vios-lines flags f next kn,
        flat_map-append f (nodes leaves) (nodes next),
        append_assoc (f c) (flat_map f (nodes leaves)) (flat_map f (nodes next)),
      )
      refl

then_print-some :
    (a b : Option (List Bytes)) (lines : List Bytes)
    → then_print a b ≡ some lines
    → ((xs : List Bytes) × (a ≡ some xs)) × ((ys : List Bytes) × (b ≡ some ys))
then_print-some none b lines h = cc
then_print-some (some xs) none lines h = cc
then_print-some (some xs) (some ys) lines h = ((xs, refl), (ys, refl))

-- The output comes to its end only if no component throws.
pub print_vios-All :
    (flags : VioFlags) (forest : Forest Component) (lines : List Bytes)
    → print_vios flags forest ≡ some lines
    → All (λ c. (own : List Bytes) × (print_vio flags c ≡ some own)) (nodes forest)
unfolding print_vios
print_vios-All flags nil lines h = tt
print_vios-All flags (tree c leaves next) lines h =
    let ((here, e), (later, n)) =
      then_print-some (then_print (print_vio flags c) (print_vios flags leaves))
        (print_vios flags next) lines h in
    let (own, (below, l)) = then_print-some (print_vio flags c) (print_vios flags leaves) here e in
    (
      own,
      All-append _ (nodes leaves) (nodes next) (print_vios-All flags leaves below l)
          (print_vios-All flags next later n),
    )

map-none :
    {A : Type 0} {B : Type 0} (f : A → B) (o : Option A) → (Option.map f o ≡ none) ↔ (o ≡ none)
map-none f none = (λ _. refl, λ _. refl)
map-none f (some a) = (λ h. absurd (ground (arith, h)), λ h. absurd (ground (arith, h)))

last_char-none : (cs : Bytes) → (last_char cs ≡ none) ↔ (cs ≡ [])
last_char-none [] = (λ _. refl, λ _. refl)
last_char-none (c ∷ []) = (λ h. absurd (ground (arith, h)), λ h. absurd (ground (arith, h)))
last_char-none (c ∷ d ∷ cs) =
    (λ h. absurd (ground (arith, (last_char-none (d ∷ cs)).0 h)), λ h. absurd (ground (arith, h)))

name_of-none :
    (names : List Item) (node : Bytes)
    → (name_of names node ≡ none) ↔ ((names ≡ []) × (base_name node ≡ []))
unfolding name_of node_name
name_of-none [] node =
    let m =
      map-none (λ last. up_to_at (base_name node) ++ last ++ b' ' ∷ [])
        (last_char (base_name node)) in
    let l = last_char-none (base_name node) in (λ h. (refl, l.0 (m.0 h)), λ h. m.1 (l.1 h.1))
name_of-none (i ∷ names) node = (λ h. absurd (ground (arith, h)), λ h. absurd (ground (arith, h.0)))

vio_lines-none :
    (s : Shown) (c : Component) → (vio_lines s c ≡ none) ↔ ((s ≡ storage) × (scsi_name c ≡ none))
unfolding vio_lines
vio_lines-none hidden c = (λ h. absurd (ground (arith, h)), λ h. absurd (ground (arith, h.0)))
vio_lines-none network c = (λ h. absurd (ground (arith, h)), λ h. absurd (ground (arith, h.0)))
vio_lines-none storage c =
    let m =
      map-none (λ (name : Bytes). (name ++ value_of c physical_location) ∷ []) (scsi_name c) in
    (λ h. (refl, m.0 h), λ h. m.1 h.1)

-- A component ends the program exactly if it is to be named as a SCSI device, has no AIX names, and
-- the path of its node in the device tree is empty or ends with a slash.
pub print_vio-none :
    (flags : VioFlags) (c : Component)
    → (print_vio flags c ≡ none)
      ↔ ((shown flags c ≡ storage) × (c.aix_names ≡ []) × (base_name (c.text dev_tree_node) ≡ []))
unfolding print_vio
print_vio-none flags c =
    let m =
      map-none (λ lines. (if flags.debug then vio_debug_lines c else []) ++ lines)
        (vio_lines (shown flags c) c) in
    let v = vio_lines-none (shown flags c) c in
    let n = name_of-none c.aix_names (c.text dev_tree_node) in
    (
      λ h. let (s, e) = v.0 (m.0 h) in let (a, b) = n.0 e in (s, a, b),
      λ h. m.1 (v.1 (h.0, n.1 (h.1, h.2))),
    )
