-- ===== src/Sysfs/Duplicates/Rules.antt =====
-- The removal of duplicates against its three rules, which are stated here without the code: what is
-- removed is what the rules name, and a device that they name no child of is passed.
use mathlib.Core.Path.{subst}
use lsvpd.Base.{
  true, false, List, [], ◌∷◌, ◌++◌, ◌≡◌, ◌⊎◌, inl, inr, refl, sym, ap, ◌∙◌, Option, none, some,
  Bytes, same, same_iff, All, Bool-cases,
}
use lsvpd.Sysfs.{Device, find_node, has_name, basename}
use lsvpd.Sysfs.Duplicates.{
  or_child, merge_attributes, only_child, if_duplicate, duplicate_child, without_child,
}

abbrev IsName : List Bytes → Bytes → Type 0
IsName [] name = ⊥
IsName (n ∷ names) name = (n ≡ name) ⊎ IsName names name

-- The rules: the device has one child; the first device at its path is there, and a leaf; and the
-- last part of the path is among the names of the device.
abbrev pub IsDuplicate : List Device → Device → Bytes → Type 0
IsDuplicate devs p child =
    (p.children ≡ child ∷ [])
    × ((d : Device) × (find_node devs child ≡ some d) × (d.children ≡ []))
    × IsName p.aix_names (basename child)

abbrev pub IsElsewhere : Bytes → Device → Type 0
IsElsewhere path d = same d.sys_fs_node path ≡ false

-- What a device is when a child of it has been removed: it has the class, the bus and the address of
-- the child where it has none, and the child is taken off its children.
abbrev filled : Bytes → Bytes → Bytes
filled [] text = text
filled (c ∷ cs) text = c ∷ cs

abbrev pub taken : (Bytes → List Bytes → List Bytes) → Device → Device → Bytes → Device
taken remove_child p d child = record {
  sys_fs_node = p.sys_fs_node;
  parent = p.parent;
  children = remove_child child p.children;
  aix_names = p.aix_names;
  dev_class = filled p.dev_class d.dev_class;
  dev_bus = filled p.dev_bus d.dev_bus;
  dev_bus_addr = filled p.dev_bus_addr d.dev_bus_addr;
  description = p.description;
  dev_driver = p.dev_driver;
}

or_child-filled : (a b : Bytes) → or_child a b ≡ filled a b
or_child-filled [] b = refl
or_child-filled (c ∷ cs) b = refl

pub merged-taken :
    (remove_child : Bytes → List Bytes → List Bytes) (p d : Device) (child : Bytes)
    → without_child remove_child child (merge_attributes p d) ≡ taken remove_child p d child
merged-taken remove_child p d child =
    rw
      (
        or_child-filled p.dev_class d.dev_class,
        or_child-filled p.dev_bus d.dev_bus,
        or_child-filled p.dev_bus_addr d.dev_bus_addr,
      )
      refl

-- A run over the vector, with the devices that it has passed, those that it has not, and those that
-- are left at the end
pub data Removal (remove_child : Bytes → List Bytes → List Bytes)
    : List Device → List Device → List Device → Type 0 where
  finished : (before : List Device) → Removal remove_child before [] before
  passed :
      (before ds res : List Device) (p : Device)
      → ((child : Bytes) → IsDuplicate (before ++ p ∷ ds) p child → ⊥)
      → Removal remove_child (before ++ p ∷ []) ds res
      → Removal remove_child before (p ∷ ds) res
  not_behind :
      (before ds res : List Device) (p : Device) (child : Bytes)
      → IsDuplicate (before ++ p ∷ ds) p child
      → All (IsElsewhere child) ds
      → Removal remove_child (before ++ p ∷ []) ds res
      → Removal remove_child before (p ∷ ds) res
  removed :
      (before ds xs ys res : List Device) (p d : Device) (child : Bytes)
      → IsDuplicate (before ++ p ∷ ds) p child
      → ds ≡ xs ++ d ∷ ys
      → d.sys_fs_node ≡ child
      → All (IsElsewhere child) xs
      → Removal remove_child (before ++ taken remove_child p d child ∷ []) (xs ++ ys) res
      → Removal remove_child before (p ∷ ds) res

true-ne-false : true ≡ false → ⊥
true-ne-false h = absurd cc

has_name-IsName : (names : List Bytes) (n : Bytes) → has_name names n ≡ true → IsName names n
unfolding has_name
has_name-IsName [] n h = absurd cc
has_name-IsName (m ∷ names) n h = elim (Bool-cases (same m n)) [
  | inl k ↦ inl ((same_iff m n).0 k)
  | inr k ↦ inr (has_name-IsName names n (sym (rw k refl) ∙ h))
]

IsName-has_name : (names : List Bytes) (n : Bytes) → IsName names n → has_name names n ≡ true
unfolding has_name
IsName-has_name [] n h = absurd h
IsName-has_name (m ∷ names) n (inl h) = rw ((same_iff m n).1 h) refl
IsName-has_name (m ∷ names) n (inr h) = elim (Bool-cases (same m n)) [
  | inl k ↦ rw k refl
  | inr k ↦ rw k (IsName-has_name names n h)
]

-- The rules decide what the code takes for a duplicate.
abbrev pub Decides : List Device → Device → Option Bytes → Type 0
Decides devs p none = (child : Bytes) → IsDuplicate devs p child → ⊥
Decides devs p (some child) = IsDuplicate devs p child

abbrev first : List Bytes → Bytes
first [] = []
first (c ∷ cs) = c

if_duplicate-Decides :
    (devs : List Device) (p : Device) (c : Bytes) (o : Option Device)
    → p.children ≡ c ∷ []
    → find_node devs c ≡ o
    → Decides devs p (if_duplicate p c o)
if_duplicate-Decides devs p c none h k = λ child (l, (d, m, _), _). absurd cc
if_duplicate-Decides devs p c (some d) h k = go d.children refl
  where
    differs :
        (child : Bytes)
        → child ∷ [] ≡ c ∷ []
        → has_name p.aix_names (basename c) ≡ false
        → IsName p.aix_names (basename child)
        → ⊥
    differs child e n i =
        let t =
          IsName-has_name p.aix_names (basename c)
            (subst (λ (z : Bytes). IsName p.aix_names (basename z)) (ap first e) i) in
        absurd (true-ne-false (sym t ∙ n))

    lost :
        {x : Bytes} {xs : List Bytes} (child : Bytes) (f : Device)
        → child ∷ [] ≡ c ∷ []
        → find_node devs child ≡ some f
        → f.children ≡ []
        → d.children ≡ x ∷ xs
        → ⊥
    lost child f e m q r =
        let same_device : some f ≡ some d = sym m ∙ ap (find_node devs) (ap first e) ∙ k in
        absurd cc

    go : (cs : List Bytes) → d.children ≡ cs → Decides devs p (if_duplicate p c (some d))
    go [] e = elim (Bool-cases (has_name p.aix_names (basename c))) [
      | inl n ↦ rw (e, n) (h, (d, k, e), has_name-IsName p.aix_names (basename c) n)
      | inr n ↦ rw (e, n) (λ child (l, _, i). differs child (sym l ∙ h) n i)
    ]
    go (x ∷ xs) e = rw e (λ child (l, (f, m, q), _). absurd (lost child f (sym l ∙ h) m q e))

pub duplicate_child-Decides :
    (devs : List Device) (p : Device) → Decides devs p (duplicate_child devs p)
unfolding duplicate_child
duplicate_child-Decides devs p = go p.children refl
  where
    empty : (child : Bytes) → child ∷ [] ≡ [] → ⊥
    empty child h = absurd cc

    two : {c d : Bytes} {cs : List Bytes} (child : Bytes) → child ∷ [] ≡ c ∷ d ∷ cs → ⊥
    two child h = absurd cc

    unlisted :
        {cs : List Bytes} → p.children ≡ cs → only_child cs ≡ none → duplicate_child devs p ≡ none
    unlisted e h = rw (duplicate_child, ap only_child e ∙ h) refl

    one :
        (c : Bytes)
        → p.children ≡ c ∷ []
        → duplicate_child devs p ≡ if_duplicate p c (find_node devs c)
    one c e = rw (duplicate_child, ap only_child e) refl

    go : (cs : List Bytes) → p.children ≡ cs → Decides devs p (duplicate_child devs p)
    go [] e =
        subst (Decides devs p) (sym (unlisted e refl))
          (λ child (l, _, _). absurd (empty child (sym l ∙ e)))
    go (c ∷ []) e =
        subst (Decides devs p) (sym (one c e))
          (if_duplicate-Decides devs p c (find_node devs c) e refl)
    go (c ∷ d ∷ cs) e =
        subst (Decides devs p) (sym (unlisted e refl))
          (λ child (l, _, _). absurd (two child (sym l ∙ e)))
