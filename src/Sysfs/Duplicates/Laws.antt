-- ===== src/Sysfs/Duplicates/Laws.antt =====
-- What is left of the devices when the duplicates are removed.
use mathlib.Core.List.{Mem, mem-cons_self, mem-cons_of_mem}
use lsvpd.Base.{
  ℕ, zero, suc, ◌<◌, ◌≤◌, ◌&&◌, arith, List, [], ◌∷◌, ◌++◌, ◌≡◌, ◌⊎◌, inl, inr, refl, sym, ap, ◌∙◌,
  Option, none, some, Bytes, same, same_iff, append-nil, length, All, append_assoc, Bool-cases,
}
use lsvpd.Sysfs.{Device, find_node, has_name, basename}
use lsvpd.Sysfs.Duplicates.{
  merge_attributes, only_child, is_leaf, if_duplicate, duplicate_child, behind, erase_node,
  without_child, delete_child, remove_from, remove_duplicate_devices,
}

-- A device of the vector whose one child is at the path of `d`
abbrev pub IsOnlyChild : List Device → Device → Type 0
IsOnlyChild all d = (p : Device) × Mem p all × (only_child p.children ≡ some d.sys_fs_node)

-- What the merging of attributes leaves as it is
abbrev pub IsMerged : Device → Device → Type 0
IsMerged d e =
    (e.sys_fs_node ≡ d.sys_fs_node)
    × (e.parent ≡ d.parent)
    × (e.aix_names ≡ d.aix_names)
    × (e.description ≡ d.description)
    × (e.dev_driver ≡ d.dev_driver)

-- The second vector is the first without some devices, each the one child of a device of `all`.
abbrev pub IsLeft : List Device → List Device → List Device → Type 0
IsLeft all [] [] = Unit
IsLeft all [] (e ∷ es) = ⊥
IsLeft all (d ∷ ds) [] = IsOnlyChild all d × IsLeft all ds []
IsLeft all (d ∷ ds) (e ∷ es) =
    (IsMerged d e × IsLeft all ds es) ⊎ (IsOnlyChild all d × IsLeft all ds (e ∷ es))

-- No device is its own one child.
abbrev pub IsSound : Device → Type 0
IsSound d = only_child d.children ≡ some d.sys_fs_node → ⊥

IsLeft-gone :
    (all ds es : List Device) (d : Device)
    → IsOnlyChild all d
    → IsLeft all ds es
    → IsLeft all (d ∷ ds) es
IsLeft-gone all ds [] d c h = (c, h)
IsLeft-gone all ds (e ∷ es) d c h = inr (c, h)

same-IsMerged : (d : Device) → IsMerged d d
same-IsMerged d = (refl, refl, refl, refl, refl)

-- What holds of the devices that are still to be looked at
abbrev IsPending : List Device → Device → Type 0
IsPending all d = Mem d all × IsSound d

pending :
    (all ds : List Device)
    → ((d : Device) → Mem d ds → Mem d all)
    → All IsSound ds
    → All (IsPending all) ds
pending all [] m s = tt
pending all (d ∷ ds) m (s, rest) =
    ((m d mem-cons_self, s), pending all ds (λ e k. m e (mem-cons_of_mem d k)) rest)

-- The second vector is the first, or the first without one only child.
abbrev Erases : List Device → List Device → List Device → Type 0
Erases all ds rest =
    ((es : List Device) → IsLeft all rest es → IsLeft all ds es)
    × (length rest ≤ length ds)
    × (All (IsPending all) ds → All (IsPending all) rest)

abbrev OnErased : List Device → List Device → Option (Device × List Device) → Type 0
OnErased all ds none = Unit
OnErased all ds (some (found, rest)) = Erases all ds rest

same-Erases : (all ds : List Device) → Erases all ds ds
same-Erases all ds = (λ es h. h, omega arith, λ q. q)

IsLeft-behind :
    (all ds rest es : List Device) (d : Device)
    → Erases all ds rest
    → IsLeft all (d ∷ rest) es
    → IsLeft all (d ∷ ds) es
IsLeft-behind all ds rest [] d (k, _, _) (c, h) = (c, k [] h)
IsLeft-behind all ds rest (e ∷ es) d (k, _, _) (inl (s, h)) = inl (s, k es h)
IsLeft-behind all ds rest (e ∷ es) d (k, _, _) (inr (c, h)) = inr (c, k (e ∷ es) h)

behind-OnErased :
    (all ds : List Device) (d : Device) (o : Option (Device × List Device))
    → OnErased all ds o
    → OnErased all (d ∷ ds) (behind d o)
behind-OnErased all ds d none h = tt
behind-OnErased all ds d (some (found, rest)) h =
    (λ es. IsLeft-behind all ds rest es d h, omega (arith, h.1), λ q. (q.0, h.2 q.1))

erase_node-OnErased :
    (all ds : List Device) (child : Bytes)
    → ((d : Device) → d.sys_fs_node ≡ child → IsOnlyChild all d)
    → OnErased all ds (erase_node child ds)
unfolding erase_node
erase_node-OnErased all [] child c = tt
erase_node-OnErased all (d ∷ ds) child c = elim (Bool-cases (same d.sys_fs_node child)) [
  | inl k ↦ rw k (
    λ es. IsLeft-gone all ds es d (c d ((same_iff d.sys_fs_node child).0 k)),
    omega arith,
    λ q. q.1,
  )
  | inr k ↦
      rw k (behind-OnErased all ds d (erase_node child ds) (erase_node-OnErased all ds child c))
]

-- The child that is deleted is the one child.
abbrev OnChild : Device → Option Bytes → Type 0
OnChild p none = Unit
OnChild p (some child) = only_child p.children ≡ some child

if_duplicate-OnChild :
    (devs : List Device) (p : Device) (child : Bytes) (found : Option Device)
    → only_child p.children ≡ some child
    → OnChild p (if_duplicate p child found)
if_duplicate-OnChild devs p child none h = tt
if_duplicate-OnChild devs p child (some d) h =
    elim (Bool-cases (is_leaf d && has_name p.aix_names (basename child))) [
      | inl k ↦ rw k h
      | inr k ↦ rw k tt
    ]

duplicate_child-OnChild : (devs : List Device) (p : Device) → OnChild p (duplicate_child devs p)
unfolding duplicate_child
duplicate_child-OnChild devs p = go (only_child p.children) refl
  where
    go : (o : Option Bytes) → only_child p.children ≡ o → OnChild p (duplicate_child devs p)
    go none k = rw (duplicate_child, k) tt
    go (some child) k =
        rw (duplicate_child, k) (if_duplicate-OnChild devs p child (find_node devs child) k)

module _ (remove_child : Bytes → List Bytes → List Bytes) where
  abbrev IsDeleted : List Device → Device → List Device → Option (Device × List Device) → Type 0
  IsDeleted all p ds none = ⊥
  IsDeleted all p ds (some (d, rest)) = IsMerged p d × Erases all ds rest

  delete_child-IsDeleted :
      (all ds : List Device) (p : Device) (child : Bytes)
      → IsPending all p
      → only_child p.children ≡ some child
      → IsDeleted all p ds (delete_child remove_child child p ds)
  unfolding delete_child
  delete_child-IsDeleted all ds p child (m, s) c = elim (Bool-cases (same p.sys_fs_node child)) [
    | inl k ↦ absurd (s (c ∙ ap some (sym ((same_iff p.sys_fs_node child).0 k))))
    | inr k ↦ rw k (
        go (erase_node child ds)
          (erase_node-OnErased all ds child (λ d h. (p, m, c ∙ ap some (sym h)))))
  ]
    where
      go :
          (o : Option (Device × List Device))
          → OnErased all ds o
          → IsDeleted all p ds (elim o [
            | none ↦ some (p, ds)
            | some (d, rest) ↦ some (without_child remove_child child (merge_attributes p d), rest)
          ])
      go none h = (same-IsMerged p, same-Erases all ds)
      go (some (d, rest)) h = (same-IsMerged p, h)

  -- What the loop returns, from `ds` on
  abbrev Returns : List Device → List Device → List Device → Option (List Device) → Type 0
  Returns all before ds res = (es : List Device) × (res ≡ some (before ++ es)) × IsLeft all ds es

  passed-Returns :
      (all before ds rest : List Device) (p d : Device) (res : Option (List Device))
      → IsMerged p d
      → Erases all ds rest
      → Returns all (before ++ d ∷ []) rest res
      → Returns all before (p ∷ ds) res
  passed-Returns all before ds rest p d res s (k, _, _) (es, h, l) =
      (d ∷ es, h ∙ ap some (append_assoc before (d ∷ []) es), inl (s, k es l))

  remove_from-Returns :
      (all : List Device) (fuel : ℕ) (before ds : List Device)
      → length ds < fuel
      → All (IsPending all) ds
      → Returns all before ds (remove_from remove_child fuel before ds)
  unfolding remove_from
  remove_from-Returns all zero before ds n q = absurd (omega (arith, n))
  remove_from-Returns all (suc fuel) before [] n q = ([], ap some (sym (append-nil before)), tt)
  remove_from-Returns all (suc fuel) before (p ∷ ds) n (q, qs) =
      go (duplicate_child (before ++ p ∷ ds) p) (duplicate_child-OnChild (before ++ p ∷ ds) p)
        (λ d rest e.
          remove_from-Returns all fuel (before ++ d ∷ []) rest (omega (arith, n, e.1)) (e.2 qs))
    where
      go :
          (o : Option Bytes)
          → OnChild p o
          → ((d : Device) (rest : List Device)
              → Erases all ds rest
              → Returns all
                  (before ++ d ∷ [])
                  rest
                  (remove_from remove_child fuel (before ++ d ∷ []) rest))
          → Returns all before (p ∷ ds) (elim o [
            | none ↦ remove_from remove_child fuel (before ++ p ∷ []) ds
            | some child ↦ elim (delete_child remove_child child p ds) [
              | none ↦ none
              | some (d, rest) ↦ remove_from remove_child fuel (before ++ d ∷ []) rest
            ]
          ])
      go none c again =
          passed-Returns all before ds ds p p _ (same-IsMerged p) (same-Erases all ds)
            (again p ds (same-Erases all ds))
      go (some child) c again =
          below (delete_child remove_child child p ds) (delete_child-IsDeleted all ds p child q c)
        where
          below :
              (o : Option (Device × List Device))
              → IsDeleted all p ds o
              → Returns all before (p ∷ ds) (elim o [
                | none ↦ none
                | some (d, rest) ↦ remove_from remove_child fuel (before ++ d ∷ []) rest
              ])
          below none i = absurd i
          below (some (d, rest)) (s, e) =
              passed-Returns all before ds rest p d _ s e (again d rest e)

  -- If no device is its own one child, the loop ends without an access out of the vector. What it
  -- leaves is the vector in its order, with each device's node, parent, names, description and
  -- driver, without some of the devices that are the one child of a device of the vector.
  pub remove_duplicate_devices-IsLeft :
      (devs : List Device)
      → All IsSound devs
      → (res : List Device) × (remove_duplicate_devices remove_child devs ≡ some res)
        × IsLeft devs devs res
  unfolding remove_duplicate_devices
  remove_duplicate_devices-IsLeft devs s =
      remove_from-Returns devs (suc (length devs)) [] devs (omega arith)
        (pending devs devs (λ d m. m) s)
