-- ===== src/Sysfs/Duplicates/Runs.antt =====
-- What `removeDuplicateDevices` returns is what a run by the rules leaves.
use mathlib.Core.Path.{subst}
use lsvpd.Base.{
  ℕ, zero, suc, List, [], ◌∷◌, ◌++◌, ◌≡◌, inl, inr, refl, sym, ap, ◌∙◌, Option, none, some, Bytes,
  same, same_iff, length, All, All-left, All-append, Bool-cases,
}
use lsvpd.Sysfs.{Device}
use lsvpd.Sysfs.Duplicates.{
  merge_attributes, only_child, duplicate_child, behind, erase_node, without_child, delete_child,
  remove_from, remove_duplicate_devices,
}
use lsvpd.Sysfs.Duplicates.Laws.{IsSound, IsLeft, remove_duplicate_devices-IsLeft}
use lsvpd.Sysfs.Duplicates.Rules.{
  IsDuplicate, IsElsewhere, Removal, finished, passed, not_behind, removed, Decides, merged-taken,
  duplicate_child-Decides,
}

-- The first device at a path, and what is around it
abbrev IsCut : Bytes → List Device → Option (Device × List Device) → Type 0
IsCut path ds none = All (IsElsewhere path) ds
IsCut path ds (some (d, rest)) =
    (xs : List Device) × (ys : List Device) × (ds ≡ xs ++ d ∷ ys)
    × (rest ≡ xs ++ ys)
    × (d.sys_fs_node ≡ path)
    × All (IsElsewhere path) xs

behind-IsCut :
    (path : Bytes) (d : Device) (ds : List Device) (o : Option (Device × List Device))
    → IsElsewhere path d
    → IsCut path ds o
    → IsCut path (d ∷ ds) (behind d o)
behind-IsCut path d ds none n h = (n, h)
behind-IsCut path d ds (some (e, rest)) n (xs, ys, h, k, at, all) =
    (d ∷ xs, ys, ap (λ l. d ∷ l) h, ap (λ l. d ∷ l) k, at, (n, all))

erase_node-IsCut : (path : Bytes) (ds : List Device) → IsCut path ds (erase_node path ds)
unfolding erase_node
erase_node-IsCut path [] = tt
erase_node-IsCut path (d ∷ ds) = elim (Bool-cases (same d.sys_fs_node path)) [
  | inl k ↦ rw k ([], ds, refl, refl, (same_iff d.sys_fs_node path).0 k, tt)
  | inr k ↦ rw k (behind-IsCut path d ds (erase_node path ds) k (erase_node-IsCut path ds))
]

module _ (remove_child : Bytes → List Bytes → List Bytes) where
  -- What the loop returns is what a run leaves.
  abbrev pub OnRemoval : List Device → List Device → Option (List Device) → Type 0
  OnRemoval before ds none = Unit
  OnRemoval before ds (some res) = Removal remove_child before ds res

  then-OnRemoval :
      (b b' ds ds' : List Device) (o : Option (List Device))
      → ((res : List Device) → Removal remove_child b' ds' res → Removal remove_child b ds res)
      → OnRemoval b' ds' o
      → OnRemoval b ds o
  then-OnRemoval b b' ds ds' none f h = tt
  then-OnRemoval b b' ds ds' (some res) f h = f res h

  pub remove_from-OnRemoval :
      (fuel : ℕ) (before ds : List Device)
      → All IsSound ds
      → OnRemoval before ds (remove_from remove_child fuel before ds)
  unfolding remove_from delete_child
  remove_from-OnRemoval zero before ds s = tt
  remove_from-OnRemoval (suc fuel) before [] s = finished before
  remove_from-OnRemoval (suc fuel) before (p ∷ ds) (s, ss) =
      go (duplicate_child (before ++ p ∷ ds) p) (duplicate_child-Decides (before ++ p ∷ ds) p)
        (λ d rest r. remove_from-OnRemoval fuel (before ++ d ∷ []) rest r)
    where
      Run : Device → List Device → Type 0
      Run d rest =
          OnRemoval (before ++ d ∷ []) rest (remove_from remove_child fuel (before ++ d ∷ []) rest)

      cut :
          (child : Bytes) (o : Option (Device × List Device))
          → IsDuplicate (before ++ p ∷ ds) p child
          → IsCut child ds o
          → ((d : Device) (rest : List Device) → All IsSound rest → Run d rest)
          → OnRemoval before
              (p ∷ ds)
              (elim (elim o as (λ x. Option (Device × List Device)) [
                | none ↦ some (p, ds)
                | some (d, rest) ↦
                    some (without_child remove_child child (merge_attributes p d), rest)
              ]) [
                | none ↦ none
                | some (d, rest) ↦ remove_from remove_child fuel (before ++ d ∷ []) rest
              ])
      cut child none i c again =
          then-OnRemoval before (before ++ p ∷ []) (p ∷ ds) ds _
            (λ res. not_behind before ds res p child i c) (again p ds ss)
      cut child (some (d, rest)) i (xs, ys, h, k, at, all) again =
          let e = without_child remove_child child (merge_attributes p d) in
          let q = All-left IsSound xs (d ∷ ys) (subst (All IsSound) h ss) in
          then-OnRemoval before (before ++ e ∷ []) (p ∷ ds) rest _
            (λ res r. removed before ds xs ys res p d child i h at all (
              subst (λ f. Removal remove_child (before ++ f ∷ []) (xs ++ ys) res)
                (merged-taken remove_child p d child)
                (subst (λ l. Removal remove_child (before ++ e ∷ []) l res) k r)))
            (again e rest (subst (All IsSound) (sym k) (All-append IsSound xs ys q.0 q.1.1)))

      go :
          (o : Option Bytes)
          → Decides (before ++ p ∷ ds) p o
          → ((d : Device) (rest : List Device) → All IsSound rest → Run d rest)
          → OnRemoval before (p ∷ ds) (elim o [
            | none ↦ remove_from remove_child fuel (before ++ p ∷ []) ds
            | some child ↦ elim (delete_child remove_child child p ds) [
              | none ↦ none
              | some (d, rest) ↦ remove_from remove_child fuel (before ++ d ∷ []) rest
            ]
          ])
      go none n again =
          then-OnRemoval before (before ++ p ∷ []) (p ∷ ds) ds _ (λ res. passed before ds res p n)
            (again p ds ss)
      go (some child) i again = elim (Bool-cases (same p.sys_fs_node child)) [
        | inl k ↦
            absurd (s (ap only_child i.0 ∙ ap some (sym ((same_iff p.sys_fs_node child).0 k))))
        | inr k ↦ rw k (cut child (erase_node child ds) i (erase_node-IsCut child ds) again)
      ]

  -- If no device is its own one child, the loop ends without an access out of the vector. What it
  -- leaves is what a run by the rules leaves: at each device in turn the child that they name is
  -- removed, if it stands behind the device, and its attributes are merged into the device.
  pub remove_duplicate_devices-Removal :
      (devs : List Device)
      → All IsSound devs
      → (res : List Device) × (remove_duplicate_devices remove_child devs ≡ some res)
        × Removal remove_child [] devs res
        × IsLeft devs devs res
  unfolding remove_duplicate_devices
  remove_duplicate_devices-Removal devs s =
      let (res, e, l) = remove_duplicate_devices-IsLeft remove_child devs s in
      (res, e, subst (OnRemoval [] devs) e (remove_from-OnRemoval (suc (length devs)) [] devs s), l)
