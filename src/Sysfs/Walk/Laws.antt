-- ===== src/Sysfs/Walk/Laws.antt =====
-- The parent of each device that is found is found too.
use mathlib.Core.Path.{subst}
use lsvpd.Base.{
  Bool, true, false, not, ◌&&◌, List, [], ◌∷◌, ◌++◌, ◌≡◌, ◌⊎◌, inl, inr, refl, sym, ap, ◌∙◌, some,
  if◌then◌else◌, Bytes, codes, same, same_refl, All, All-append, Bool-cases,
}
use lsvpd.Gatherer.{Forest, nil, tree}
use lsvpd.Sysfs.{Device, find_node}
use lsvpd.Sysfs.Details.{Links, get_initial_details}
use lsvpd.Sysfs.Walk.{Entry, filter_device_path, is_new_device, find_devices, find_device_paths}

-- No path, as the root has no parent, or the path of a device of the vector.
abbrev pub IsKnown : List Device → Bytes → Type 0
IsKnown devs path = (path ≡ []) ⊎ ((d : Device) × (find_node devs path ≡ some d))

-- A vector in which the parents of all devices are.
abbrev pub IsClosed : List Device → Type 0
IsClosed devs = All (λ d. IsKnown devs d.parent) devs

find_node-append :
    (devs more : List Device) (path : Bytes) (d : Device)
    → find_node devs path ≡ some d
    → find_node (devs ++ more) path ≡ some d
unfolding find_node
find_node-append [] more path d h = cc
find_node-append (e ∷ devs) more path d h =
    go (same e.sys_fs_node path) refl (λ k. find_node-append devs more path d k)
  where
    go :
        (b : Bool)
        → same e.sys_fs_node path ≡ b
        → (find_node devs path ≡ some d → find_node (devs ++ more) path ≡ some d)
        → find_node ((e ∷ devs) ++ more) path ≡ some d
    go true k again = rw k (sym (rw k refl) ∙ h)
    go false k again = rw k (again (sym (rw k refl) ∙ h))

find_node-last :
    (devs : List Device) (d : Device)
    → (e : Device) × (find_node (devs ++ d ∷ []) d.sys_fs_node ≡ some e)
unfolding find_node
find_node-last [] d = (d, rw (same_refl d.sys_fs_node) refl)
find_node-last (e ∷ devs) d = elim (Bool-cases (same e.sys_fs_node d.sys_fs_node)) [
  | inl k ↦ (e, rw k refl)
  | inr k ↦ let (f, h) = find_node-last devs d in (f, rw k h)
]

IsKnown-append :
    (devs more : List Device) (path : Bytes) → IsKnown devs path → IsKnown (devs ++ more) path
IsKnown-append devs more path (inl h) = inl h
IsKnown-append devs more path (inr (d, h)) = inr (d, find_node-append devs more path d h)

-- The vector behind a walk: it is closed, and knows what it knew.
abbrev Extends : List Device → List Device → Type 0
Extends devs res = IsClosed res × ((path : Bytes) → IsKnown devs path → IsKnown res path)

closed-append :
    (devs more all : List Device)
    → All (λ d. IsKnown all d.parent) devs
    → ((path : Bytes) → IsKnown all path → IsKnown more path)
    → All (λ d. IsKnown more d.parent) devs
closed-append [] more all h k = tt
closed-append (d ∷ devs) more all (h, hs) k = (k d.parent h, closed-append devs more all hs k)

-- The path that is the parent of what is found.
abbrev parent_path : Bytes → Bytes
parent_path parent = if same parent [] then codes "/sys/devices" else parent

-- A vector of a branch.
if-Extends :
    (devs x y : List Device) (b : Bool)
    → Extends devs x
    → Extends devs y
    → Extends devs (if b then x else y)
if-Extends devs x y true h k = h
if-Extends devs x y false h k = k

then-Extends : (devs mid res : List Device) → Extends devs mid → Extends mid res → Extends devs res
then-Extends devs mid res (c, k) (c', k') = (c', λ path h. k' path (k path h))

same-Extends : (devs : List Device) → IsClosed devs → Extends devs devs
same-Extends devs c = (c, λ path h. h)

full-path : (dir name : Bytes) → same (dir ++ b'/' ∷ name) [] ≡ false
unfolding same
full-path [] name = refl
full-path (c ∷ cs) name = refl

module _ (matches : Bytes → Bytes → Bool) (links : Bytes → Links) where
  abbrev details : Bytes → Bytes → Device
  details parent path = get_initial_details matches (links path) parent path

  details-parent : (parent path : Bytes) → (details parent path).parent ≡ parent_path parent
  unfolding get_initial_details
  details-parent parent path = refl

  details-node : (parent path : Bytes) → (details parent path).sys_fs_node ≡ path
  unfolding get_initial_details
  details-node parent path = refl

  pushed-Extends :
      (devs : List Device) (parent path : Bytes)
      → IsKnown devs (parent_path parent)
      → IsClosed devs
      → Extends devs (devs ++ details parent path ∷ [])
  pushed-Extends devs parent path h c =
      let more = devs ++ details parent path ∷ [] in
      let grows : (q : Bytes) → IsKnown devs q → IsKnown more q =
        λ q. IsKnown-append devs (details parent path ∷ []) q in
      (
        All-append (λ d. IsKnown more d.parent) devs (details parent path ∷ [])
            (closed-append devs more devs c grows)
            (
              subst (IsKnown more) (sym (details-parent parent path))
                  (grows (parent_path parent) h),
              tt,
            ),
        grows,
      )

  pushed-IsKnown :
      (devs : List Device) (parent path : Bytes)
      → same path [] ≡ false
      → IsKnown (devs ++ details parent path ∷ []) (parent_path path)
  pushed-IsKnown devs parent path n =
      let (d, h) = find_node-last devs (details parent path) in
      let at : find_node (devs ++ details parent path ∷ []) path ≡ some d =
        ap (find_node (devs ++ details parent path ∷ [])) (sym (details-node parent path)) ∙ h in
      rw n (inr (d, at))

  -- What is found extends a closed vector, and it stays closed, if the parent is in it.
  pub find_devices-Extends :
      (parent dir : Bytes) (forest : Forest Entry) (devs : List Device)
      → IsKnown devs (parent_path parent)
      → IsClosed devs
      → Extends devs (find_devices matches links parent dir forest devs)
  unfolding find_devices
  find_devices-Extends parent dir nil devs h c = same-Extends devs c
  find_devices-Extends parent dir (tree e inner next) devs h c =
      let path = dir ++ b'/' ∷ e.name in
      let more = devs ++ details parent path ∷ [] in
      let p = pushed-Extends devs parent path h c in
      let found =
        find_devices-Extends path path inner more
          (pushed-IsKnown devs parent path (full-path dir e.name)) p.0 in
      let below = if-Extends devs devs _ (not e.is_dir) (same-Extends devs c) (
        if-Extends devs _ _ (is_new_device parent e)
          (then-Extends devs more (find_devices matches links path path inner more) p found)
          (if-Extends devs _ devs (filter_device_path devs parent e.name)
            (find_devices-Extends parent path inner devs h c) (same-Extends devs c))) in
      then-Extends devs _ _ below
        (find_devices-Extends parent dir next _ (below.1 (parent_path parent) h) below.0)

  find_device_paths-Extends :
      (forest : Forest Entry) (devs : List Device)
      → IsKnown devs (codes "/sys/devices")
      → IsClosed devs
      → Extends devs (find_device_paths matches links forest devs)
  unfolding find_device_paths
  find_device_paths-Extends nil devs r c = same-Extends devs c
  find_device_paths-Extends (tree e inner next) devs r c =
      let first =
        if-Extends devs _ devs (filter_device_path devs [] e.name && e.is_dir)
          (find_devices-Extends [] (codes "/sys/devices/" ++ e.name) inner devs below_root c)
          (same-Extends devs c) in
      then-Extends devs _ _ first
        (find_device_paths-Extends next _ (first.1 (codes "/sys/devices") r) first.0)
    where
      below_root : IsKnown devs (parent_path [])
      below_root = rw (same_refl []) r

  -- If the vector has a device at /sys/devices, and the parents of its devices, where they have one,
  -- then the vector behind the walk has the parents of its devices too.
  pub find_device_paths-IsClosed :
      (forest : Forest Entry) (devs : List Device)
      → IsKnown devs (codes "/sys/devices")
      → IsClosed devs
      → IsClosed (find_device_paths matches links forest devs)
  find_device_paths-IsClosed forest devs r c = (find_device_paths-Extends forest devs r c).0
