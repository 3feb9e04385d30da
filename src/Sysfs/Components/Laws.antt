-- ===== src/Sysfs/Components/Laws.antt =====
-- No device is without its parent when the devices are linked.
use mathlib.Core.Path.{subst}
use lsvpd.Base.{
  ℕ, zero, suc, Bool, true, false, List, [], ◌∷◌, ◌++◌, ◌≡◌, inl, inr, refl, sym, ap, ◌∙◌, Option,
  none, some, Bytes, codes, same, is_nil, All, Bool-cases,
}
use lsvpd.Gatherer.{Forest}
use lsvpd.Sysfs.{Device, find_node, basename}
use lsvpd.Sysfs.Details.{Links}
use lsvpd.Sysfs.Walk.{Entry, find_device_paths}
use lsvpd.Sysfs.Walk.Laws.{IsKnown, IsClosed, find_device_paths-IsClosed}
use lsvpd.Sysfs.Components.{
  Beside, Message, no_parent, change_at, change_place, device_at, with_name, with_child,
  set_kernel_name, link_parent, link_target, link_found, link_devices,
}

-- The same paths and parents, in the same order
abbrev IsKept : List Device → List Device → Type 0
IsKept [] [] = Unit
IsKept [] (e ∷ es) = ⊥
IsKept (d ∷ ds) [] = ⊥
IsKept (d ∷ ds) (e ∷ es) = (e.sys_fs_node ≡ d.sys_fs_node) × (e.parent ≡ d.parent) × IsKept ds es

same-IsKept : (ds : List Device) → IsKept ds ds
same-IsKept [] = tt
same-IsKept (d ∷ ds) = (refl, refl, same-IsKept ds)

IsKept-find_node :
    (ds es : List Device) (path : Bytes) (d : Device)
    → IsKept ds es
    → find_node ds path ≡ some d
    → (e : Device) × (find_node es path ≡ some e)
unfolding find_node
IsKept-find_node [] [] path d k h = (d, h)
IsKept-find_node [] (e ∷ es) path d k h = absurd k
IsKept-find_node (c ∷ ds) [] path d k h = absurd k
IsKept-find_node (c ∷ ds) (e ∷ es) path d (n, _, k) h =
    go (same c.sys_fs_node path) refl (IsKept-find_node ds es path d k)
  where
    go :
        (b : Bool)
        → same c.sys_fs_node path ≡ b
        → (find_node ds path ≡ some d → (f : Device) × (find_node es path ≡ some f))
        → (f : Device) × (find_node (e ∷ es) path ≡ some f)
    go true s again = (e, rw (ap (λ t. same t path) n ∙ s) refl)
    go false s again =
        let (f, l) = again (sym (rw s refl) ∙ h) in (f, rw (ap (λ t. same t path) n ∙ s) l)

kept-IsKnown :
    (ds es : List Device) (path : Bytes) → IsKept ds es → IsKnown ds path → IsKnown es path
kept-IsKnown ds es path k (inl h) = inl h
kept-IsKnown ds es path k (inr (d, h)) = inr (IsKept-find_node ds es path d k h)

All-kept :
    (P : Bytes → Type 0) (ds es : List Device)
    → IsKept ds es
    → All (λ d. P d.parent) ds
    → All (λ d. P d.parent) es
All-kept P [] [] k h = tt
All-kept P [] (e ∷ es) k h = absurd k
All-kept P (d ∷ ds) [] k h = absurd k
All-kept P (d ∷ ds) (e ∷ es) (_, p, k) (h, hs) = (subst P (sym p) h, All-kept P ds es k hs)

All-map :
    (P Q : Bytes → Type 0) (ds : List Device)
    → ((path : Bytes) → P path → Q path)
    → All (λ d. P d.parent) ds
    → All (λ d. Q d.parent) ds
All-map P Q [] f h = tt
All-map P Q (d ∷ ds) f (h, hs) = (f d.parent h, All-map P Q ds f hs)

kept-IsClosed : (ds es : List Device) → IsKept ds es → IsClosed ds → IsClosed es
kept-IsClosed ds es k h =
    All-map (IsKnown ds) (IsKnown es) es (λ path. kept-IsKnown ds es path k)
      (All-kept (IsKnown ds) ds es k h)

IsKept-trans : (ds es fs : List Device) → IsKept ds es → IsKept es fs → IsKept ds fs
IsKept-trans [] [] [] k l = tt
IsKept-trans (d ∷ ds) (e ∷ es) (f ∷ fs) (n, p, k) (n', p', l) =
    (n' ∙ n, p' ∙ p, IsKept-trans ds es fs k l)
IsKept-trans [] [] (f ∷ fs) k l = l
IsKept-trans [] (e ∷ es) fs k l = absurd k
IsKept-trans (d ∷ ds) [] fs k l = absurd k
IsKept-trans (d ∷ ds) (e ∷ es) [] k l = absurd l

-- A change that keeps the path and the parent of a device
abbrev Keeps : (Device → Device) → Type 0
Keeps change =
    (d : Device) → ((change d).sys_fs_node ≡ d.sys_fs_node) × ((change d).parent ≡ d.parent)

change_at-IsKept :
    (path : Bytes) (change : Device → Device) (ds : List Device)
    → Keeps change
    → IsKept ds (change_at path change ds)
unfolding change_at
change_at-IsKept path change [] k = tt
change_at-IsKept path change (d ∷ ds) k = elim (Bool-cases (same d.sys_fs_node path)) [
  | inl s ↦ rw s ((k d).0, (k d).1, same-IsKept ds)
  | inr s ↦ rw s (refl, refl, change_at-IsKept path change ds k)
]

change_place-IsKept :
    (i : ℕ) (change : Device → Device) (ds : List Device)
    → Keeps change
    → IsKept ds (change_place i change ds)
unfolding change_place
change_place-IsKept i change [] k = tt
change_place-IsKept zero change (d ∷ ds) k = ((k d).0, (k d).1, same-IsKept ds)
change_place-IsKept (suc i) change (d ∷ ds) k = (refl, refl, change_place-IsKept i change ds k)

-- Of the device at a place, if there is one
abbrev OnParent : (Bytes → Type 0) → Option Device → Type 0
OnParent P none = Unit
OnParent P (some d) = P d.parent

device_at-OnParent :
    (P : Bytes → Type 0) (i : ℕ) (ds : List Device)
    → All (λ e. P e.parent) ds
    → OnParent P (device_at i ds)
device_at-OnParent P i [] a = tt
device_at-OnParent P zero (e ∷ ds) a = a.0
device_at-OnParent P (suc i) (e ∷ ds) a = device_at-OnParent P i ds a.1

append-empty : {A : Type 0} → (a b : List A) → a ≡ [] → b ≡ [] → a ++ b ≡ []
append-empty a b h k = rw (h, k) refl

true-ne-false : true ≡ false → ⊥
true-ne-false h = absurd cc

-- The vector is kept, and nothing is said.
abbrev Linked : List Device → List Device × List Message → Type 0
Linked devs res = IsKept devs res.0 × (res.1 ≡ [])

module _ (add_name : Bytes → ℕ → List Bytes → List Bytes)
    (add_child : Bytes → List Bytes → List Bytes) (exists : Bytes → Bool)
    (beside : Bytes → Beside) where
  set_kernel_name-Keeps : Keeps (set_kernel_name add_name add_child exists beside)
  unfolding set_kernel_name
  set_kernel_name-Keeps d = go (beside d.sys_fs_node).entries refl
    where
      go :
          (o : Option (List Bytes))
          → (beside d.sys_fs_node).entries ≡ o
          → ((set_kernel_name add_name add_child exists beside d).sys_fs_node ≡ d.sys_fs_node)
            × ((set_kernel_name add_name add_child exists beside d).parent ≡ d.parent)
      go none k = rw (set_kernel_name, k) (refl, refl)
      go (some entries) k = rw (set_kernel_name, k) (refl, refl)

  link_target-IsKept :
      (d : Device) (devs : List Device)
      → IsKept devs (link_target add_name add_child exists beside d devs)
  unfolding link_target
  link_target-IsKept d devs = go (beside d.sys_fs_node).target
    where
      go :
          (o : Option Bytes)
          → IsKept devs (elim o [
            | none ↦ devs
            | some path ↦
                change_at path
                  (with_name add_name add_child exists beside (basename d.sys_fs_node))
                  devs
          ])
      go none = same-IsKept devs
      go (some path) = change_at-IsKept path _ devs (λ e. (refl, refl))

  link_parent-Linked :
      (d : Device) (devs : List Device)
      → IsKnown devs d.parent
      → Linked devs (link_parent add_name add_child exists beside d devs)
  link_parent-Linked d devs h = elim (Bool-cases (is_nil d.parent)) [
    | inl k ↦ rw k (same-IsKept devs, refl)
    | inr k ↦ rw k (go (find_node devs d.parent) refl (found k h))
  ]
    where
      found :
          is_nil d.parent ≡ false
          → IsKnown devs d.parent
          → (e : Device) × (find_node devs d.parent ≡ some e)
      found k (inl r) = absurd (true-ne-false (sym (ap is_nil r) ∙ k))
      found k (inr r) = r

      go :
          (o : Option Device)
          → find_node devs d.parent ≡ o
          → ((e : Device) × (find_node devs d.parent ≡ some e))
          → Linked devs (elim o [
            | none ↦ (devs, no_parent d.parent d.sys_fs_node ∷ [])
            | some _ ↦ (
              change_at d.parent (with_child add_name add_child exists beside d.sys_fs_node) devs,
              [],
            )
          ])
      go none k (e, r) = absurd cc
      go (some e) k r = (change_at-IsKept d.parent _ devs (λ f. (refl, refl)), refl)

  link_found-Linked :
      (i : ℕ) (o : Option Device) (devs : List Device)
      → OnParent (IsKnown devs) o
      → Linked devs (link_found add_name add_child exists beside i o devs)
  link_found-Linked i none devs h = (same-IsKept devs, refl)
  link_found-Linked i (some d) devs h =
      let change = set_kernel_name add_name add_child exists beside in
      let named = change_place i change devs in
      let k = change_place-IsKept i change devs set_kernel_name-Keeps in
      let (l, m) = link_parent-Linked d named (kept-IsKnown devs named d.parent k h) in
      let linked = (link_parent add_name add_child exists beside d named).0 in
      (
        IsKept-trans devs linked _ (IsKept-trans devs named linked k l)
            (link_target-IsKept d linked),
        m,
      )

  link_devices-Linked :
      (i : ℕ) (devs : List Device)
      → IsClosed devs
      → Linked devs (link_devices add_name add_child exists beside i devs)
  unfolding link_devices
  link_devices-Linked zero devs c = (same-IsKept devs, refl)
  link_devices-Linked (suc i) devs c =
      let (k, m) =
        link_found-Linked i (device_at i devs) devs (device_at-OnParent (IsKnown devs) i devs c) in
      let first = link_found add_name add_child exists beside i (device_at i devs) devs in
      let (l, n) = link_devices-Linked i first.0 (kept-IsClosed devs first.0 k c) in
      (IsKept-trans devs first.0 _ k l, append-empty first.1 _ m n)

  -- If the vector has a device at /sys/devices, and the parents of its devices, then no device of
  -- the vector behind the walk is said to have no parent when the devices are linked.
  pub link_devices-all :
      (matches : Bytes → Bytes → Bool) (links : Bytes → Links) (forest : Forest Entry)
      (devs : List Device) (i : ℕ)
      → IsKnown devs (codes "/sys/devices")
      → IsClosed devs
      → (link_devices add_name add_child exists beside i
          (find_device_paths matches links forest devs)).1
        ≡ []
  link_devices-all matches links forest devs i r c =
      (link_devices-Linked i (find_device_paths matches links forest devs)
        (find_device_paths-IsClosed matches links forest devs r c)).1
