-- ===== src/Gatherer/Build.antt =====
-- What `buildTree` builds.
use mathlib.Core.List.{Perm}
use mathlib.Core.List.Perm
use mathlib.Core.Path.{subst, subst₂}
use lsvpd.Base.{
  ℕ, zero, suc, false, List, [], ◌∷◌, ◌++◌, ◌≡◌, inl, inr, refl, sym, ap, ◌∙◌, arith, Option, none,
  some, Bytes, same, same_iff, length, append_assoc, Bool-cases,
}
use lsvpd.Gatherer.{Forest, nil, tree, nodes, BuildResult, built, thrown, take_device, build_tree}

module _ {ℓ} {C : Type ℓ} (id : C → Bytes) where
  -- The device that is taken has the id, and the others stay.
  pub take_device-Perm :
      (kid : Bytes) (devs : List C) (c : C) (rest : List C)
      → take_device id kid devs ≡ some (c, rest)
      → (id c ≡ kid) × Perm devs (c ∷ rest) × (length devs ≡ suc (length rest))
  unfolding take_device
  take_device-Perm kid [] c rest h = cc
  take_device-Perm kid (d ∷ devs) c rest h = elim (Bool-cases (same (id d) kid)) [
    | inl here ↦
        let p : d ≡ c = ground (arith, here, h) in
        let q : devs ≡ rest = ground (arith, here, h) in
        (
          sym (ap id p) ∙ (same_iff (id d) kid).0 here,
          subst₂ (λ x xs. Perm (d ∷ devs) (x ∷ xs)) p q (Perm.refl (d ∷ devs)),
          rw q refl,
        )
    | inr later ↦ go (take_device-Perm kid devs) (take_device id kid devs) refl later
  ]
    where
      go :
          ((c' : C) (rest' : List C)
            → take_device id kid devs ≡ some (c', rest')
            → (id c' ≡ kid) × Perm devs (c' ∷ rest') × (length devs ≡ suc (length rest')))
          → (o : Option (C × List C)) → take_device id kid devs ≡ o
          → same (id d) kid ≡ false
          → (id c ≡ kid) × Perm (d ∷ devs) (c ∷ rest) × (length (d ∷ devs) ≡ suc (length rest))
      go ih none e later = ground (arith, e, later, h)
      go ih (some (c', rest')) e later =
          let (i, p, l) = ih c' rest' e in
          let x : c' ≡ c = ground (arith, e, later, h) in
          let y : d ∷ rest' ≡ rest = ground (arith, e, later, h) in
          (
            sym (ap id x) ∙ i,
            subst₂ (λ z zs. Perm (d ∷ devs) (z ∷ zs)) x y
                (Perm.trans (Perm.cons d p) (Perm.swap c' d rest')),
            rw (← y) (omega (arith, l)),
          )

  module _ (children : C → List Bytes) where
    -- The leaves are the components with the ids of the list, in order, at every level.
    abbrev pub Follows : List Bytes → Forest C → Type 0
    Follows [] nil = Unit
    Follows (kid ∷ kids) (tree c leaves next) =
        (id c ≡ kid) × Follows (children c) leaves × Follows kids next
    Follows _ _ = ⊥

    -- The parts of one round that succeeds.
    abbrev Round : ℕ → Bytes → List Bytes → List C → Forest C → List C → Type ℓ
    Round fuel kid kids devs forest rest =
        (c : C) × (taken : List C) × (leaves : Forest C) × (middle : List C) × (next : Forest C)
        × (take_device id kid devs ≡ some (c, taken))
        × (build_tree id children fuel (children c) taken ≡ built leaves middle)
        × (build_tree id children (suc fuel) kids middle ≡ built next rest)
        × (tree c leaves next ≡ forest)

    -- A round is made of a device, its leaves and its later siblings.
    pub build_tree-step :
        (fuel : ℕ) (kid : Bytes) (kids : List Bytes) (devs : List C) (c : C) (taken : List C)
        (leaves : Forest C) (middle : List C) (next : Forest C) (rest : List C)
        → take_device id kid devs ≡ some (c, taken)
        → build_tree id children fuel (children c) taken ≡ built leaves middle
        → build_tree id children (suc fuel) kids middle ≡ built next rest
        → build_tree id children (suc fuel) (kid ∷ kids) devs ≡ built (tree c leaves next) rest
    unfolding build_tree
    build_tree-step fuel kid kids devs c taken leaves middle next rest t l n =
        ground (arith, t, l, n)

    build_tree-Round :
        (fuel : ℕ) (kid : Bytes) (kids : List Bytes) (devs : List C) (forest : Forest C)
        (rest : List C)
        → build_tree id children (suc fuel) (kid ∷ kids) devs ≡ built forest rest
        → Round fuel kid kids devs forest rest
    unfolding build_tree
    build_tree-Round fuel kid kids devs forest rest h = at_take (take_device id kid devs) refl
      where
        at_next :
            (c : C) (taken : List C) (leaves : Forest C) (middle : List C)
            → take_device id kid devs ≡ some (c, taken)
            → build_tree id children fuel (children c) taken ≡ built leaves middle
            → (o : BuildResult C) → build_tree id children (suc fuel) kids middle ≡ o
            → Round fuel kid kids devs forest rest
        at_next c taken leaves middle t l (thrown k) e = ground (arith, t, l, e, h)
        at_next c taken leaves middle t l (built next rest') e = (
          c,
          taken,
          leaves,
          middle,
          next,
          t,
          l,
          ground (arith, t, l, e, h),
          ground (arith, t, l, e, h),
        )

        at_leaves :
            (c : C) (taken : List C)
            → take_device id kid devs ≡ some (c, taken)
            → (o : BuildResult C) → build_tree id children fuel (children c) taken ≡ o
            → Round fuel kid kids devs forest rest
        at_leaves c taken t (thrown k) e = ground (arith, t, e, h)
        at_leaves c taken t (built leaves middle) e =
            at_next c taken leaves middle t e (build_tree id children (suc fuel) kids middle) refl

        at_take :
            (o : Option (C × List C))
            → take_device id kid devs ≡ o
            → Round fuel kid kids devs forest rest
        at_take none e = ground (arith, e, h)
        at_take (some (c, taken)) e =
            at_leaves c taken e (build_tree id children fuel (children c) taken) refl

    built_nil :
        (devs : List C) (forest : Forest C) (rest : List C)
        → built nil devs ≡ built forest rest
        → Follows [] forest × Perm devs (nodes forest ++ rest)
    built_nil devs forest rest h =
        let p : nil ≡ forest = cc in
        let q : devs ≡ rest = cc in
        subst₂ (λ f r. Follows [] f × Perm devs (nodes f ++ r)) p q (tt, Perm.refl devs)

    -- A tree that was built follows the lists of children, and holds each device once that is not
    -- left over.
    pub build_tree-Perm :
        (fuel : ℕ) (kids : List Bytes) (devs : List C) (forest : Forest C) (rest : List C)
        → build_tree id children fuel kids devs ≡ built forest rest
        → Follows kids forest × Perm devs (nodes forest ++ rest)
    unfolding build_tree
    build_tree-Perm zero [] devs forest rest h = built_nil devs forest rest h
    build_tree-Perm (suc fuel) [] devs forest rest h = built_nil devs forest rest h
    build_tree-Perm zero (kid ∷ kids) devs forest rest h = cc
    build_tree-Perm (suc fuel) (kid ∷ kids) devs forest rest h =
        let (c, taken, leaves, middle, next, t, l, n, e) =
          build_tree-Round fuel kid kids devs forest rest h in
        let (i, p, _) = take_device-Perm kid devs c taken t in
        let (fl, pl) = build_tree-Perm fuel (children c) taken leaves middle l in
        let (fn, pn) = build_tree-Perm (suc fuel) kids middle next rest n in
        subst (λ f. Follows (kid ∷ kids) f × Perm devs (nodes f ++ rest)) e
          (
            (i, fl, fn),
            Perm.trans p (
                Perm.cons c
                  (Perm.trans pl (rw append_assoc (Perm.append (Perm.refl (nodes leaves)) pn)))),
          )
