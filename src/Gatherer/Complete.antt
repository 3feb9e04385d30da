-- ===== src/Gatherer/Complete.antt =====
-- When `buildTree` succeeds, and that the bound on its calls is never met. No two components share
-- an id here.
use mathlib.Core.Path.{subst}
use mathlib.Core.Logic.Or
use mathlib.Core.List
use mathlib.Core.List.{Perm, Mem, mem-cons, mem-cons_self, not-mem-nil}
use mathlib.Core.List.Perm
use mathlib.Core.HLevel.{⊥_prop}
use native.Mathlib.Bridge.{from_ℕ}
use lsvpd.Base.{
  ℕ, zero, suc, ◌≤◌, false, List, [], ◌∷◌, ◌++◌, ◌≡◌, inl, inr, refl, sym, ap, ◌∙◌, arith, Option,
  none, some, Bytes, same, same_refl, length, append_assoc, length-append, Bool-cases,
}
use lsvpd.Gatherer.{Forest, nil, tree, nodes, built, skipped, take_device, build_tree}
use lsvpd.Gatherer.Build.{take_device-Perm, Follows, build_tree-step}

length_lem {ℓ} : {A : Type ℓ} (xs : List A) → length xs ≡ from_ℕ (List.length xs)
length_lem [] = refl
length_lem (x ∷ xs) = ap suc (length_lem xs)

pub length-Perm {ℓ} : {A : Type ℓ} (xs ys : List A) → Perm xs ys → length xs ≡ length ys
length-Perm xs ys p = length_lem xs ∙ ap from_ℕ (Perm.length-eq p) ∙ sym (length_lem ys)

module _ {ℓ} {C : Type ℓ} (id : C → Bytes) where
  take_device-none : (devs : List C) (c : C) → take_device id (id c) devs ≡ none → Mem c devs → ⊥
  unfolding take_device
  take_device-none [] c h m = not-mem-nil m
  take_device-none (d ∷ devs) c h m = elim (Bool-cases (same (id d) (id c))) [
    | inl here ↦ ground (arith, here, h)
    | inr later ↦
        Or.elim ⊥_prop (mem-cons.0 m) (λ e. absurd (differs d c e later))
          (take_device-none devs c
            (not_skipped d (take_device id (id c) devs) (ground (arith, later, h))))
  ]
    where
      differs : (d c : C) → c ≡ d → same (id d) (id c) ≡ false → ⊥
      differs d c e later = cc (same_refl (id c), ap (λ (x : C). same (id x) (id c)) e)

      not_skipped : (d : C) (o : Option (C × List C)) → skipped id d o ≡ none → o ≡ none
      not_skipped d none e = refl
      not_skipped d (some (x, xs)) e = cc

  module _ (distinct : (a b : C) → id a ≡ id b → a ≡ b) where
    -- A device that is there is taken, and the others stay.
    take_device-found :
        (devs : List C) (c : C) (others : List C)
        → Perm devs (c ∷ others)
        → (rest : List C) × (take_device id (id c) devs ≡ some (c, rest))
          × Perm rest others
          × (length devs ≡ suc (length rest))
    take_device-found devs c others p = go (take_device id (id c) devs) refl
      where
        go :
            (o : Option (C × List C))
            → take_device id (id c) devs ≡ o
            → (rest : List C) × (take_device id (id c) devs ≡ some (c, rest))
              × Perm rest others
              × (length devs ≡ suc (length rest))
        go none e = absurd (take_device-none devs c e ((Perm.mem_iff p).1 mem-cons_self))
        go (some (d, rest)) e =
            let (i, q, l) = take_device-Perm id (id c) devs d rest e in
            let d≡c : d ≡ c = distinct d c i in
            (
              rest,
              e ∙ ap (λ (x : C). some (x, rest)) d≡c,
              Perm.cons_inv (Perm.trans (Perm.symm (subst (λ x. Perm devs (x ∷ rest)) d≡c q)) p),
              l,
            )

    module _ (children : C → List Bytes) where
      -- If the devices are those of a forest that follows the ids of the children, and others,
      -- then that forest is built, and the others are left over.
      pub build_tree_complete :
          (fuel : ℕ) (kids : List Bytes) (forest : Forest C) (devs others : List C)
          → Follows id children kids forest
          → Perm devs (nodes forest ++ others)
          → length devs ≤ fuel
          → (rest : List C) × (build_tree id children fuel kids devs ≡ built forest rest)
            × Perm rest others
      build_tree_complete zero [] nil devs others f p h = (devs, unfold build_tree in refl, p)
      build_tree_complete (suc fuel) [] nil devs others f p h = (devs, unfold build_tree in refl, p)
      build_tree_complete fuel [] (tree c leaves next) devs others f p h = absurd f
      build_tree_complete fuel (kid ∷ kids) nil devs others f p h = absurd f
      build_tree_complete zero (kid ∷ kids) (tree c leaves next) devs others f p h =
          absurd (omega (arith, length-Perm devs (c ∷ ((nodes leaves ++ nodes next) ++ others)) p))
      build_tree_complete (suc fuel) (kid ∷ kids) (tree c leaves next) devs others (i, fl, fn) p h =
          let (taken, t, q, l) =
            take_device-found devs c ((nodes leaves ++ nodes next) ++ others) p in
          let q' =
            subst (λ xs. Perm taken xs) (append_assoc (nodes leaves) (nodes next) others) q in
          let (middle, bl, pl) =
            build_tree_complete fuel (children c) leaves taken (nodes next ++ others) fl q'
              (omega arith) in
          let short : length middle ≤ suc fuel = omega (
            arith,
            length-Perm taken (nodes leaves ++ (nodes next ++ others)) q',
            length-Perm middle (nodes next ++ others) pl,
            length-append (nodes leaves) (nodes next ++ others),
          ) in
          let (rest, bn, pn) = build_tree_complete (suc fuel) kids next middle others fn pl short in
          (
            rest,
            build_tree-step id children fuel kid kids devs c taken leaves middle next rest
                (sym (ap (λ (k : Bytes). take_device id k devs) i) ∙ t) bl bn,
            pn,
          )
