-- ===== src/Gatherer/Fuel.antt =====
-- `buildTree` calls itself at most once for each device.
use lsvpd.Base.{
  ℕ, zero, suc, ◌≤◌, List, [], ◌∷◌, ◌++◌, ◌≡◌, refl, arith, Option, none, some, Bytes, length,
  length-append,
}
use lsvpd.Gatherer.{Forest, nodes, BuildResult, built, thrown, take_device, build_tree}
use lsvpd.Gatherer.Build.{take_device-Perm, build_tree-Perm}
use lsvpd.Gatherer.Complete.{length-Perm}

module _ {ℓ} {C : Type ℓ} (id : C → Bytes) (children : C → List Bytes) where
  build_tree-shorter :
      (fuel : ℕ) (kids : List Bytes) (devs : List C) (forest : Forest C) (rest : List C)
      → build_tree id children fuel kids devs ≡ built forest rest
      → length rest ≤ length devs
  build_tree-shorter fuel kids devs forest rest h =
      let (_, p) = build_tree-Perm id children fuel kids devs forest rest h in
      omega (arith, length-Perm devs (nodes forest ++ rest) p, length-append (nodes forest) rest)

  -- Any two bounds that are at least the number of devices give the same result, exceptions
  -- included.
  pub build_tree-fuel :
      (f g : ℕ) (kids : List Bytes) (devs : List C)
      → length devs ≤ f
      → length devs ≤ g
      → build_tree id children f kids devs ≡ build_tree id children g kids devs
  unfolding build_tree
  build_tree-fuel zero zero kids devs hf hg = refl
  build_tree-fuel zero (suc g) [] devs hf hg = refl
  build_tree-fuel zero (suc g) (kid ∷ kids) [] hf hg = unfold take_device in refl
  build_tree-fuel zero (suc g) (kid ∷ kids) (d ∷ devs) hf hg = absurd (omega arith)
  build_tree-fuel (suc f) zero [] devs hf hg = refl
  build_tree-fuel (suc f) zero (kid ∷ kids) [] hf hg = unfold take_device in refl
  build_tree-fuel (suc f) zero (kid ∷ kids) (d ∷ devs) hf hg = absurd (omega arith)
  build_tree-fuel (suc f) (suc g) [] devs hf hg = refl
  build_tree-fuel (suc f) (suc g) (kid ∷ kids) devs hf hg =
      at_take (take_device id kid devs) refl
        (λ c taken below. build_tree-fuel f g (children c) taken (omega arith) (omega arith))
        (λ middle below. build_tree-fuel (suc f) (suc g) kids middle (omega arith) (omega arith))
    where
      at_leaves :
          (c : C) (taken : List C)
          → take_device id kid devs ≡ some (c, taken)
          → build_tree id children f (children c) taken
            ≡ build_tree id children g (children c) taken
          → ((middle : List C)
              → length middle ≤ length devs
              → build_tree id children (suc f) kids middle
                ≡ build_tree id children (suc g) kids middle)
          → (o : BuildResult C) → build_tree id children f (children c) taken ≡ o
          → build_tree id children (suc f) (kid ∷ kids) devs
            ≡ build_tree id children (suc g) (kid ∷ kids) devs
      at_leaves c taken t same_leaves same_next (thrown k) e = ground (arith, t, e, same_leaves)
      at_leaves c taken t same_leaves same_next (built leaves middle) e =
          let (_, p, l) = take_device-Perm id kid devs c taken t in
          let short = build_tree-shorter f (children c) taken leaves middle e in
          ground (arith, t, e, same_leaves, same_next middle (omega (arith, l, short)))

      at_take :
          (o : Option (C × List C))
          → take_device id kid devs ≡ o
          → ((c : C) (taken : List C)
              → length devs ≡ suc (length taken)
              → build_tree id children f (children c) taken
                ≡ build_tree id children g (children c) taken)
          → ((middle : List C)
              → length middle ≤ length devs
              → build_tree id children (suc f) kids middle
                ≡ build_tree id children (suc g) kids middle)
          → build_tree id children (suc f) (kid ∷ kids) devs
            ≡ build_tree id children (suc g) (kid ∷ kids) devs
      at_take none t same_leaves same_next = ground (arith, t)
      at_take (some (c, taken)) t same_leaves same_next =
          let (_, p, l) = take_device-Perm id kid devs c taken t in
          at_leaves c taken t (same_leaves c taken l) same_next
            (build_tree id children f (children c) taken) refl
