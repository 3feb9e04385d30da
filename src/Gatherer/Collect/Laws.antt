-- ===== src/Gatherer/Collect/Laws.antt =====
-- What `getComponentTree` returns.
use mathlib.Core.Path.{subst}
use mathlib.Core.List.{Perm}
use mathlib.Core.List.Perm
use lsvpd.Base.{
  List, [], ◌∷◌, ◌++◌, ◌≡◌, refl, ap, ◌∙◌, arith, Bytes, length, append_assoc, append-nil,
}
use lsvpd.Gatherer.{
  Forest, nil, tree, nodes, BuildResult, built, thrown, build_tree, fill_one, fill_tree,
}
use lsvpd.Gatherer.Build.{Follows, build_tree-Perm}
use lsvpd.Gatherer.Complete.{build_tree_complete}
use lsvpd.Gatherer.Collect.{
  Collector, collected, discover, fill_systems, finish, with_root, get_component_tree,
}

-- Each component in turn is filled by every collector, in the order of the collectors.
abbrev pub each_filled {ℓ κ} : {S : Type κ} {C : Type ℓ} → List S → List C → List (S × C)
each_filled sources [] = []
each_filled sources (c ∷ cs) = fill_one sources c ++ each_filled sources cs

each_filled-append {ℓ κ} :
    {S : Type κ} {C : Type ℓ} (sources : List S) (xs ys : List C)
    → each_filled sources (xs ++ ys) ≡ each_filled sources xs ++ each_filled sources ys
each_filled-append sources [] ys = refl
each_filled-append sources (x ∷ xs) ys = simp (each_filled-append sources xs ys, append_assoc)

pub fill_tree-nodes {ℓ κ} :
    {S : Type κ} {C : Type ℓ} (sources : List S) (forest : Forest C)
    → fill_tree sources forest ≡ each_filled sources (nodes forest)
unfolding fill_tree
fill_tree-nodes sources nil = refl
fill_tree-nodes sources (tree c leaves next) =
    simp (fill_tree-nodes sources leaves, fill_tree-nodes sources next, each_filled-append)

module _ {ℓ κ} {C : Type ℓ} {Sys : Type κ} (id : C → Bytes) (children : C → List Bytes) where
  -- The tree that is returned holds each discovered device once, below the component whose list of
  -- children names it, in that order; and each was filled once by every collector.
  pub get_component_tree-Perm :
      (sources : List (Collector C Sys)) (root root' : C) (devs : List C) (sys sys' : Sys)
      (kids : List Bytes) (forest : Forest C) (fills : List (Collector C Sys × C))
      (posts : List (Collector C Sys))
      → discover sources (root ∷ []) ≡ root' ∷ devs
      → get_component_tree id children sources root sys ≡ collected sys' kids forest fills posts
      → Follows id children (children root') forest
        × Perm devs (nodes forest)
        × (kids ≡ children root')
        × (fills ≡ each_filled sources (nodes forest))
        × (posts ≡ sources)
  unfolding get_component_tree
  get_component_tree-Perm sources root root' devs sys sys' kids forest fills posts d h =
      go (build_tree id children (length devs) (children root') devs) refl (rw d at h)
    where
      go :
          (o : BuildResult C)
          → build_tree id children (length devs) (children root') devs ≡ o
          → finish id children
              (fill_systems sources sys)
              (children root')
              (λ f. fill_tree sources f)
              sources
              (build_tree id children (length devs) (children root') devs)
            ≡ collected sys' kids forest fills posts
          → Follows id children (children root') forest
            × Perm devs (nodes forest)
            × (kids ≡ children root')
            × (fills ≡ each_filled sources (nodes forest))
            × (posts ≡ sources)
      go (thrown kid) e c = cc (rw e at c)
      go (built f (x ∷ xs)) e c = cc (rw e at c)
      go (built f []) e c =
          let c' = rw e at c in
          let same_forest : f ≡ forest = cc c' in
          let (follows, perm) =
            build_tree-Perm id children (length devs) (children root') devs f [] e in
          (
            subst (λ x. Follows id children (children root') x) same_forest follows,
            subst (λ x. Perm devs (nodes x)) same_forest (rw append-nil at perm),
            cc c',
            cc (
              c',
              fill_tree-nodes sources f,
              ap (λ (x : Forest C). each_filled sources (nodes x)) same_forest,
            ),
            cc c',
          )

  -- If the discovered devices are those of a forest that follows the ids of the children, and no two
  -- components share an id, that forest is returned, and no exception is thrown.
  pub get_component_tree_complete :
      (distinct : (a b : C) → id a ≡ id b → a ≡ b) (sources : List (Collector C Sys))
      (root root' : C) (devs : List C) (sys : Sys) (forest : Forest C)
      → discover sources (root ∷ []) ≡ root' ∷ devs
      → Follows id children (children root') forest
      → Perm devs (nodes forest)
      → get_component_tree id children sources root sys
        ≡ collected
            (fill_systems sources sys)
            (children root')
            forest
            (each_filled sources (nodes forest))
            sources
  unfolding get_component_tree
  get_component_tree_complete distinct sources root root' devs sys forest d follows perm =
      let (rest, b, none_left) =
        build_tree_complete id distinct children (length devs) (children root') forest devs []
          follows (rw append-nil perm) (omega arith) in
      let e : rest ≡ [] = Perm.eq-nil none_left in
      let b' = b ∙ ap (λ (r : List C). built forest r) e in
      rw (d, with_root)
        (rw (b', finish)
          (ap
            (λ (f : List (Collector C Sys × C)).
              collected (fill_systems sources sys) (children root') forest f sources)
            (fill_tree-nodes sources forest)))
