-- ===== src/Gatherer.antt =====
-- The gatherer (src/internal/sys_interface/gatherer.cpp): the components that the collectors found
-- become one tree. `Component` is a class of libvpd; the code reads the id (`idNode.dataValue`) and
-- the ids of the children (`getChildren()`) of one, which are parameters, and `addLeaf` appends to
-- the leaves of a parent, which are the inner forest of a `tree`.
pub mod Build
pub mod Complete
pub mod Collect
pub mod Fuel
use lsvpd.Base.{
  ℕ, zero, suc, Bool, true, false, List, [], ◌∷◌, ◌++◌, Option, none, some, if◌then◌else◌, Bytes,
  same, length,
}

-- The leaves of one component: a component with its own leaves, and its later siblings.
pub data Forest {ℓ} (C : Type ℓ) : Type ℓ where
  nil : Forest C
  tree : C → Forest C → Forest C → Forest C

-- The components of a forest, each before its leaves.
abbrev pub nodes {ℓ} : {C : Type ℓ} → Forest C → List C
nodes nil = []
nodes (tree c leaves next) = c ∷ (nodes leaves ++ nodes next)

-- `built` with what is left in `devs`, or the exception for an id that `devs` does not hold.
pub data BuildResult {ℓ} (C : Type ℓ) : Type ℓ where
  built : Forest C → List C → BuildResult C
  thrown : Bytes → BuildResult C

module _ {ℓ} {C : Type ℓ} (id : C → Bytes) where
  abbrev skipped : C → Option (C × List C) → Option (C × List C)
  skipped d none = none
  skipped d (some (c, rest)) = some (c, d ∷ rest)

  -- The inner loop: the first device with the id, and `devs` with it erased.
  unfoldable pub take_device : Bytes → List C → Option (C × List C)
  take_device kid [] = none
  take_device kid (d ∷ devs) =
      if same (id d) kid then some (d, devs) else skipped d (take_device kid devs)

  -- `findComponent`
  unfoldable pub find_component : List C → Bytes → Option C
  find_component [] kid = none
  find_component (d ∷ devs) kid = if same (id d) kid then some d else find_component devs kid

  module _ (children : C → List Bytes) where
    -- `buildTree`: the outer loop over the ids of the children that are left. Each call takes a
    -- device away, so there are at most as many calls inside one another as there are devices.
    unfoldable pub build_tree : ℕ → List Bytes → List C → BuildResult C
    build_tree fuel [] devs = built nil devs
    build_tree zero (kid ∷ kids) devs = thrown kid
    build_tree (suc fuel) (kid ∷ kids) devs = elim (take_device kid devs) [
      | none ↦ thrown kid
      | some (c, rest) ↦ elim (build_tree fuel (children c) rest) [
        | thrown missing ↦ thrown missing
        | built leaves rest' ↦ elim (build_tree (suc fuel) kids rest') [
          | thrown missing ↦ thrown missing
          | built next rest'' ↦ built (tree c leaves next) rest''
        ]
      ]
    ]

-- `fillTree`: which collector fills which component, in order.
unfoldable pub fill_one {ℓ κ} : {S : Type κ} {C : Type ℓ} → List S → C → List (S × C)
fill_one [] c = []
fill_one (s ∷ sources) c = (s, c) ∷ fill_one sources c

unfoldable pub fill_tree {ℓ κ} : {S : Type κ} {C : Type ℓ} → List S → Forest C → List (S × C)
fill_tree sources nil = []
fill_tree sources (tree c leaves next) =
    fill_one sources c ++ (fill_tree sources leaves ++ fill_tree sources next)
