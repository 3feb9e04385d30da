-- ===== src/Gatherer/Collect.antt =====
-- The two functions `getComponentTree`. A collector (`ICollector`) is what it does to the vector of
-- devices and to the system; a `System` of libvpd is a parameter.
pub mod Laws
use lsvpd.Base.{ℕ, zero, suc, List, [], ◌∷◌, ◌++◌, Option, none, some, Bytes, length}
use lsvpd.Gatherer.{Forest, BuildResult, built, thrown, build_tree, fill_tree}

-- `getComponents` and `fillSystem`
pub record Collector {ℓ κ} (C : Type ℓ) (Sys : Type κ) : Type (ℓ ⊔ κ) where
  pub get_components : List C → List C
  pub fill_system : Sys → Sys

-- The system that is returned, with the root's children and leaves, the calls of `fillComponent`
-- in order, and the collectors whose `postProcess` is called on the root; or the exceptions, for an id that was not found and for devices that
-- are left over; or the root is missing from the vector, which the code does not expect.
pub data Collected {ℓ κ ℓ'} (C : Type ℓ) (Sys : Type κ) (S : Type ℓ') : Type (ℓ ⊔ κ ⊔ ℓ') where
  collected : Sys → List Bytes → Forest C → List (S × C) → List S → Collected C Sys S
  missing : Bytes → Collected C Sys S
  left_over : List C → Collected C Sys S
  no_root : Collected C Sys S

module _ {ℓ κ} {C : Type ℓ} {Sys : Type κ} where
  -- `getComponents` of each collector in turn, on the one vector.
  unfoldable pub discover : List (Collector C Sys) → List C → List C
  discover [] devs = devs
  discover (s ∷ sources) devs = discover sources (s.get_components devs)

  unfoldable pub fill_systems : List (Collector C Sys) → Sys → Sys
  fill_systems [] sys = sys
  fill_systems (s ∷ sources) sys = fill_systems sources (s.fill_system sys)

  unfoldable pub fill_each : Collector C Sys → List C → List (Collector C Sys × C)
  fill_each s [] = []
  fill_each s (c ∷ cs) = (s, c) ∷ fill_each s cs

  -- The calls of the second function, which fills every device before the tree is built.
  unfoldable pub fill_all : List (Collector C Sys) → List C → List (Collector C Sys × C)
  unfolding fill_each
  fill_all [] devs = []
  fill_all (s ∷ sources) devs = fill_each s devs ++ fill_all sources devs

  module _ (id : C → Bytes) (children : C → List Bytes) where
    -- The tree below the root, if no device is left over.
    pub finish :
        Sys
        → List Bytes
        → (Forest C → List (Collector C Sys × C))
        → List (Collector C Sys)
        → BuildResult C
        → Collected C Sys (Collector C Sys)
    finish sys kids fills posts (thrown kid) = missing kid
    finish sys kids fills posts (built forest []) = collected sys kids forest (fills forest) posts
    finish sys kids fills posts (built forest (d ∷ ds)) = left_over (d ∷ ds)

    pub with_root :
        Sys
        → (List C → Forest C → List (Collector C Sys × C))
        → List (Collector C Sys)
        → List C
        → Collected C Sys (Collector C Sys)
    unfolding finish
    with_root sys fills posts [] = no_root
    with_root sys fills posts (root ∷ devs) =
        finish sys (children root) (fills (root ∷ devs)) posts
          (build_tree id children (length devs) (children root) devs)

    -- `getComponentTree()`
    unfoldable pub get_component_tree :
        List (Collector C Sys) → C → Sys → Collected C Sys (Collector C Sys)
    unfolding with_root
    get_component_tree sources root sys =
        with_root (fill_systems sources sys) (λ devs forest. fill_tree sources forest) sources
          (discover sources (root ∷ []))

    -- `getComponentTree(devs)`, called with an empty vector
    unfoldable pub get_component_tree_of :
        List (Collector C Sys) → C → Sys → Collected C Sys (Collector C Sys)
    unfolding with_root
    get_component_tree_of sources root sys =
        with_root (fill_systems sources sys) (λ devs forest. fill_all sources devs) []
          (discover sources (root ∷ []))
