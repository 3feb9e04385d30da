-- ===== src/Tests/Trees.antt =====
-- The gatherer's tree and the moved descendants at concrete devices.
use mathlib.Core.List.{Perm}
use mathlib.Core.List.Perm
use lsvpd.Base.{ℕ, zero, suc, ◌+◌, List, [], ◌∷◌, ◌++◌, ◌≡◌, refl, arith, Bytes, same, none, some}
use lsvpd.DeviceTree.Transfer.{transfer_children}
use lsvpd.DeviceTree.Transfer.Complete.{transfer_children_complete}
use lsvpd.Gatherer.{Forest, nil, tree, nodes, thrown, take_device, build_tree}
use lsvpd.Gatherer.Build.{Follows}
use lsvpd.Gatherer.Fuel.{build_tree-fuel}
use lsvpd.Gatherer.Collect.{Collector, collected, discover, fill_systems, get_component_tree}
use lsvpd.Gatherer.Collect.Laws.{each_filled, get_component_tree-Perm, get_component_tree_complete}

-- A device is its id here; the root 0 has the children 1 and 2, and 2 has the child 3.
abbrev id_of : ℕ → Bytes
id_of d = d ∷ []

abbrev children_of : ℕ → List Bytes
children_of zero = (1 ∷ []) ∷ (2 ∷ []) ∷ []
children_of (suc zero) = []
children_of (suc (suc zero)) = (3 ∷ []) ∷ []
children_of _ = []

-- The collector finds the devices in another order.
abbrev found : Collector ℕ ℕ
found = record { get_components = λ devs. devs ++ 3 ∷ 2 ∷ 1 ∷ []; fill_system = λ n. n + 1 }

abbrev forest : Forest ℕ
forest = tree 1 nil (tree 2 (tree 3 nil nil) nil)

id_of-distinct : (a b : ℕ) → id_of a ≡ id_of b → a ≡ b
id_of-distinct a b e = ground arith

forest-Perm : Perm (3 ∷ 2 ∷ 1 ∷ []) (nodes forest)
forest-Perm =
    Perm.trans (Perm.swap 2 3 (1 ∷ []))
      (Perm.trans (Perm.cons 2 (Perm.swap 1 3 [])) (Perm.swap 1 2 (3 ∷ [])))

get_component_tree_complete_example :
    get_component_tree id_of children_of (found ∷ []) 0 7
    ≡ collected
        (fill_systems (found ∷ []) 7)
        (children_of 0)
        forest
        (each_filled (found ∷ []) (nodes forest))
        (found ∷ [])
unfolding discover
get_component_tree_complete_example =
    get_component_tree_complete id_of children_of id_of-distinct (found ∷ []) 0 0 (3 ∷ 2 ∷ 1 ∷ []) 7
      forest refl (refl, tt, (refl, (refl, tt, tt), tt)) forest-Perm

get_component_tree-Perm_example :
    Follows id_of children_of (children_of 0) forest
    × Perm (3 ∷ 2 ∷ 1 ∷ []) (nodes forest)
    × (children_of 0 ≡ children_of 0)
    × (each_filled (found ∷ []) (nodes forest) ≡ each_filled (found ∷ []) (nodes forest))
    × (found ∷ [] ≡ found ∷ [])
unfolding discover
get_component_tree-Perm_example =
    get_component_tree-Perm id_of children_of (found ∷ []) 0 0 (3 ∷ 2 ∷ 1 ∷ []) 7
      (fill_systems (found ∷ []) 7) (children_of 0) forest (each_filled (found ∷ []) (nodes forest))
      (found ∷ []) refl get_component_tree_complete_example

missing_child : build_tree id_of children_of 1 (children_of 2) (1 ∷ []) ≡ thrown (3 ∷ [])
unfolding build_tree take_device same
missing_child = refl

build_tree-fuel_example :
    build_tree id_of children_of 3 (children_of 0) (3 ∷ 2 ∷ 1 ∷ [])
    ≡ build_tree id_of children_of 8 (children_of 0) (3 ∷ 2 ∷ 1 ∷ [])
build_tree-fuel_example =
    build_tree-fuel id_of children_of 3 8 (children_of 0) (3 ∷ 2 ∷ 1 ∷ []) (omega arith)
      (omega arith)

transfer_children_complete_example :
    transfer_children id_of children_of 3 (3 ∷ 2 ∷ 1 ∷ []) (children_of 0) ≡ some (nodes forest)
unfolding same
transfer_children_complete_example =
    transfer_children_complete id_of children_of 3 (3 ∷ 2 ∷ 1 ∷ []) (children_of 0) forest
      (refl, tt, (refl, (refl, tt, tt), tt)) (refl, (refl, (refl, tt))) (omega arith)

-- On a component that is below itself no number of calls is enough.
below_itself : transfer_children id_of (λ d. (d ∷ []) ∷ []) 9 (4 ∷ []) ((4 ∷ []) ∷ []) ≡ none
unfolding transfer_children same
below_itself = refl
