-- ===== src/DeviceTree/Transfer.antt =====
-- `findCompIdNode` and `transferChildren`, which moves the descendants of a device of the device
-- tree into the vector of all devices. As in the gatherer, the id (`idNode`) of a component and the
-- ids of its children are parameters.
pub mod Complete
use lsvpd.Base.{
  ℕ, zero, suc, Bool, true, false, List, [], ◌∷◌, ◌++◌, Option, none, some, if◌then◌else◌, Bytes,
  same,
}

-- What one call pushes and what the calls behind it push; none if a call does not end.
abbrev pub pushed {ℓ} : {C : Type ℓ} → Option (List C) → Option (List C) → Option (List C)
pushed none after = none
pushed (some cs) none = none
pushed (some cs) (some ds) = some (cs ++ ds)

abbrev pub push_front {ℓ} : {C : Type ℓ} → C → Option (List C) → Option (List C)
push_front c none = none
push_front c (some cs) = some (c ∷ cs)

module _ {ℓ} {C : Type ℓ} (id : C → Bytes) where
  -- `findCompIdNode`
  unfoldable pub find_comp_id_node : List C → Bytes → Option C
  find_comp_id_node [] node = none
  find_comp_id_node (d ∷ devs) node =
      if same (id d) node then some d else find_comp_id_node devs node

  -- The inner loop: each component of `src` with the id is pushed, and then its children are
  -- transferred. It does not stop at the first.
  unfoldable pub transfer_matching : (C → Option (List C)) → Bytes → List C → Option (List C)
  transfer_matching below kid [] = some []
  transfer_matching below kid (d ∷ src) =
      let rest = transfer_matching below kid src in
      if same (id d) kid then pushed (push_front d (below d)) rest else rest

  module _ (children : C → List Bytes) where
    -- `transferChildren` for the ids of the children that are left: what is pushed on `target`.
    -- With no call left the answer is none: on components that are below themselves the code
    -- calls itself without end.
    unfoldable pub transfer_children : ℕ → List C → List Bytes → Option (List C)
    unfolding transfer_matching
    transfer_children calls src [] = some []
    transfer_children zero src (kid ∷ kids) = none
    transfer_children (suc calls) src (kid ∷ kids) =
        pushed (transfer_matching (λ d. transfer_children calls src (children d)) kid src)
          (transfer_children (suc calls) src kids)
