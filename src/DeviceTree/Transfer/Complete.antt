-- ===== src/DeviceTree/Transfer/Complete.antt =====
-- What `transferChildren` moves.
use mathlib.Core.Path.{subst}
use lsvpd.Base.{
  ℕ, zero, suc, ◌≤◌, List, [], ◌∷◌, ◌++◌, Option, some, if◌then◌else◌, Bytes, same, length,
  length-append, All, ◌≡◌, ◌∙◌, refl, ap, arith, append-nil, Bool-cases, inl, inr,
}
use lsvpd.Gatherer.{Forest, nil, tree, nodes}
use lsvpd.Gatherer.Build.{Follows}
use lsvpd.DeviceTree.Transfer.{pushed, push_front, transfer_matching, transfer_children}

All-split {ℓ κ} :
    {A : Type ℓ} (P : A → Type κ) (xs ys : List A) → All P (xs ++ ys) → All P xs × All P ys
All-split P [] ys h = (tt, h)
All-split P (x ∷ xs) ys h = let (k, l) = All-split P xs ys h.1 in ((h.0, k), l)

module _ {ℓ} {C : Type ℓ} (id : C → Bytes) where
  -- The components with the id, in order.
  abbrev pub with_id : Bytes → List C → List C
  with_id kid [] = []
  with_id kid (d ∷ devs) = if same (id d) kid then d ∷ with_id kid devs else with_id kid devs

  abbrev gather : (C → Option (List C)) → List C → Option (List C)
  gather below [] = some []
  gather below (d ∷ devs) = pushed (push_front d (below d)) (gather below devs)

  transfer_matching-gather :
      (below : C → Option (List C)) (kid : Bytes) (src : List C)
      → transfer_matching id below kid src ≡ gather below (with_id kid src)
  unfolding transfer_matching
  transfer_matching-gather below kid [] = refl
  transfer_matching-gather below kid (d ∷ src) = elim (Bool-cases (same (id d) kid)) [
    | inl e ↦ ground (arith, e, transfer_matching-gather below kid src)
    | inr e ↦ ground (arith, e, transfer_matching-gather below kid src)
  ]

  transfer_matching-once :
      (below : C → Option (List C)) (kid : Bytes) (src : List C) (c : C) (cs : List C)
      → with_id kid src ≡ c ∷ []
      → below c ≡ some cs
      → transfer_matching id below kid src ≡ some (c ∷ cs)
  transfer_matching-once below kid src c cs h k =
      transfer_matching-gather below kid src
      ∙ ap (gather below) h
      ∙ ap (λ o. pushed (push_front c o) (some [])) k
      ∙ rw append-nil refl

  -- The component is the only one with its id.
  abbrev pub Once : List C → C → Type ℓ
  Once src c = with_id (id c) src ≡ c ∷ []

  module _ (children : C → List Bytes) where
    -- The components of a forest that follows the ids are pushed, each once and before those
    -- below it, if each is the only one with its id. Calls nest at most as deep as there are
    -- components.
    pub transfer_children_complete :
        (calls : ℕ) (src : List C) (kids : List Bytes) (forest : Forest C)
        → Follows id children kids forest
        → All (Once src) (nodes forest)
        → length (nodes forest) ≤ calls
        → transfer_children id children calls src kids ≡ some (nodes forest)
    unfolding transfer_children
    transfer_children_complete calls src [] nil f h l = refl
    transfer_children_complete calls src [] (tree c leaves next) f h l = elim f [ ]
    transfer_children_complete calls src (kid ∷ kids) nil f h l = elim f [ ]
    transfer_children_complete zero src (kid ∷ kids) (tree c leaves next) f h l = elim l [ ]
    transfer_children_complete (suc calls) src (kid ∷ kids) (tree c leaves next) (e, fl, fn) h l =
        let (hl, hn) = All-split (Once src) (nodes leaves) (nodes next) h.1 in
        let k = length-append (nodes leaves) (nodes next) in
        let below =
          transfer_children_complete calls src (children c) leaves fl hl (omega (arith, l, k)) in
        let after =
          transfer_children_complete (suc calls) src kids next fn hn (omega (arith, l, k)) in
        ap (λ o. pushed o (transfer_children id children (suc calls) src kids))
          (transfer_matching-once (λ d. transfer_children id children calls src (children d)) kid
            src c (nodes leaves) (subst (λ k'. with_id k' src ≡ c ∷ []) e h.0) below)
        ∙ ap (pushed (some (c ∷ nodes leaves))) after
