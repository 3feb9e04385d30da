-- ===== src/Update/Store/Laws.antt =====
-- What is stored, and in which order.
use lsvpd.Base.{Bool, true, false, List, [], ◌∷◌, ◌++◌, ◌≡◌, refl, ap, sym, ◌∙◌}
use lsvpd.Gatherer.{Forest, nil, tree, nodes}
use lsvpd.Update.Store.{then_store, store_components}

module _ {ℓ κ} {C : Type ℓ} {Db : Type κ} (store : Db → C → Db × Bool) where
  -- The components of a list are stored one by one, up to the first that fails.
  unfoldable pub store_list : List C → Db → Db × Bool
  store_list [] db = (db, true)
  store_list (c ∷ cs) db = then_store store (store db c) (λ db'. store_list cs db')

  then_store_assoc :
      (r : Db × Bool) (f g : Db → Db × Bool)
      → then_store store (then_store store r f) g
        ≡ then_store store r (λ db. then_store store (f db) g)
  then_store_assoc (db, true) f g = refl
  then_store_assoc (db, false) f g = refl

  then_store-ext :
      (r : Db × Bool) (f g : Db → Db × Bool)
      → ((db : Db) → f db ≡ g db)
      → then_store store r f ≡ then_store store r g
  then_store-ext (db, true) f g h = h db
  then_store-ext (db, false) f g h = refl

  store_list-append :
      (xs ys : List C) (db : Db)
      → store_list (xs ++ ys) db ≡ then_store store (store_list xs db) (λ db'. store_list ys db')
  unfolding store_list
  store_list-append [] ys db = refl
  store_list-append (c ∷ cs) ys db =
      then_store-ext (store db c) _ _ (λ db'. store_list-append cs ys db')
      ∙ sym (then_store_assoc (store db c) _ _)

  -- Storing a tree is storing its components, each before those below it, until one fails.
  pub store_components-list :
      (forest : Forest C) (db : Db)
      → store_components store forest db ≡ store_list (nodes forest) db
  unfolding store_components store_list
  store_components-list nil db = refl
  store_components-list (tree c leaves next) db =
      then_store_assoc (store db c) _ _
      ∙ then_store-ext (store db c) _ _ (λ db'.
        ap (λ (r : Db × Bool). then_store store r (λ d. store_components store next d))
          (store_components-list leaves db')
        ∙ then_store-ext (store_list (nodes leaves) db') _ _ (λ d. store_components-list next d)
        ∙ sym (store_list-append (nodes leaves) (nodes next) db'))
