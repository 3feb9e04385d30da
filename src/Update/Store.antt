-- ===== src/Update/Store.antt =====
-- The two functions `storeComponents` of src/internal/updater.cpp. `store` of libvpd's `VpdDbEnv`
-- is an argument: the database behind it, and whether it succeeds.
pub mod Laws
use lsvpd.Base.{Bool, true, false, List, [], ◌∷◌}
use lsvpd.Gatherer.{Forest, nil, tree}

module _ {ℓ κ} {C : Type ℓ} {Db : Type κ} (store : Db → C → Db × Bool) where
  -- The next step, unless the last one failed.
  abbrev pub then_store : Db × Bool → (Db → Db × Bool) → Db × Bool
  then_store (db, true) next = next db
  then_store (db, false) next = (db, false)

  -- `storeComponents( Component* )` of each component in turn, until one fails
  unfoldable pub store_components : Forest C → Db → Db × Bool
  store_components nil db = (db, true)
  store_components (tree c leaves next) db =
      then_store (then_store (store db c) (λ db'. store_components leaves db'))
        (λ db'. store_components next db')

  -- `storeComponents( System* )`, with what storing the system itself came to
  unfoldable pub store_system : Db × Bool → Forest C → Db × Bool
  unfolding store_components
  store_system stored forest = then_store stored (λ db. store_components forest db)
