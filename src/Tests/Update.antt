-- ===== src/Tests/Update.antt =====
-- vpdupdate at concrete files.
use lsvpd.Base.{
  ℕ, Bool, true, false, List, [], ◌∷◌, ◌++◌, ◌≡◌, inl, inr, refl, arith, Option, none, some, codes,
  same, contains_text, not, ◌==◌,
}
use lsvpd.Gatherer.{Forest, nil, tree, nodes}
use lsvpd.Update.{regular, directory, FileSystem, stat}
use lsvpd.Update.Environment.{is_usable, new_mode, ensure_env}
use lsvpd.Update.Environment.Laws.{IsEnsured, ensure_env-IsEnsured}
use lsvpd.Update.Store.{store_components}
use lsvpd.Update.Store.Laws.{store_list, store_components-list}
use lsvpd.Update.Archive.{Answers, archived, remove_old_archives, remove_tagged, archive_db}
use lsvpd.Update.Archive.Laws.{remove_old_archives-kept, archive_db-archived}
use lsvpd.Update.Main.{
  Initialized, returned, thrown, Updater, Machine, default_updater, initialize_db,
}

abbrev files : FileSystem
files =
    (codes "/v/vpd.db", regular (codes "old"))
    ∷ (codes "/v/x.gz", regular [])
    ∷ (codes "/v", directory 493)
    ∷ []

ensure_env-IsEnsured_example :
    IsEnsured 18 (codes "/v/w") files (ensure_env 18 (λ d. true) 5 (codes "/v/w") files)
ensure_env-IsEnsured_example =
    ensure_env-IsEnsured 18 (λ d. true) 5 (codes "/v/w") files (omega arith)

-- A store of numbers that fails for 3.
abbrev store : List ℕ → ℕ → List ℕ × Bool
store db n = (n ∷ db, not (n == 3))

abbrev forest : Forest ℕ
forest = tree 1 (tree 2 nil nil) (tree 4 nil nil)

store_components-list_example :
    store_components store forest [] ≡ store_list store (nodes forest) []
store_components-list_example = store_components-list store forest []

remove_old_archives-kept_example :
    stat
      (codes "/v/vpd.db")
      (remove_old_archives (codes "/v") (codes "x.gz" ∷ codes "vpd.db" ∷ []) files)
    ≡ stat (codes "/v/vpd.db") files
unfolding same contains_text
remove_old_archives-kept_example =
    remove_old_archives-kept (codes "/v") (codes "/v/vpd.db") (codes "x.gz" ∷ codes "vpd.db" ∷ [])
      files (inr refl, (inl refl, tt))

abbrev answers : Answers
answers = record {
  cwd = codes "/";
  entries = some (codes "x.gz" ∷ codes "vpd.db" ∷ []);
  links = true;
  opens = true;
  reads = λ call n. n;
  gzopens = true;
  gzwrites = λ call n. 1;
  gzcloses = true;
  compressed = λ text. codes "gz" ++ text;
  torn = λ text. [];
}

archive_db-archived_example :
    (fs' : FileSystem) × (archive_db answers
        (codes "/v/vpd.db")
        (codes "vpd.db")
        (codes "2020")
        files
      ≡ (archived, fs'))
    × (stat (codes "/v/vpd.db") fs' ≡ none)
    × (stat (codes "/v/vpd.db.2020") fs' ≡ none)
    × (stat (codes "/v/vpd.db.2020.gz") fs' ≡ some (regular (codes "gzold")))
unfolding remove_tagged same
archive_db-archived_example =
    archive_db-archived answers (codes "/v/vpd.db") (codes "vpd.db") (codes "2020") (codes "old")
      (codes "x.gz" ∷ codes "vpd.db" ∷ []) files refl refl refl refl refl (refl, refl, refl)
      (λ call n. (omega arith, omega arith)) (λ call n. (omega arith, omega arith))

abbrev machine : Machine ℕ (List ℕ)
machine = record {
  umask = 18;
  makes = λ d. true;
  names = codes "vpd.db" ∷ codes "x.gz" ∷ [];
  answers = answers;
  stamp = codes "2020";
  spyre_opens = true;
  memory = true;
  gather = λ limit. some forest;
  store_root = (0 ∷ [], true);
  store = store;
  throws = false;
}

abbrev start : Updater
start = record (default_updater files) { env = codes "/v" }

abbrev updater_of : Initialized (List ℕ) → Updater
updater_of (returned u db ok) = u
updater_of (thrown u) = u

abbrev db_of : Initialized (List ℕ) → Option (List ℕ)
db_of (returned u db ok) = db
db_of (thrown u) = none

abbrev done : Initialized (List ℕ)
unfolding initialize_db
done = initialize_db machine false start

-- With the umask 027 a new directory is not usable, and the next call refuses it.
umask_of_027 : new_mode 23 ≡ 488
umask_of_027 = refl

refused_then : is_usable (new_mode 23) ≡ false
refused_then = refl
