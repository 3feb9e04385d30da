-- ===== src/Update/Environment/Laws.antt =====
-- The directory of the database is there when `ensureEnv` returns 0.
use lsvpd.Base.{
  ℕ, zero, suc, ◌<◌, Bool, true, ◌∷◌, ◌≡◌, refl, arith, ap, ◌∙◌, Option, none, some, Bytes, length,
  length-append, same, same_iff, Bool-cases, ◌⊎◌, inl, inr,
}
use lsvpd.Output.Archive.{split_last}
use lsvpd.Output.Archive.Laws.{split_last-append}
use lsvpd.Update.{Node, regular, directory, special, FileSystem, stat, put}
use lsvpd.Update.Files.{stat-put, stat-put_other}
use lsvpd.Update.Environment.{
  Ensured, ready, refused, out_of_fuel, is_usable, new_mode, make_directory, check_node, ensure_env,
}

-- What holds of the result, where the fuel is enough: what was there stays as it is, and after a
-- return of 0 the path is a directory, and a usable one unless it is new and has the mode that the
-- umask leaves.
abbrev pub IsEnsured : ℕ → Bytes → FileSystem → Ensured → Type 0
IsEnsured umask env fs (ready fs') =
    ((mode : ℕ) × (stat env fs' ≡ some (directory mode))
      × ((is_usable mode ≡ true) ⊎ ((stat env fs ≡ none) × (mode ≡ new_mode umask))))
    × ((path : Bytes) (n : Node) → stat path fs ≡ some n → stat path fs' ≡ some n)
IsEnsured umask env fs (refused fs') =
    (path : Bytes) (n : Node) → stat path fs ≡ some n → stat path fs' ≡ some n
IsEnsured umask env fs out_of_fuel = ⊥

check_node-IsEnsured :
    (umask : ℕ) (env : Bytes) (fs : FileSystem) (n : Node)
    → stat env fs ≡ some n
    → IsEnsured umask env fs (check_node n fs)
unfolding check_node
check_node-IsEnsured umask env fs (directory mode) h = elim (Bool-cases (is_usable mode)) [
  | inl k ↦ rw k ((mode, h, inl k), λ path n e. e)
  | inr k ↦ rw k (λ path n e. e)
]
check_node-IsEnsured umask env fs (regular c) h = λ path n e. e
check_node-IsEnsured umask env fs special h = λ path n e. e

put-keeps :
    (env path : Bytes) (n m : Node) (fs fs' : FileSystem)
    → stat env fs ≡ none
    → stat path fs ≡ some n
    → stat path fs' ≡ some n
    → stat path (put env m fs') ≡ some n
put-keeps env path n m fs fs' h k l = elim (Bool-cases (same env path)) [
  | inl e ↦ absurd (ground (arith, ap (λ (x : Bytes). stat x fs) ((same_iff env path).0 e), h, k))
  | inr e ↦ stat-put_other env path m fs' e ∙ l
]

make_directory-IsEnsured :
    (umask : ℕ) (makes : Bytes → Bool) (env parent : Bytes) (fs : FileSystem) (r : Ensured)
    → stat env fs ≡ none
    → IsEnsured umask parent fs r
    → IsEnsured umask env fs (make_directory umask makes env r)
unfolding make_directory
make_directory-IsEnsured umask makes env parent fs (ready fs') h (d, k) =
    elim (Bool-cases (makes env)) [
      | inl e ↦ rw e (
        (new_mode umask, stat-put env (directory (new_mode umask)) fs', inr (h, refl)),
        λ path n l. put-keeps env path n (directory (new_mode umask)) fs fs' h l (k path n l),
      )
      | inr e ↦ rw e k
    ]
make_directory-IsEnsured umask makes env parent fs (refused fs') h k = k
make_directory-IsEnsured umask makes env parent fs out_of_fuel h k = k

shorter :
    (env a b : Bytes) (fuel : ℕ)
    → split_last b'/' env ≡ some (a, b)
    → length env < suc fuel
    → length a < fuel
shorter env a b fuel e h =
    omega (arith, ap length (split_last-append b'/' env a b e), length-append a (b'/' ∷ b), h)

-- With a call for each character of the path and one more, the calls come to an end: either with
-- the path a directory, usable if it was there before or if the umask leaves that, or with -1. What was there before stays as it is in both cases.
pub ensure_env-IsEnsured :
    (umask : ℕ) (makes : Bytes → Bool) (fuel : ℕ) (env : Bytes) (fs : FileSystem)
    → length env < fuel
    → IsEnsured umask env fs (ensure_env umask makes fuel env fs)
unfolding ensure_env
ensure_env-IsEnsured umask makes zero env fs h = absurd (omega (arith, h))
ensure_env-IsEnsured umask makes (suc fuel) env fs h =
    go (stat env fs) refl (split_last b'/' env) refl
      (λ a k. ensure_env-IsEnsured umask makes fuel a fs k)
  where
    go :
        (o : Option Node)
        → stat env fs ≡ o
        → (q : Option (Bytes × Bytes)) → split_last b'/' env ≡ q
        → ((a : Bytes) → length a < fuel → IsEnsured umask a fs (ensure_env umask makes fuel a fs))
        → IsEnsured umask env fs (ensure_env umask makes (suc fuel) env fs)
    go (some n) e q k again = rw (ensure_env, e) (check_node-IsEnsured umask env fs n e)
    go none e none k again = rw (ensure_env, e, k) (λ path n l. l)
    go none e (some (a, b)) k again =
        rw (ensure_env, e, k)
          (make_directory-IsEnsured umask makes env a fs (ensure_env umask makes fuel a fs) e
            (again a (shorter env a b fuel k h)))
