-- ===== src/Output/Lsvpd/Main/Laws.antt =====
-- The options of lsvpd, and what it leaves behind of an archive.
use mathlib.Core.Path.{subst}
use lsvpd.Base.{
  true, false, List, [], ◌∷◌, ◌++◌, ◌≡◌, ◌⊎◌, inl, inr, refl, arith, Bytes, Option, none, some,
  same, ◌==◌, All, Option-cases, Bool, if◌then◌else◌,
}
use lsvpd.Scsi.Templates.Codes.{has}
use lsvpd.Gatherer.{Forest}
use lsvpd.Output.{Event, System, Component}
use lsvpd.Output.Archive.{
  Outside, Archived, FileCall, writes, Result, unlinks, ran, Fetched, fetched, nothing, failed,
  unpacked, unpack, write_out, uncompress, split_path,
}
use lsvpd.Output.Archive.Laws.{uncompressed_path-none}
use lsvpd.Output.Lsvpd.{Flags}
use lsvpd.Output.Lsvpd.Main.{print_fetched, print_system, with_path, lsvpd_run}
use lsvpd.Output.Lsvpd.Main.Options.{
  Options, Round, go_on, assign_given, stop_usage, stop_version, null_text, option_round,
  option_loop,
}

-- The run ended, with the file removed or with the status 1.
abbrev pub Ends : Result → List FileCall → Bytes → Type 0
Ends r files path =
    ((ls : List Bytes) × (r ≡ ran ls 0 (files ++ unlinks path ∷ [])))
    ⊎ ((ls : List Bytes) × (r ≡ ran ls 1 files))

print_fetched-Ends :
    (dest : Bytes) (flags : Flags) (files : List FileCall) (f : Fetched)
    → Ends (print_fetched dest flags true files f) files flags.path
unfolding print_fetched
print_fetched-Ends dest flags files (fetched sys forest) = inl (_, refl)
print_fetched-Ends dest flags files nothing = inl (_, refl)
print_fetched-Ends dest flags files (failed what) = inr (_, refl)

with_path-Ends :
    (dest : Bytes) (w : Outside) (flags : Flags) (files : List FileCall)
    → Ends (with_path dest w flags true files) files flags.path
unfolding with_path
with_path-Ends dest w flags files =
    elim (Option-cases (w.retriever (split_path flags.path).0 (split_path flags.path).1)) [
      | inl h ↦ rw (with_path, h) (inr (_, refl))
      | inr (f, h) ↦ rw (with_path, h) (print_fetched-Ends dest flags files f)
    ]

-- An unpacked archive stays behind exactly if the run fails; each run ends with 0 or 1.
pub lsvpd_run-Ends :
    (dest : Bytes) (w : Outside) (flags : Flags) (path : Bytes) (files : List FileCall)
    → same flags.path [] ≡ false
    → unpack w flags.path ≡ unpacked path files
    → Ends (lsvpd_run dest w flags true) files path
unfolding lsvpd_run
lsvpd_run-Ends dest w flags path files h k =
    rw (h, k) (with_path-Ends dest w (record flags { path = path }) files)

-- An archive whose path has no dot is written over by what it holds, and removed.
pub lsvpd_run-no_dot :
    (dest : Bytes) (w : Outside) (flags : Flags) (a : Archived) (sys : System)
    (forest : Forest Component)
    → same flags.path [] ≡ false
    → has b'.' flags.path ≡ false
    → w.gzopen flags.path ≡ some a
    → w.opens flags.path ≡ true
    → a.closes ≡ true
    → w.retriever (split_path flags.path).0 (split_path flags.path).1 ≡ some (fetched sys forest)
    → lsvpd_run dest w flags true
      ≡ ran
          (print_system flags sys forest)
          0
          (writes flags.path (uncompress w.takes 0 a.chunks) ∷ unlinks flags.path ∷ [])
unfolding lsvpd_run with_path unpack write_out print_fetched
lsvpd_run-no_dot dest w flags a sys forest h i j k l m =
    rw (h, j, uncompressed_path-none flags.path i, k, l, with_path, m) refl

-- The options behind -z: the path stays.
abbrev IsOtherOption : Event → Type 0
IsOtherOption e = (e.opt == b'z') ≡ false

-- A loop that goes on does so with a predicate.
abbrev Keeps : (Options → Type 0) → Round → Type 0
Keeps P (go_on o) = P o
Keeps P _ = Unit

if-Keeps :
    (P : Options → Type 0) (b : Bool) (x y : Round)
    → (b ≡ true → Keeps P x)
    → (b ≡ false → Keeps P y)
    → Keeps P (if b then x else y)
if-Keeps P true x y h k = h refl
if-Keeps P false x y h k = k refl

given-Keeps :
    (P : Options → Type 0) (o : Options) (arg : Option Bytes) (f : Bytes → Options)
    → P o
    → ((a : Bytes) → P (f a))
    → Keeps P (assign_given o arg f)
given-Keeps P o none f h k = h
given-Keeps P o (some a) f h k = k a

abbrev HasPath : Bytes → Options → Type 0
HasPath path o = (o.flags.path ≡ path) × (o.compressed ≡ true)

option_round-HasPath :
    (path : Bytes) (o : Options) (e : Event)
    → IsOtherOption e
    → same path [] ≡ false
    → HasPath path o
    → Keeps (HasPath path) (option_round o e)
unfolding option_round
option_round-HasPath path o e z h k =
    let P = HasPath path in
    if-Keeps P (e.opt == b'm') _ _ (λ _. k)
      (λ _.
        if-Keeps P (e.opt == b'v') _ _ (λ _. tt)
          (λ _.
            if-Keeps P (e.opt == b's') _ _ (λ _. given-Keeps P o e.optarg _ k (λ _. k))
              (λ _.
                if-Keeps P (e.opt == b't') _ _ (λ _. given-Keeps P o e.optarg _ k (λ _. k))
                  (λ _.
                    if-Keeps P (e.opt == b'p') _ _
                      (λ _.
                        if-Keeps P (same o.flags.path []) _ _
                          (λ empty. absurd (ground (arith, empty, h, k.0))) (λ _. k))
                      (λ _.
                        if-Keeps P (e.opt == b'z') _ _ (λ is_z. absurd (ground (arith, is_z, z)))
                          (λ _.
                            if-Keeps P (e.opt == b'l') _ _
                              (λ _. given-Keeps P o e.optarg _ k (λ _. k))
                              (λ _.
                                if-Keeps P (e.opt == b'D') _ _ (λ _. k)
                                  (λ _. if-Keeps P (e.opt == b'h') _ _ (λ _. tt) (λ _. tt)))))))))

-- A round, and the rounds behind it.
next-Keeps :
    (Q P : Options → Type 0) (o : Options) (e : Event) (events : List Event)
    → Keeps Q (option_round o e)
    → ((o' : Options) → Q o' → Keeps P (option_loop o' events))
    → Keeps P (option_loop o (e ∷ events))
unfolding option_loop
next-Keeps Q P o e events h k = go (option_round o e) refl h
  where
    go : (r : Round) → option_round o e ≡ r → Keeps Q r → Keeps P (option_loop o (e ∷ events))
    go (go_on o') i q = rw (option_loop, i) (k o' q)
    go (stop_usage n) i q = rw (option_loop, i) tt
    go stop_version i q = rw (option_loop, i) tt
    go null_text i q = rw (option_loop, i) tt

option_loop-HasPath :
    (path : Bytes) (o : Options) (events : List Event)
    → All IsOtherOption events
    → same path [] ≡ false
    → HasPath path o
    → Keeps (HasPath path) (option_loop o events)
unfolding option_loop
option_loop-HasPath path o [] a h k = k
option_loop-HasPath path o (e ∷ events) (z, a) h k =
    next-Keeps (HasPath path) (HasPath path) o e events (option_round-HasPath path o e z h k)
      (λ o' k'. option_loop-HasPath path o' events a h k')

any-Keeps : (r : Round) → Keeps (λ _. Unit) r
any-Keeps (go_on o) = tt
any-Keeps (stop_usage n) = tt
any-Keeps stop_version = tt
any-Keeps null_text = tt

zip_round-HasPath :
    (o : Options) (path : Bytes)
    → Keeps (HasPath path) (option_round o (record { opt = b'z'; optarg = some path }))
unfolding option_round
zip_round-HasPath o path = (refl, refl)

zip-HasPath :
    (o : Options) (before after : List Event) (path : Bytes)
    → same path [] ≡ false
    → All IsOtherOption after
    → Keeps
        (HasPath path)
        (option_loop o (before ++ record { opt = b'z'; optarg = some path } ∷ after))
zip-HasPath o [] after path h a =
    next-Keeps (HasPath path) (HasPath path) o (record { opt = b'z'; optarg = some path }) after
      (zip_round-HasPath o path) (λ o' k. option_loop-HasPath path o' after a h k)
zip-HasPath o (e ∷ before) after path h a =
    next-Keeps (λ _. Unit) (HasPath path) o e
      (before ++ record { opt = b'z'; optarg = some path } ∷ after) (any-Keeps (option_round o e))
      (λ o' _. zip-HasPath o' before after path h a)

-- If the program goes on, the database is the archive of the last -z, unless that is the empty
-- text, whatever -p says and where.
pub option_loop-zip :
    (o o' : Options) (before after : List Event) (path : Bytes)
    → same path [] ≡ false
    → All IsOtherOption after
    → option_loop o (before ++ record { opt = b'z'; optarg = some path } ∷ after) ≡ go_on o'
    → (o'.flags.path ≡ path) × (o'.compressed ≡ true)
option_loop-zip o o' before after path h a e =
    subst (Keeps (HasPath path)) e (zip-HasPath o before after path h a)
