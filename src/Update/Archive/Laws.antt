-- ===== src/Update/Archive/Laws.antt =====
-- What becomes of the old database.
use lsvpd.Base.{
  ℕ, suc, true, false, List, [], ◌∷◌, ◌++◌, ◌≡◌, ◌⊎◌, inl, inr, refl, arith, ap, sym, ◌∙◌, none,
  some, Bytes, codes, length, length-append, same, same_iff, All, ◌-◌, ◌≢◌, Bool-cases, append-nil,
}
use lsvpd.Output.Archive.Laws.{IsWriter, write_chunk-all}
use lsvpd.Update.{regular, FileSystem, stat, unlink, put, inside}
use lsvpd.Update.Files.{stat-put, stat-put_other, stat-unlink, stat-unlink_other}
use lsvpd.Update.Archive.{
  is_old_archive, remove_old_archives, Answers, gzopen_failed, archived, remove_tagged, buffer,
  compress, link_and_compress, archive_db,
}

-- Only names of archives are removed.
pub remove_old_archives-kept :
    (env path : Bytes) (names : List Bytes) (fs : FileSystem)
    → All (λ name. (is_old_archive name ≡ false) ⊎ (same (inside env name) path ≡ false)) names
    → stat path (remove_old_archives env names fs) ≡ stat path fs
unfolding remove_old_archives
remove_old_archives-kept env path [] fs h = refl
remove_old_archives-kept env path (name ∷ names) fs (inl h, hs) =
    rw h (remove_old_archives-kept env path names fs hs)
remove_old_archives-kept env path (name ∷ names) fs (inr h, hs) =
    elim (Bool-cases (is_old_archive name)) [
      | inl k ↦ rw k (
          remove_old_archives-kept env path names (unlink (inside env name) fs) hs
          ∙ stat-unlink_other (inside env name) path fs h)
      | inr k ↦ rw k (remove_old_archives-kept env path names fs hs)
    ]

differs : (a b : Bytes) → length a ≢ length b → same a b ≡ false
differs a b h = elim (Bool-cases (same a b)) [
  | inl k ↦ absurd (h (ap length ((same_iff a b).0 k)))
  | inr k ↦ k
]

buffer-all :
    (reads : ℕ → ℕ → ℕ) → IsWriter reads → (content : Bytes) → buffer reads content ≡ content
unfolding buffer
buffer-all reads r content =
    let d : length content - length content ≡ 0 = omega arith in
    rw
      (
        write_chunk-all reads r (suc (length content)) 0 content (omega arith),
        d,
        append-nil content,
      )
      refl

abbrev timed : Bytes → Bytes → Bytes
timed full stamp = full ++ b'.' ∷ stamp

abbrev gz : Bytes → Bytes → Bytes
gz full stamp = timed full stamp ++ codes ".gz"

-- The three paths are different.
timed-differs : (full stamp : Bytes) → length (timed full stamp) ≢ length full
timed-differs full stamp e = omega (arith, e, length-append full (b'.' ∷ stamp))

gz-differs : (full stamp : Bytes) → length (gz full stamp) ≢ length full
gz-differs full stamp e =
    omega
      (arith, e, length-append (timed full stamp) (codes ".gz"), length-append full (b'.' ∷ stamp))

-- The files when the database has been linked, unlinked, read and unlinked again.
abbrev emptied : Bytes → Bytes → Bytes → FileSystem → FileSystem
emptied full stamp content fs =
    unlink (timed full stamp) (unlink full (put (timed full stamp) (regular content) fs))

emptied-full :
    (full stamp content : Bytes) (fs : FileSystem)
    → stat full fs ≡ some (regular content)
    → stat full (emptied full stamp content fs) ≡ none
emptied-full full stamp content fs h =
    let d = differs (timed full stamp) full (timed-differs full stamp) in
    let linked = put (timed full stamp) (regular content) fs in
    stat-unlink_other (timed full stamp) full (unlink full linked) d
    ∙ stat-unlink full content linked
        (stat-put_other (timed full stamp) full (regular content) fs d ∙ h)

emptied-timed :
    (full stamp content : Bytes) (fs : FileSystem)
    → stat (timed full stamp) (emptied full stamp content fs) ≡ none
emptied-timed full stamp content fs =
    let d = differs full (timed full stamp) (λ e. timed-differs full stamp (sym e)) in
    let linked = put (timed full stamp) (regular content) fs in
    stat-unlink (timed full stamp) content (unlink full linked) (
      stat-unlink_other full (timed full stamp) linked d
      ∙ stat-put (timed full stamp) (regular content) fs)

compress-archived :
    (a : Answers) (path content : Bytes) (fs : FileSystem)
    → (a.opens ≡ true) × (a.gzopens ≡ true) × (a.gzcloses ≡ true)
    → IsWriter a.reads
    → IsWriter a.gzwrites
    → compress a path content fs
      ≡ (archived, put (path ++ codes ".gz") (regular (a.compressed content)) (unlink path fs))
unfolding compress
compress-archived a path content fs (o, g, c) r w =
    rw
      (
        buffer-all a.reads r content,
        write_chunk-all a.gzwrites w (suc (length content)) 0 content (omega arith),
        o,
        g,
        c,
      )
      refl

-- Where every call succeeds and none of `read` and `gzwrite` comes back empty, the database is gone
-- from its place and its bytes are in the archive with the time stamp, compressed.
pub archive_db-archived :
    (a : Answers) (full file stamp content : Bytes) (names : List Bytes) (fs : FileSystem)
    → stat full fs ≡ some (regular content)
    → a.entries ≡ some names
    → stat full (remove_tagged a.cwd file names fs) ≡ some (regular content)
    → stat (full ++ b'.' ∷ stamp) (remove_tagged a.cwd file names fs) ≡ none
    → a.links ≡ true
    → (a.opens ≡ true) × (a.gzopens ≡ true) × (a.gzcloses ≡ true)
    → IsWriter a.reads
    → IsWriter a.gzwrites
    → (fs' : FileSystem) × (archive_db a full file stamp fs ≡ (archived, fs'))
      × (stat full fs' ≡ none)
      × (stat (full ++ b'.' ∷ stamp) fs' ≡ none)
      × (stat ((full ++ b'.' ∷ stamp) ++ codes ".gz") fs' ≡ some (regular (a.compressed content)))
unfolding archive_db link_and_compress
archive_db-archived a full file stamp content names fs h e k t l calls r w =
    let fs₁ = remove_tagged a.cwd file names fs in
    let path = timed full stamp in
    let left = emptied full stamp content fs₁ in
    (
      put (gz full stamp) (regular (a.compressed content)) left,
      rw
          (
            archive_db,
            h,
            e,
            k,
            t,
            link_and_compress,
            l,
            compress-archived a path content (unlink full (put path (regular content) fs₁)) calls r
                w,
          )
          refl,
      stat-put_other (gz full stamp) full (regular (a.compressed content)) left
            (differs (gz full stamp) full (gz-differs full stamp))
          ∙ emptied-full full stamp content fs₁ k,
      stat-put_other (gz full stamp) path (regular (a.compressed content)) left
            (differs (gz full stamp) path (timed-differs path (codes "gz")))
          ∙ emptied-timed full stamp content fs₁,
      stat-put (gz full stamp) (regular (a.compressed content)) left,
    )

-- The database is lost where the archive cannot be opened: its path and the one with the time
-- stamp name nothing.
pub archive_db-lost :
    (a : Answers) (full file stamp content : Bytes) (names : List Bytes) (fs : FileSystem)
    → stat full fs ≡ some (regular content)
    → a.entries ≡ some names
    → stat full (remove_tagged a.cwd file names fs) ≡ some (regular content)
    → stat (full ++ b'.' ∷ stamp) (remove_tagged a.cwd file names fs) ≡ none
    → (a.links ≡ true) × (a.opens ≡ true) × (a.gzopens ≡ false)
    → (fs' : FileSystem) × (archive_db a full file stamp fs ≡ (gzopen_failed, fs'))
      × (stat full fs' ≡ none)
      × (stat (full ++ b'.' ∷ stamp) fs' ≡ none)
unfolding archive_db link_and_compress compress
archive_db-lost a full file stamp content names fs h e k t (l, o, g) =
    let fs₁ = remove_tagged a.cwd file names fs in
    (
      emptied full stamp content fs₁,
      rw (archive_db, h, e, k, t, link_and_compress, l, compress, o, g) refl,
      emptied-full full stamp content fs₁ k,
      emptied-timed full stamp content fs₁,
    )
