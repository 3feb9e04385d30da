-- ===== src/RtasCollector/Threshold.antt =====
-- The count of changes, which is meant to end the loop.
use lsvpd.Base.{
  ℕ, suc, ◌+◌, ◌≤◌, List, [], ◌∷◌, ◌++◌, ◌≡◌, refl, length, arith, append_assoc, append-nil, ap,
  ◌∙◌,
}
use lsvpd.RtasCollector.{
  continue_, vpd_changed, Answer, Reading, rtas_error, reading, finished, failed,
  vpd_changed_threshold, joined, handle, start, get_vpd,
}
use lsvpd.RtasCollector.Result.{Run, last, more, contents, joined-append}

pub data AllChanged : List Answer → Type 0 where
  nil : AllChanged []
  cons :
      {a : Answer} {answers : List Answer}
      → a.rc ≡ vpd_changed
      → AllChanged answers
      → AllChanged (a ∷ answers)

-- CONTINUE and VPD_CHANGED in turn.
pub data Alternates : List Answer → Type 0 where
  nil : Alternates []
  turn :
      {a b : Answer} {answers : List Answer}
      → a.rc ≡ continue_
      → b.rc ≡ vpd_changed
      → Alternates answers
      → Alternates (a ∷ b ∷ answers)

abbrev restarted : ℕ → Reading
restarted n = record { filled = []; seq = 1; changed = n }

get_vpd-changes :
    {changes : List Answer} (rest : List Answer) (n : ℕ)
    → AllChanged changes
    → length changes + n ≤ vpd_changed_threshold
    → get_vpd (restarted n) (changes ++ rest) ≡ get_vpd (restarted (length changes + n)) rest
unfolding get_vpd
get_vpd-changes rest n nil h = let e : 0 + n ≡ n = omega arith in rw e
get_vpd-changes rest n (cons {a} {answers} c cs) h =
    let e : length answers + (n + 1) ≡ suc (length answers) + n = omega arith in
    ground (arith, c, get_vpd-changes rest (n + 1) cs (omega arith), e)

get_vpd-Run :
    {run : List Answer} (unread : List Answer) (r : Reading)
    → Run run
    → get_vpd r (run ++ unread) ≡ finished (joined r.filled ++ contents run)
unfolding get_vpd
get_vpd-Run unread r (last {a} c) =
    rw (c, handle) (ap finished (joined-append r.filled a.bytes ∙ rw append-nil))
get_vpd-Run unread r (more {a} {answers} c cs) =
    rw (c, handle)
      (get_vpd-Run unread
          (record { filled = r.filled ++ a.bytes ∷ []; seq = a.next_seq; changed = 0 }) cs
        ∙ rw (joined-append r.filled a.bytes, append_assoc))

-- Up to five changes in a row are survived, and the run behind them is returned whole.
pub get_vpd_survives :
    (changes run unread : List Answer)
    → AllChanged changes
    → length changes ≤ vpd_changed_threshold
    → Run run
    → get_vpd start (changes ++ (run ++ unread)) ≡ finished (contents run)
get_vpd_survives changes run unread cs h r =
    get_vpd-changes (run ++ unread) 0 cs (omega arith)
    ∙ get_vpd-Run unread (restarted (length changes + 0)) r

-- The sixth change in a row ends the loop with an error.
pub get_vpd_gives_up :
    (changes rest : List Answer) (a : Answer)
    → AllChanged changes
    → length changes ≡ vpd_changed_threshold
    → a.rc ≡ vpd_changed
    → get_vpd start (changes ++ a ∷ rest) ≡ failed rtas_error
get_vpd_gives_up changes rest a cs h c =
    get_vpd-changes (a ∷ rest) 0 cs (omega arith) ∙ unfold get_vpd in ground (arith, c, h)

get_vpd-Alternates :
    {answers : List Answer} (r : Reading)
    → Alternates answers
    → (r' : Reading) × (get_vpd r answers ≡ reading r')
unfolding get_vpd
get_vpd-Alternates r nil = (r, refl)
get_vpd-Alternates r (turn {a} {b} {answers} c d t) =
    let (r', e) = get_vpd-Alternates (restarted 1) t in (r', ground (arith, c, d, e))

-- Changes with a CONTINUE before each are never counted to more than one: however many of them
-- there are, the loop asks on.
pub get_vpd_never_gives_up :
    (answers : List Answer)
    → Alternates answers
    → (r : Reading) × (get_vpd start answers ≡ reading r)
get_vpd_never_gives_up answers t = get_vpd-Alternates start t
