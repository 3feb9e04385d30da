-- ===== src/RtasCollector/Result.antt =====
-- What `rtasGetVPD` returns, and when it gives up.
use lsvpd.Base.{
  ◌+◌, List, [], ◌∷◌, ◌++◌, ◌≡◌, ◌⊎◌, inl, inr, Bool-cases, refl, sym, ap, ◌∙◌, ltb, Bytes, arith,
  append_assoc, append-nil,
}
use lsvpd.RtasCollector.{
  ReturnCode, success, continue_, vpd_changed, Answer, Reading, finished, vpd_changed_threshold,
  joined, handle, start, get_vpd,
}

-- Answers that end with success and have nothing but CONTINUE before it.
pub data Run : List Answer → Type 0 where
  last : {a : Answer} → a.rc ≡ success → Run (a ∷ [])
  more : {a : Answer} {answers : List Answer} → a.rc ≡ continue_ → Run answers → Run (a ∷ answers)

-- Answers of which the last says that the VPD has changed.
pub data Dropped : List Answer → Type 0 where
  change : {a : Answer} → a.rc ≡ vpd_changed → Dropped (a ∷ [])
  before : {a : Answer} {answers : List Answer} → Dropped answers → Dropped (a ∷ answers)

abbrev pub contents : List Answer → Bytes
contents [] = []
contents (a ∷ answers) = a.bytes ++ contents answers

-- The answers go on with a run, which completes what has been read already.
pub record Straight (filled : List Bytes) (answers : List Answer) (bytes : Bytes) : Type 0 where
  pub run : List Answer
  pub unread : List Answer
  pub splits : answers ≡ run ++ unread
  pub is_run : Run run
  pub holds : bytes ≡ joined filled ++ contents run

-- The last change is followed by a run, which alone is what is read.
pub record Restarted (answers : List Answer) (bytes : Bytes) : Type 0 where
  pub thrown_away : List Answer
  pub run : List Answer
  pub unread : List Answer
  pub splits : answers ≡ thrown_away ++ (run ++ unread)
  pub dropped : Dropped thrown_away
  pub is_run : Run run
  pub holds : bytes ≡ contents run

pub joined-append : (xs : List Bytes) (b : Bytes) → joined (xs ++ b ∷ []) ≡ joined xs ++ b
joined-append [] b = append-nil b
joined-append (x ∷ xs) b = rw (joined-append xs b, append_assoc)

module _ (a : Answer) (answers : List Answer) (bytes : Bytes) (r : Reading) where
  abbrev Result : Type 0
  Result = Straight r.filled (a ∷ answers) bytes ⊎ Restarted (a ∷ answers) bytes

  after_continue :
      a.rc ≡ continue_
      → Straight (r.filled ++ a.bytes ∷ []) answers bytes ⊎ Restarted answers bytes
      → Result
  after_continue c (inl s) = inl (record {
    run = a ∷ s.run;
    unread = s.unread;
    splits = ap (◌∷◌ a) s.splits;
    is_run = more c s.is_run;
    holds =
        s.holds
        ∙ ap (λ (p : Bytes). p ++ contents s.run) (joined-append r.filled a.bytes)
        ∙ append_assoc (joined r.filled) a.bytes (contents s.run);
  })
  after_continue c (inr s) = inr (record {
    thrown_away = a ∷ s.thrown_away;
    run = s.run;
    unread = s.unread;
    splits = ap (◌∷◌ a) s.splits;
    dropped = before s.dropped;
    is_run = s.is_run;
    holds = s.holds;
  })

  after_change : a.rc ≡ vpd_changed → Straight [] answers bytes ⊎ Restarted answers bytes → Result
  after_change c (inl s) = inr (record {
    thrown_away = a ∷ [];
    run = s.run;
    unread = s.unread;
    splits = ap (◌∷◌ a) s.splits;
    dropped = change c;
    is_run = s.is_run;
    holds = s.holds;
  })
  after_change c (inr s) = inr (record {
    thrown_away = a ∷ s.thrown_away;
    run = s.run;
    unread = s.unread;
    splits = ap (◌∷◌ a) s.splits;
    dropped = before s.dropped;
    is_run = s.is_run;
    holds = s.holds;
  })

  at_success : a.rc ≡ success → bytes ≡ joined (r.filled ++ a.bytes ∷ []) → Result
  at_success c e = inl (record {
    run = a ∷ [];
    unread = answers;
    splits = refl;
    is_run = last c;
    holds =
        e
        ∙ joined-append r.filled a.bytes
        ∙ ap (λ (b : Bytes). joined r.filled ++ b) (sym (append-nil a.bytes));
  })

  split_answer :
      (rc : ReturnCode)
      → a.rc ≡ rc
      → ((r' : Reading)
          → get_vpd r' answers ≡ finished bytes
          → Straight r'.filled answers bytes ⊎ Restarted answers bytes)
      → get_vpd r (a ∷ answers) ≡ finished bytes
      → Result
  unfolding get_vpd
  split_answer success c ih e = at_success c (ground (arith, c, e))
  split_answer continue_ c ih e = after_continue c (ih _ (rw (c, handle) at e))
  split_answer vpd_changed c ih e = elim (Bool-cases (ltb vpd_changed_threshold (r.changed + 1))) [
    | inl many ↦ ground (arith, c, e, many)
    | inr few ↦
        after_change c (
          ih (record { filled = []; seq = 1; changed = r.changed + 1 }) (ground (arith, c, e, few)))
  ]
  split_answer _ c ih e = ground (arith, c, e)

get_vpd-split :
    (answers : List Answer) (bytes : Bytes) (r : Reading)
    → get_vpd r answers ≡ finished bytes
    → Straight r.filled answers bytes ⊎ Restarted answers bytes
get_vpd-split [] bytes r e = unfold get_vpd in cc
get_vpd-split (a ∷ answers) bytes r e =
    split_answer a answers bytes r a.rc refl (get_vpd-split answers bytes) e

-- What is returned is the data of one run without a change: of the first answers, or of those
-- behind the last change.
pub get_vpd-one_run :
    (answers : List Answer) (bytes : Bytes)
    → get_vpd start answers ≡ finished bytes
    → Straight [] answers bytes ⊎ Restarted answers bytes
get_vpd-one_run answers bytes e = get_vpd-split answers bytes start e
