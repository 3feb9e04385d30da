-- ===== src/Tests/Collectors.antt =====
-- The RTAS collector's loop at concrete answers.
use lsvpd.Base.{[], ◌∷◌, ◌++◌, ◌≡◌, ◌⊎◌, refl, arith, codes}
use lsvpd.RtasCollector.{
  success, continue_, vpd_changed, Answer, Reading, reading, finished, start, get_vpd,
}
use lsvpd.RtasCollector.Result.{Run, last, more, contents, Straight, Restarted, get_vpd-one_run}
use lsvpd.RtasCollector.Threshold.{
  AllChanged, Alternates, turn, get_vpd_survives, get_vpd_never_gives_up,
}

abbrev part : Answer
part = record { rc = continue_; bytes = codes "ab"; next_seq = 2 }

abbrev end : Answer
end = record { rc = success; bytes = codes "c"; next_seq = 0 }

abbrev changed : Answer
changed = record { rc = vpd_changed; bytes = []; next_seq = 0 }

two_parts-Run : Run (part ∷ end ∷ [])
two_parts-Run = more refl (last refl)

changes-AllChanged : AllChanged (changed ∷ changed ∷ changed ∷ changed ∷ changed ∷ [])
changes-AllChanged = AllChanged.cons refl (
    AllChanged.cons refl
      (AllChanged.cons refl (AllChanged.cons refl (AllChanged.cons refl (AllChanged.nil)))))

restarted_data : get_vpd start (part ∷ changed ∷ part ∷ end ∷ []) ≡ finished (codes "abc")
unfolding get_vpd
restarted_data = refl

get_vpd-one_run_example :
    Straight [] (part ∷ changed ∷ part ∷ end ∷ []) (codes "abc")
    ⊎ Restarted (part ∷ changed ∷ part ∷ end ∷ []) (codes "abc")
get_vpd-one_run_example =
    get_vpd-one_run (part ∷ changed ∷ part ∷ end ∷ []) (codes "abc") restarted_data

get_vpd_survives_example :
    get_vpd start (
      (changed ∷ changed ∷ changed ∷ changed ∷ changed ∷ []) ++ ((part ∷ end ∷ []) ++ changed ∷ []))
    ≡ finished (contents (part ∷ end ∷ []))
get_vpd_survives_example =
    get_vpd_survives (changed ∷ changed ∷ changed ∷ changed ∷ changed ∷ []) (part ∷ end ∷ [])
      (changed ∷ []) changes-AllChanged (omega arith) two_parts-Run

get_vpd_never_gives_up_example :
    (r : Reading) × (get_vpd start (part ∷ changed ∷ part ∷ changed ∷ []) ≡ reading r)
get_vpd_never_gives_up_example =
    get_vpd_never_gives_up (part ∷ changed ∷ part ∷ changed ∷ [])
      (turn refl refl (turn refl refl Alternates.nil))
