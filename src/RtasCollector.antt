-- ===== src/RtasCollector.antt =====
-- `RtasCollector::rtasGetVPD` (src/internal/sys_interface/rtascollector.cpp). Its loop calls
-- librtas until it is told that the data is complete. The answers of librtas are the input; out of
-- memory is not modelled.
pub mod Result
pub mod Threshold
use lsvpd.Base.{ℕ, suc, ◌+◌, List, [], ◌∷◌, ◌++◌, ltb, if◌then◌else◌, Bytes}

-- The return codes that the switch tells apart.
pub data ReturnCode : Type 0 where
  success continue_ vpd_changed parameter_error hardware_error other : ReturnCode

-- One return of `rtas_get_vpd`: the code, the bytes in the buffer, and `nextSeq`.
pub record Answer : Type 0 where
  pub rc : ReturnCode
  pub bytes : Bytes
  pub next_seq : ℕ

-- The loop's variables. `filled` holds the buffers of the list before `current`.
pub record Reading : Type 0 where
  pub filled : List Bytes
  pub seq : ℕ
  pub changed : ℕ

-- `-RTAS_ERROR`, `-RTAS_PARAMETER_ERROR`, `-RTAS_HARDWARD_ERROR`
pub data Failure : Type 0 where
  rtas_error rtas_parameter_error rtas_hardware_error : Failure

pub data Progress : Type 0 where
  reading : Reading → Progress
  finished : Bytes → Progress
  failed : Failure → Progress

-- `VPD_CHANGED_THRESHOLD`
abbrev pub vpd_changed_threshold : ℕ
vpd_changed_threshold = 5

-- The copy of the buffers, one behind the other.
abbrev pub joined : List Bytes → Bytes
joined [] = []
joined (b ∷ bs) = b ++ joined bs

-- What the code does with one answer.
unfoldable pub handle : ReturnCode → Answer → Reading → Progress
handle success a r = finished (joined (r.filled ++ a.bytes ∷ []))
handle continue_ a r =
    reading (record { filled = r.filled ++ a.bytes ∷ []; seq = a.next_seq; changed = 0 })
handle vpd_changed a r =
    if ltb vpd_changed_threshold (r.changed + 1)
    then failed rtas_error
    else reading (record { filled = []; seq = 1; changed = r.changed + 1 })
handle parameter_error a r = failed rtas_parameter_error
handle hardware_error a r = failed rtas_hardware_error
handle other a r = failed rtas_error

abbrev pub start : Reading
start = record { filled = []; seq = 1; changed = 0 }

-- The loop over the answers; more of them are asked for while it is `reading`.
unfoldable pub get_vpd : Reading → List Answer → Progress
unfolding handle
get_vpd r [] = reading r
get_vpd r (a ∷ rest) = elim (handle a.rc a r) [
  | reading r' ↦ get_vpd r' rest
  | finished bytes ↦ finished bytes
  | failed f ↦ failed f
]
