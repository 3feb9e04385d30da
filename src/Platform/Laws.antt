-- ===== src/Platform/Laws.antt =====
-- How the lines of /proc/cpuinfo decide the platform.
use lsvpd.Base.{
  Bool, true, false, ◌&&◌, List, [], ◌∷◌, ◌++◌, some, if◌then◌else◌, Bytes, All, ◌≡◌, ◌≢◌, refl,
  arith, ◌⊎◌, append-nil, not,
}
use lsvpd.Platform.{
  PlatformType, pf_null, pf_powervm_lpar, pf_opal, pf_pseries_kvm_guest, pf_error, LineKind,
  powernv, emulated, pseries, line_kind, scan_lines, get_platform, PlatformState,
  is_bmc_based_system, is_fsp_based_system,
}

-- No line before the end of the list names the firmware or qemu.
abbrev pub IsPlain : Bytes → Type 0
IsPlain line = (line_kind line ≢ powernv) × (line_kind line ≢ emulated)

abbrev pub some_pseries : List Bytes → Bool
some_pseries [] = false
some_pseries (line ∷ lines) = elim (line_kind line) [ pseries ↦ true | _ ↦ some_pseries lines ]

scan_lines-plain :
    (p : PlatformType) (lines rest : List Bytes)
    → All IsPlain lines
    → scan_lines p (lines ++ rest)
      ≡ scan_lines (if some_pseries lines then pf_powervm_lpar else p) rest
unfolding scan_lines
scan_lines-plain p [] rest h = refl
scan_lines-plain p (line ∷ lines) rest h = ground (
  arith,
  h.0.0,
  h.0.1,
  scan_lines-plain pf_powervm_lpar lines rest h.1,
  scan_lines-plain p lines rest h.1,
)

scan_lines-end :
    (p : PlatformType) (lines : List Bytes)
    → All IsPlain lines
    → scan_lines p lines ≡ (if some_pseries lines then pf_powervm_lpar else p)
unfolding scan_lines
scan_lines-end p lines h = rw append-nil at (scan_lines-plain p lines [] h)

-- What a line that decides stands for.
abbrev pub decision : LineKind → PlatformType
decision powernv = pf_opal
decision _ = pf_pseries_kvm_guest

-- The first line that names PowerNV or qemu decides, whatever stands in the others.
pub get_platform_decided :
    (lines rest : List Bytes) (line : Bytes) (bmc fsp : Bool) (s : PlatformState)
    → All IsPlain lines
    → (line_kind line ≡ powernv) ⊎ (line_kind line ≡ emulated)
    → (get_platform (some (lines ++ line ∷ rest)) bmc fsp s).platform_type
      ≡ decision (line_kind line)
unfolding get_platform
get_platform_decided lines rest line bmc fsp s h k =
    rw (scan_lines-plain s.platform_type lines (line ∷ rest) h)
      (unfold scan_lines in ground (arith, k))

-- With no such line the platform is an LPAR if a line names pSeries, and unknown if none does.
pub get_platform_plain :
    (lines : List Bytes) (bmc fsp : Bool) (s : PlatformState)
    → All IsPlain lines
    → s.platform_type ≡ pf_null
    → (get_platform (some lines) bmc fsp s).platform_type
      ≡ (if some_pseries lines then pf_powervm_lpar else pf_error)
unfolding get_platform
get_platform_plain lines bmc fsp s h n =
    rw (scan_lines-end s.platform_type lines h, n) (ground arith)

-- The two service processors exclude one another, and the BMC node wins.
pub service_processor_exclusive :
    (lines : List Bytes) (bmc fsp bmc' fsp' : Bool) (s : PlatformState)
    → let s' = get_platform (some lines) bmc fsp s in
      ((is_bmc_based_system bmc' fsp' s').0 ≡ bmc)
      × ((is_fsp_based_system bmc' fsp' s').0 ≡ (not bmc && fsp))
unfolding get_platform is_bmc_based_system is_fsp_based_system
service_processor_exclusive lines bmc fsp bmc' fsp' s = ground arith
