-- ===== src/Platform.antt =====
-- The platform and the service processor (src/internal/sys_interface/platformcollector.cpp and
-- src/include/platformcollector.hpp). The files that the code looks at are arguments: the lines of
-- /proc/cpuinfo if it opens, and whether each device-tree node exists.
pub mod Laws
use lsvpd.Base.{
  ℕ, Bool, true, false, ◌||◌, ◌&&◌, List, [], ◌∷◌, Option, none, some, ◌==◌, if◌then◌else◌, Bytes,
  codes, contains_text, isspace, c_str,
}

-- `enum platform`
pub data PlatformType : Type 0 where
  pf_null pf_powervm_lpar pf_opal pf_pseries_kvm_guest pf_error : PlatformType

-- `enum service_processor_type`
pub data ServiceProcessor : Type 0 where
  pf_sp_null pf_sp_fsp pf_sp_bmc pf_sp_error : ServiceProcessor

-- The static members of `PlatformCollector`.
pub record PlatformState : Type 0 where
  pub platform_type : PlatformType
  pub platform_sp_type : ServiceProcessor

-- The tests on a line, in the order of the code.
pub data LineKind : Type 0 where
  powernv emulated pseries other : LineKind

unfoldable pub line_kind : Bytes → LineKind
unfolding contains_text c_str
line_kind line =
    let text = c_str line in
    if contains_text (codes "PowerNV") text
    then powernv
    else if contains_text (codes "pSeries (emulated by qemu)") text
    then emulated
    else if contains_text (codes "pSeries") text
    then pseries
    else other

-- The loop over the lines: `break`, or on to the next.
unfoldable pub scan_lines : PlatformType → List Bytes → PlatformType
scan_lines p [] = p
scan_lines p (line ∷ lines) = elim (line_kind line) [
  | powernv ↦ pf_opal
  | emulated ↦ pf_pseries_kvm_guest
  | pseries ↦ scan_lines pf_powervm_lpar lines
  | other ↦ scan_lines p lines
]

or_error : PlatformType → PlatformType
or_error pf_null = pf_error
or_error p = p

unfoldable pub get_sp_type : Bool → Bool → ServiceProcessor
get_sp_type bmc fsp = if bmc then pf_sp_bmc else if fsp then pf_sp_fsp else pf_sp_error

unfoldable pub get_platform : Option (List Bytes) → Bool → Bool → PlatformState → PlatformState
unfolding or_error scan_lines get_sp_type
get_platform none bmc fsp s = record s { platform_type = pf_error }
get_platform (some lines) bmc fsp s = record {
  platform_type = or_error (scan_lines s.platform_type lines);
  platform_sp_type = get_sp_type bmc fsp;
}

-- `get_platform_name`, after its call of `get_platform`.
unfoldable pub platform_name : PlatformType → Bytes
platform_name pf_opal = codes "OPAL"
platform_name pf_powervm_lpar = codes "PowerVM pSeries LPAR"
platform_name pf_pseries_kvm_guest = codes "pSeries KVM Guest"
platform_name pf_null = codes "Unknown"
platform_name pf_error = codes "Unknown"

sp_or_probe : ServiceProcessor → Bool → Bool → ServiceProcessor
unfolding get_sp_type
sp_or_probe pf_sp_null bmc fsp = get_sp_type bmc fsp
sp_or_probe sp bmc fsp = sp

is_bmc : ServiceProcessor → Bool
is_bmc pf_sp_bmc = true
is_bmc _ = false

is_fsp : ServiceProcessor → Bool
is_fsp pf_sp_fsp = true
is_fsp _ = false

-- `isBMCBasedSystem` and `isFSPBasedSystem`: the answer, and the state after the lazy probe.
unfoldable pub is_bmc_based_system : Bool → Bool → PlatformState → Bool × PlatformState
unfolding sp_or_probe is_bmc
is_bmc_based_system bmc fsp s =
    let sp = sp_or_probe s.platform_sp_type bmc fsp in
    (is_bmc sp, record s { platform_sp_type = sp })

unfoldable pub is_fsp_based_system : Bool → Bool → PlatformState → Bool × PlatformState
unfolding sp_or_probe is_fsp
is_fsp_based_system bmc fsp s =
    let sp = sp_or_probe s.platform_sp_type bmc fsp in
    (is_fsp sp, record s { platform_sp_type = sp })

-- `isPlatformRTAS` and `isPlatformOPAL` of the device-tree collector.
unfoldable pub is_platform_rtas : PlatformType → Bool
is_platform_rtas pf_powervm_lpar = true
is_platform_rtas _ = false

unfoldable pub is_platform_opal : PlatformType → Bool
is_platform_opal pf_opal = true
is_platform_opal _ = false
