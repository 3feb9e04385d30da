-- ===== src/DeviceTree/SystemVpd.antt =====
-- `parseSysVPD`, which reads the VPD of the whole system. It has a loop of its own.
pub mod Reading
use lsvpd.Base.{
  ℕ, zero, suc, ◌-◌, Bool, true, false, List, [], ◌∷◌, ◌++◌, Option, none, some, ◌==◌, ltb,
  if◌then◌else◌, Bytes, c_str, length, take, drop,
}
use lsvpd.Platform.{PlatformType}
use lsvpd.Vpd.{SystemCall, SystemField}
use lsvpd.Vpd.Fields.{set_system_field}
use lsvpd.Vpd.Sanitize.{sanitize_vpd_field}
use lsvpd.DeviceTree.Buffer.{Host, Outcome, ok, fault, Header, parse_vpd_header}

-- The name goes to the description of the system, which `setVPDField` does not write.
pub data SystemEffect : Type 0 where
  set_description : Bytes → ℕ → SystemEffect
  stored : SystemCall → SystemEffect

abbrev all_stored : List SystemCall → List SystemEffect
all_stored [] = []
all_stored (c ∷ cs) = stored c ∷ all_stored cs

abbrev pub then_effects :
    List SystemEffect → Outcome (List SystemEffect) → Outcome (List SystemEffect)
then_effects es (ok fs) = ok (es ++ fs)
then_effects es fault = fault

abbrev pub system_record : ℕ → ℕ → Bytes → List SystemEffect
system_record k₀ k₁ val =
    all_stored (set_system_field (c_str (k₀ ∷ k₁ ∷ [])) (sanitize_vpd_field val))

-- The loop: neither the three bytes of a record nor its value is held against the end.
unfoldable pub parse_sys_records : ℕ → Bytes → ℕ → Outcome (List SystemEffect)
parse_sys_records zero buf left = ok []
parse_sys_records (suc fuel) buf zero = ok []
parse_sys_records (suc fuel) [] (suc left) = fault
parse_sys_records (suc fuel) (c ∷ []) (suc left) = if c == 0x78 then ok [] else fault
parse_sys_records (suc fuel) (c ∷ d ∷ []) (suc left) = if c == 0x78 then ok [] else fault
parse_sys_records (suc fuel) (k₀ ∷ k₁ ∷ len ∷ buf) (suc left) =
    let rest =
      then_effects (system_record k₀ k₁ (take len buf))
        (parse_sys_records fuel (drop len buf) (suc left - 3 - len)) in
    if k₀ == 0x78 then ok [] else if ltb (length buf) len then fault else rest

abbrev name_effects : Option Bytes → List SystemEffect
name_effects none = []
name_effects (some name) = set_description name 60 ∷ []

unfoldable pub sys_body : Header → Outcome (List SystemEffect)
sys_body h =
    if h.size == 0
    then ok []
    else then_effects (name_effects h.fru_name) (parse_sys_records h.left h.records h.left)

unfoldable pub parse_sys_vpd : Host → PlatformType → Bytes → Outcome (List SystemEffect)
unfolding parse_vpd_header
parse_sys_vpd host p buf = elim (parse_vpd_header host p buf) [ fault ↦ fault | ok h ↦ sys_body h ]
