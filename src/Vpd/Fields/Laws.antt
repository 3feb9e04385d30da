-- ===== src/Vpd/Fields/Laws.antt =====
-- What `setVPDField` keeps of a keyword and its value.
use lsvpd.Base.{◌≡◌, arith, Bytes, All}
use lsvpd.Vpd.{Call, set_value, add_device_specific, add_user_data}
use lsvpd.Vpd.Fields.{set_other_field, set_named_specific, set_vpd_field}

-- The call stores `val` as it is, under `key` if it stores a keyword, at level 90.
abbrev pub Carries : Bytes → Bytes → Call → Type 0
Carries key val (set_value f v level) = (v ≡ val) × (level ≡ 90)
Carries key val (add_device_specific k name v level) = (k ≡ key) × (v ≡ val) × (level ≡ 90)
Carries key val (add_user_data k name v level flag) = (k ≡ key) × (v ≡ val) × (level ≡ 90)

set_other_field-Carries : (key val : Bytes) → All (Carries key val) (set_other_field key val)
unfolding set_other_field
set_other_field-Carries key val = ground arith

set_named_specific-Carries : (key val : Bytes) → All (Carries key val) (set_named_specific key val)
unfolding set_named_specific
set_named_specific-Carries key val = ground (arith, set_other_field-Carries key val)

-- No call changes the value or its keyword.
pub set_vpd_field-Carries : (key val : Bytes) → All (Carries key val) (set_vpd_field key val)
unfolding set_vpd_field
set_vpd_field-Carries key val = ground (arith, set_named_specific-Carries key val)
