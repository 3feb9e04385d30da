-- ===== src/Vpd/Fields.antt =====
-- The two functions `ICollector::setVPDField`, which store a keyword of the VPD in its place.
pub mod Laws
use lsvpd.Base.{ℕ, String, Bool, true, ◌||◌, List, [], ◌∷◌, ◌==◌, if◌then◌else◌, Bytes, codes, same}
use lsvpd.Vpd.{
  Field, Call, set_value, add_device_specific, add_user_data, SystemField, SystemCall,
  eng_change_level, fru, part_number, firmware_level, firmware_version, serial_number,
  manufacturer_id, manufacturer, model, physical_location, micro_code_image, plant_mfg, description,
  brand, os, processor_id, machine_type, flag_field, suid, serial_num1,
}

abbrev is : Bytes → String → Bool
is key name = same key (codes name)

-- `key[ 0 ]`, which is the NUL at the end of an empty string.
abbrev pub first_char : Bytes → ℕ
first_char [] = 0
first_char (c ∷ cs) = c

abbrev field : Field → Bytes → List Call
field f val = set_value f val 90 ∷ []

abbrev specific : Bytes → String → Bytes → List Call
specific key name val = add_device_specific key (codes name) val 90 ∷ []

-- The branches on the first letter, and those behind them.
unfoldable pub set_other_field : Bytes → Bytes → List Call
set_other_field key val =
    if first_char key == b'U'
    then add_user_data key (codes "User Data") val 90 true ∷ []
    else if first_char key == b'Z'
    then specific key "Device Specific" val
    else if is key "CL"
    then specific key "Firmware" val
    else if first_char key == b'C'
    then specific key "Device Specific" val
    else if first_char key == b'Y'
    then specific key "Device Specific" val
    else if first_char key == b'H'
    then specific key "Device Specific" val
    else if first_char key == b'B'
    then specific key "Device Specific" val
    else if first_char key == b'P'
    then specific key "Device Specific" val
    else if is key "AN"
    then specific key "Final Assembly PN" val
    else if is key "ID"
    then set_value description val 90 ∷ specific key "Device Specific" val
    else if is key "FR"
    then specific key "Device Specific" val
    else []

-- The branches that name a device-specific record.
unfoldable pub set_named_specific : Bytes → Bytes → List Call
unfolding set_other_field
set_named_specific key val =
    if is key "SZ"
    then specific key "Size" val
    else if is key "CC"
    then specific key "Customer Card ID Number" val
    else if is key "PR"
    then specific key "Power Control" val
    else if is key "ML"
    then specific key "Microcode Level" val
    else if is key "MG"
    then specific key "Microcode Build Date" val
    else if is key "ME"
    then specific key "Update Access Key Exp Date" val
    else if is key "CE"
    then specific key "CCIN Extension" val
    else if is key "CT"
    then specific key "Card Type" val
    else if is key "HW"
    then specific key "Hardware Version" val
    else if is key "VN"
    then specific key "Vendor" val
    else if is key "MB"
    then specific key "Build Date" val
    else set_other_field key val

-- `setVPDField(Component *, key, val)`: the branches that fill a data item.
unfoldable pub set_vpd_field : Bytes → Bytes → List Call
unfolding set_named_specific
set_vpd_field key val =
    if is key "EC"
    then field eng_change_level val
    else if is key "FN"
    then field fru val
    else if is key "PN" || is key "VP"
    then field part_number val
    else if is key "RL"
    then field firmware_level val
    else if is key "RM"
    then field firmware_version val
    else if is key "SN" || is key "VS"
    then field serial_number val
    else if is key "MN"
    then field manufacturer_id val
    else if is key "MF"
    then field manufacturer val
    else if is key "TM"
    then field model val
    else if is key "FN"
    then field fru val
    else if is key "FC"
    then field Field.feature_code val
    else if is key "RT"
    then field Field.record_type val
    else if is key "YL"
    then field physical_location val
    else if is key "MI"
    then field micro_code_image val
    else if is key "SE"
    then field plant_mfg val
    else if is key "VK"
    then field Field.keyword_version val
    else if is key "DR"
    then field description val
    else set_named_specific key val

abbrev system_field : SystemField → Bytes → List SystemCall
system_field f val = SystemCall.set_value f val 70 ∷ []

-- `setVPDField(System *, key, val)`
unfoldable pub set_system_field : Bytes → Bytes → List SystemCall
set_system_field key val =
    if is key "BR"
    then system_field brand val
    else if is key "OS"
    then system_field os val
    else if is key "PI"
    then system_field processor_id val
    else if is key "TM"
    then system_field machine_type val
    else if is key "FC"
    then system_field SystemField.feature_code val
    else if is key "FG"
    then system_field flag_field val
    else if is key "RT"
    then system_field SystemField.record_type val
    else if is key "SU"
    then system_field suid val
    else if is key "VK"
    then system_field SystemField.keyword_version val
    else if is key "SE"
    then SystemCall.set_value serial_num1 val 70 ∷ system_field processor_id val
    else if is key "MU"
    then SystemCall.add_device_specific key (codes "UUID") val 90 ∷ []
    else SystemCall.add_device_specific key (codes "System Specific") val 90 ∷ []
