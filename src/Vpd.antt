-- ===== src/Vpd.antt =====
-- The vital product data of a device, as the collectors write it
-- (src/internal/sys_interface/icollector.cpp).
-- `Component` and `System` are classes of libvpd. A collector only calls their setters, so what a
-- collector does to one of them is the list of those calls, in order: `Call` and `SystemCall`.
pub mod Fields
pub mod Fru
pub mod Sanitize
use lsvpd.Base.{ℕ, Bool, Bytes}

-- The data items of libvpd's `Component` that a collector writes.
pub data Field : Type 0 where
  eng_change_level fru part_number firmware_level firmware_version serial_number : Field
  manufacturer_id manufacturer model feature_code record_type physical_location : Field
  micro_code_image plant_mfg keyword_version description second_location cd_field : Field
  net_addr : Field

-- A call on a `Component`: `item.setValue(val, level)`, `addDeviceSpecific(key, name, val, level)`
-- and `addUserData(key, name, val, level, flag)`.
pub data Call : Type 0 where
  set_value : Field → Bytes → ℕ → Call
  add_device_specific : Bytes → Bytes → Bytes → ℕ → Call
  add_user_data : Bytes → Bytes → Bytes → ℕ → Bool → Call

-- The data items of libvpd's `System`.
pub data SystemField : Type 0 where
  brand os processor_id machine_type feature_code flag_field record_type suid : SystemField
  keyword_version serial_num1 : SystemField

pub data SystemCall : Type 0 where
  set_value : SystemField → Bytes → ℕ → SystemCall
  add_device_specific : Bytes → Bytes → Bytes → ℕ → SystemCall
