-- ===== src/Ids/Lookup.antt =====
-- The lookups: `getManufacturer`, `getDevice`, `getSubDevice` and the three functions `getName`.
use lsvpd.Base.{
  ℕ, Bool, false, List, [], ◌∷◌, Option, none, some, ◌==◌, if◌then◌else◌, Bytes, codes,
}
use lsvpd.Ids.Parse.{SubDevice, Device, Manufacturer}

abbrev pub unknown_id : ℕ
unknown_id = 0xffff

abbrev default_sub_dev : SubDevice
default_sub_dev = record { manu_id = some unknown_id; id = some unknown_id; name = codes "Unknown" }

abbrev default_dev : Device
default_dev = record { id = unknown_id; name = codes "Unknown"; sub_devs = [] }

abbrev default_manufacturer : Manufacturer
default_manufacturer = record { id = unknown_id; name = codes "Unknown"; devices = [] }

unfoldable pub find_manufacturer : List Manufacturer → ℕ → Manufacturer
find_manufacturer [] id = default_manufacturer
find_manufacturer (m ∷ ms) id = if m.id == id then m else find_manufacturer ms id

unfoldable pub get_manufacturer : List Manufacturer → ℕ → Manufacturer
unfolding find_manufacturer
get_manufacturer manus id =
    if id == unknown_id then default_manufacturer else find_manufacturer manus id

unfoldable pub find_device : List Device → ℕ → Device
find_device [] id = default_dev
find_device (d ∷ ds) id = if d.id == id then d else find_device ds id

-- The code tests the id of the manufacturer, not the argument.
unfoldable pub get_device : Manufacturer → ℕ → Device
unfolding find_device
get_device m id = if m.id == unknown_id then default_dev else find_device m.devices id

abbrev is_sub : ℕ → Option ℕ → Bool
is_sub id none = false
is_sub id (some i) = i == id

unfoldable pub find_sub_device : List SubDevice → ℕ → SubDevice
find_sub_device [] id = default_sub_dev
find_sub_device (d ∷ ds) id = if is_sub id d.id then d else find_sub_device ds id

unfoldable pub get_sub_device : Device → ℕ → SubDevice
unfolding find_sub_device
get_sub_device d id = if id == unknown_id then default_sub_dev else find_sub_device d.sub_devs id

unfoldable pub get_manufacturer_name : List Manufacturer → ℕ → Bytes
unfolding get_manufacturer
get_manufacturer_name manus m = (get_manufacturer manus m).name

unfoldable pub get_device_name : List Manufacturer → ℕ → ℕ → Bytes
unfolding get_manufacturer get_device
get_device_name manus m d = (get_device (get_manufacturer manus m) d).name

unfoldable pub get_sub_device_name : List Manufacturer → ℕ → ℕ → ℕ → Bytes
unfolding get_manufacturer get_device get_sub_device
get_sub_device_name manus m d s = (get_sub_device (get_device (get_manufacturer manus m) d) s).name
