-- ===== src/Ids/Parse/Manufacturers.antt =====
-- A manufacturer and its devices as the file writes them, and what `Manufacturer` reads there.
use lsvpd.Base.{
  ◌+◌, ℕ, zero, suc, ◌≤◌, ◌<◌, true, false, List, [], ◌∷◌, ◌++◌, ◌==◌, if◌then◌else◌, Bytes, length,
  All, ◌≡◌, ◌∙◌, refl, arith, length-append,
}
use lsvpd.Ids.Stream.{Stream, peek, get, read_word, read_line, id_number}
use lsvpd.Ids.Parse.{
  read_device, Device, Manufacturer, skip_blanks, rounds, insert_device, read_devices,
  read_manufacturer,
}
use lsvpd.Ids.Parse.Lines.{
  at_text, IsWord, IsName, read_word-at_text, read_line-name, skip_blanks-name,
}
use lsvpd.Ids.Parse.RoundTrip.{
  DeviceText, IsDeviceText, device_text, device_of, EndsDevice, read_device-device_text, subs_text,
  length-subs_text,
}

-- The lines of the devices, and the map that they are inserted in, in order.
abbrev pub devices_text : List DeviceText → Bytes → Bytes
devices_text [] rest = rest
devices_text (t ∷ ts) rest = 9 ∷ device_text t (devices_text ts rest)

abbrev pub insert_known : Device → List Device → List Device
insert_known d devs = if d.id == 0xffff then devs else insert_device d devs

abbrev pub insert_devices : List Device → List DeviceText → List Device
insert_devices devs [] = devs
insert_devices devs (t ∷ ts) = insert_devices (insert_known (device_of t) devs) ts

-- What follows the lines of a manufacturer: the line of another one.
abbrev pub EndsManufacturer : Bytes → Type 0
EndsManufacturer (c ∷ d ∷ rest) =
    ((c == b'#') ≡ false) × ((d == 9) ≡ false) × ((c == 9) ≡ false) × ((c == 10) ≡ false)
EndsManufacturer _ = ⊥

-- The line of a device does not go on with the one before it.
pub device_text-EndsDevice :
    (t : DeviceText) (rest : Bytes) → IsDeviceText t → EndsDevice (9 ∷ device_text t rest)
device_text-EndsDevice t rest (hi, _, _) = first t.id hi
  where
    first :
        (w : Bytes)
        → IsWord w
        → EndsDevice (9 ∷ w ++ b' ' ∷ b' ' ∷ (t.name ++ 10 ∷ subs_text t.subs rest))
    first [] k = elim k [ ]
    first (c ∷ w) k = (refl, ground (arith, k.1))

devices_text-EndsDevice :
    (ts : List DeviceText) (rest : Bytes)
    → All IsDeviceText ts
    → EndsManufacturer rest
    → EndsDevice (devices_text ts rest)
devices_text-EndsDevice [] [] h e = elim e [ ]
devices_text-EndsDevice [] (c ∷ []) h e = elim e [ ]
devices_text-EndsDevice [] (c ∷ d ∷ rest) h e = (e.0, e.1)
devices_text-EndsDevice (t ∷ ts) rest h e = device_text-EndsDevice t (devices_text ts rest) h.0

pub read_devices-step :
    (fuel : ℕ) (devs : List Device) (t : DeviceText) (rest : Bytes) (s : Stream)
    → read_device (at_text (device_text t rest)) ≡ (device_of t, s)
    → read_devices (suc fuel) devs (at_text (9 ∷ device_text t rest))
      ≡ read_devices fuel (insert_known (device_of t) devs) s
unfolding read_devices get peek
read_devices-step fuel devs t rest s e = rw e refl

read_devices-end :
    (fuel : ℕ) (devs : List Device) (c d : ℕ) (rest : Bytes)
    → EndsManufacturer (c ∷ d ∷ rest)
    → read_devices (suc fuel) devs (at_text (c ∷ d ∷ rest)) ≡ (devs, at_text (c ∷ d ∷ rest))
unfolding read_devices peek
read_devices-end fuel devs c d rest e = ground (arith, e.0, e.2, e.3)

read_devices-devices_text :
    (fuel : ℕ) (devs : List Device) (ts : List DeviceText) (rest : Bytes)
    → length ts < fuel
    → All IsDeviceText ts
    → EndsManufacturer rest
    → read_devices fuel devs (at_text (devices_text ts rest))
      ≡ (insert_devices devs ts, at_text rest)
read_devices-devices_text zero devs ts rest l h e = elim l [ ]
read_devices-devices_text (suc fuel) devs [] [] l h e = elim e [ ]
read_devices-devices_text (suc fuel) devs [] (c ∷ []) l h e = elim e [ ]
read_devices-devices_text (suc fuel) devs [] (c ∷ d ∷ rest) l h e =
    read_devices-end fuel devs c d rest e
read_devices-devices_text (suc fuel) devs (t ∷ ts) rest l h e =
    read_devices-step fuel devs t (devices_text ts rest) (at_text (devices_text ts rest))
      (read_device-device_text t (devices_text ts rest) h.0 (devices_text-EndsDevice ts rest h.1 e))
    ∙ read_devices-devices_text fuel (insert_known (device_of t) devs) ts rest (omega (arith, l))
        h.1 e

pub length-devices_text :
    (ts : List DeviceText) (rest : Bytes) → length ts + length rest ≤ length (devices_text ts rest)
length-devices_text [] rest = omega arith
length-devices_text (t ∷ ts) rest =
    let after_name = 10 ∷ subs_text t.subs (devices_text ts rest) in
    omega (
      arith,
      length-devices_text ts rest,
      length-subs_text t.subs (devices_text ts rest),
      length-append t.id (b' ' ∷ b' ' ∷ (t.name ++ after_name)),
      length-append t.name after_name,
    )

-- The manufacturer: its line, and the lines of its devices.
pub record ManufacturerText : Type 0 where
  pub id : Bytes
  pub name : Bytes
  pub devices : List DeviceText

abbrev pub IsManufacturerText : ManufacturerText → Type 0
IsManufacturerText t = IsWord t.id × IsName t.name × All IsDeviceText t.devices

abbrev pub manufacturer_text : ManufacturerText → Bytes → Bytes
manufacturer_text t rest = t.id ++ b' ' ∷ b' ' ∷ (t.name ++ 10 ∷ devices_text t.devices rest)

abbrev pub manufacturer_of : ManufacturerText → Manufacturer
manufacturer_of t = record {
  id = id_number t.id;
  name = t.name;
  devices = insert_devices [] t.devices;
}

pub read_manufacturer-steps :
    (t1 t2 t3 t4 : Bytes) (s5 : Stream) (w name : Bytes) (devs : List Device)
    → read_word [] (at_text t1) ≡ (w, at_text t2)
    → skip_blanks true (rounds (at_text t2)) (at_text t2) ≡ at_text t3
    → read_line (at_text t3) ≡ (name, at_text t4)
    → read_devices (rounds (at_text t4)) [] (at_text t4) ≡ (devs, s5)
    → read_manufacturer (at_text t1)
      ≡ (record { id = id_number w; name = name; devices = devs }, s5)
unfolding read_manufacturer
read_manufacturer-steps t1 t2 t3 t4 s5 w name devs a b c d = rw (a, b, c, d) refl

-- A manufacturer that is written in the format of pci.ids, with the lines of its devices and of their
-- subsystems, is read back with its id, its name and its devices, of those with one id the first, and
-- without a device whose id is `UNKNOWN_ID`. The stream then stands in front of the line of the next
-- manufacturer, if that is what follows.
pub read_manufacturer-manufacturer_text :
    (t : ManufacturerText) (rest : Bytes)
    → IsManufacturerText t
    → EndsManufacturer rest
    → read_manufacturer (at_text (manufacturer_text t rest)) ≡ (manufacturer_of t, at_text rest)
read_manufacturer-manufacturer_text t rest (hi, hn, hd) e =
    let after_line = devices_text t.devices rest in
    read_manufacturer-steps (manufacturer_text t rest) (b' ' ∷ b' ' ∷ (t.name ++ 10 ∷ after_line))
      (t.name ++ 10 ∷ after_line) after_line (at_text rest) t.id t.name
      (insert_devices [] t.devices)
      (read_word-at_text [] t.id (b' ' ∷ (t.name ++ 10 ∷ after_line)) hi)
      (skip_blanks-name true t.name after_line hn) (read_line-name t.name after_line hn)
      (read_devices-devices_text (rounds (at_text after_line)) [] t.devices rest
        (omega (arith, length-devices_text t.devices rest)) hd e)
