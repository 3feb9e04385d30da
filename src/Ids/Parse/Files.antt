-- ===== src/Ids/Parse/Files.antt =====
-- A whole file, and what `DeviceLookup` reads of it.
use lsvpd.Base.{
  ℕ, zero, suc, ◌≤◌, ◌<◌, true, false, List, [], ◌∷◌, ◌++◌, some, Bytes, length, All, ◌≡◌, ◌∙◌,
  refl, arith, length-append, Bool-cases, inl, inr,
}
use lsvpd.Ids.Stream.{Stream, peek, get, putback}
use lsvpd.Ids.Parse.{
  SubDevice, Device, Manufacturer, rounds, read_subs, insert_sub, read_device, read_devices,
  read_manufacturer, insert_manufacturer, fill_manus, device_lookup,
}
use lsvpd.Ids.Parse.Lines.{
  at_text, IsWord, read_word-at_text, read_line-name, skip_blanks-name, skip_comments-word,
}
use lsvpd.Ids.Parse.RoundTrip.{
  SubText, IsSubText, sub_of, subs_text, insert_subs, read_subs-step, read_device-steps, peek-word,
  DeviceText, IsDeviceText, device_text, device_of, read_device-device_text, length-subs_text,
}
use lsvpd.Ids.Parse.Manufacturers.{
  devices_text, insert_known, insert_devices, EndsManufacturer, device_text-EndsDevice,
  read_devices-step, length-devices_text, ManufacturerText, IsManufacturerText, manufacturer_text,
  manufacturer_of, read_manufacturer-steps, read_manufacturer-manufacturer_text,
}

-- What is read, and the end of the file is met.
abbrev IsLast {ℓ} : {A : Type ℓ} → A × Stream → A → Type ℓ
IsLast p x = (s : Stream) × (p ≡ (x, s)) × (s.eof ≡ true)

read_subs-IsLast :
    (fuel : ℕ) (subs : List SubDevice) (ts : List SubText)
    → length ts < fuel
    → All IsSubText ts
    → IsLast (read_subs fuel (some 9) subs (at_text (subs_text ts []))) (insert_subs subs ts)
read_subs-IsLast zero subs ts l h = elim l [ ]
read_subs-IsLast (suc fuel) subs [] l h =
    (record { left = []; eof = true; fail = true }, unfold read_subs get peek putback in refl, refl)
read_subs-IsLast (suc fuel) subs (t ∷ ts) l h =
    let (s, e, f) = read_subs-IsLast fuel (insert_sub (sub_of t) subs) ts (omega (arith, l)) h.1 in
    (s, read_subs-step fuel subs t (subs_text ts []) h.0 ∙ e, f)

read_subs-first-IsLast :
    (ts : List SubText)
    → All IsSubText ts
    → let p = peek (at_text (subs_text ts [])) in
      IsLast (read_subs (rounds p.1) p.0 [] p.1) (insert_subs [] ts)
unfolding peek
read_subs-first-IsLast [] h =
    (record { left = []; eof = true; fail = false }, unfold read_subs in refl, refl)
read_subs-first-IsLast (t ∷ ts) h =
    read_subs-IsLast (rounds (at_text (subs_text (t ∷ ts) []))) [] (t ∷ ts)
      (omega (arith, length-subs_text (t ∷ ts) [])) h

-- The device at the end of the file.
read_device-IsLast :
    (t : DeviceText)
    → IsDeviceText t
    → IsLast (read_device (at_text (device_text t []))) (device_of t)
read_device-IsLast t (hi, hn, hs) =
    let after_line = subs_text t.subs [] in
    let after_id = b' ' ∷ b' ' ∷ (t.name ++ 10 ∷ after_line) in
    let (s, e, f) = read_subs-first-IsLast t.subs hs in
    (
      s,
      read_device-steps (device_text t []) (device_text t []) after_id (t.name ++ 10 ∷ after_line)
          after_line (peek (at_text after_line)).1 s t.id t.name (insert_subs [] t.subs)
          (skip_comments-word (length (device_text t [])) t.id after_id hi)
          (peek-word t.id after_id hi)
          (read_word-at_text [] t.id (b' ' ∷ (t.name ++ 10 ∷ after_line)) hi)
          (skip_blanks-name false t.name after_line hn) (read_line-name t.name after_line hn) refl
          e,
      f,
    )

read_devices-eof :
    (fuel : ℕ) (devs : List Device) (s : Stream)
    → s.eof ≡ true
    → IsLast (read_devices fuel devs s) devs
read_devices-eof zero devs s h = (s, unfold read_devices in refl, h)
read_devices-eof (suc fuel) devs s h = elim (Bool-cases s.fail) [
  | inl e ↦ (s, unfold read_devices in ground (arith, e), h)
  | inr e ↦ (record s { fail = true }, unfold read_devices peek in ground (arith, e, h), h)
]

read_devices-IsLast :
    (fuel : ℕ) (devs : List Device) (ts : List DeviceText)
    → length ts < fuel
    → All IsDeviceText ts
    → IsLast (read_devices fuel devs (at_text (devices_text ts []))) (insert_devices devs ts)
read_devices-IsLast zero devs ts l h = elim l [ ]
read_devices-IsLast (suc fuel) devs [] l h =
    (record { left = []; eof = true; fail = false }, unfold read_devices peek in refl, refl)
read_devices-IsLast (suc fuel) devs (t ∷ []) l h =
    let (s, e, f) = read_device-IsLast t h.0 in
    let (s', e', f') = read_devices-eof fuel (insert_known (device_of t) devs) s f in
    (s', read_devices-step fuel devs t [] s e ∙ e', f')
read_devices-IsLast (suc fuel) devs (t ∷ u ∷ ts) l h =
    let rest = devices_text (u ∷ ts) [] in
    let e =
      read_device-device_text t rest h.0 (device_text-EndsDevice u (devices_text ts []) h.1.0) in
    let (s', e', f') =
      read_devices-IsLast fuel (insert_known (device_of t) devs) (u ∷ ts) (omega (arith, l)) h.1 in
    (s', read_devices-step fuel devs t rest (at_text rest) e ∙ e', f')

read_manufacturer-IsLast :
    (t : ManufacturerText)
    → IsManufacturerText t
    → IsLast (read_manufacturer (at_text (manufacturer_text t []))) (manufacturer_of t)
read_manufacturer-IsLast t (hi, hn, hd) =
    let after_line = devices_text t.devices [] in
    let (s, e, f) =
      read_devices-IsLast (rounds (at_text after_line)) [] t.devices
        (omega (arith, length-devices_text t.devices [])) hd in
    (
      s,
      read_manufacturer-steps (manufacturer_text t []) (b' ' ∷ b' ' ∷ (t.name ++ 10 ∷ after_line))
          (t.name ++ 10 ∷ after_line) after_line s t.id t.name (insert_devices [] t.devices)
          (read_word-at_text [] t.id (b' ' ∷ (t.name ++ 10 ∷ after_line)) hi)
          (skip_blanks-name true t.name after_line hn) (read_line-name t.name after_line hn) e,
      f,
    )

-- The manufacturers of a file, and the map that they are inserted in, in order.
abbrev pub manufacturers_text : List ManufacturerText → Bytes
manufacturers_text [] = []
manufacturers_text (t ∷ ts) = manufacturer_text t (manufacturers_text ts)

abbrev pub insert_manufacturers : List Manufacturer → List ManufacturerText → List Manufacturer
insert_manufacturers manus [] = manus
insert_manufacturers manus (t ∷ ts) =
    insert_manufacturers (insert_manufacturer (manufacturer_of t) manus) ts

manufacturer_text-EndsManufacturer :
    (t : ManufacturerText) (rest : Bytes)
    → IsManufacturerText t
    → EndsManufacturer (manufacturer_text t rest)
manufacturer_text-EndsManufacturer t rest (hi, _, _) = first t.id hi
  where
    first :
        (w : Bytes)
        → IsWord w
        → EndsManufacturer (w ++ b' ' ∷ b' ' ∷ (t.name ++ 10 ∷ devices_text t.devices rest))
    first [] k = elim k [ ]
    first (c ∷ []) k = (k.0, refl, ground (arith, k.1), ground (arith, k.1))
    first (c ∷ d ∷ w) k = (k.0, ground (arith, k.2.0), ground (arith, k.1), ground (arith, k.1))

fill_manus-eof :
    (fuel : ℕ) (manus : List Manufacturer) (s : Stream)
    → s.eof ≡ true
    → fill_manus fuel manus s ≡ manus
unfolding fill_manus
fill_manus-eof zero manus s h = refl
fill_manus-eof (suc fuel) manus s h = ground (arith, h)

-- One manufacturer, in front of the first character of its id.
fill_manus-step :
    (fuel : ℕ) (manus : List Manufacturer) (text : Bytes) (m : Manufacturer) (s : Stream)
    → EndsManufacturer text
    → read_manufacturer (at_text text) ≡ (m, s)
    → fill_manus (suc fuel) manus (at_text text) ≡ fill_manus fuel (insert_manufacturer m manus) s
unfolding fill_manus peek
fill_manus-step fuel manus [] m s h e = elim h [ ]
fill_manus-step fuel manus (c ∷ []) m s h e = elim h [ ]
fill_manus-step fuel manus (c ∷ d ∷ text) m s h e = ground (arith, h.0, h.3, e)

fill_manus-manufacturers_text :
    (fuel : ℕ) (manus : List Manufacturer) (t : ManufacturerText) (ts : List ManufacturerText)
    → length ts < fuel
    → All IsManufacturerText (t ∷ ts)
    → fill_manus fuel manus (at_text (manufacturers_text (t ∷ ts)))
      ≡ insert_manufacturers manus (t ∷ ts)
fill_manus-manufacturers_text zero manus t ts l h = elim l [ ]
fill_manus-manufacturers_text (suc fuel) manus t [] l h =
    let (s, e, f) = read_manufacturer-IsLast t h.0 in
    fill_manus-step fuel manus (manufacturer_text t []) (manufacturer_of t) s
      (manufacturer_text-EndsManufacturer t [] h.0) e
    ∙ fill_manus-eof fuel (insert_manufacturer (manufacturer_of t) manus) s f
fill_manus-manufacturers_text (suc fuel) manus t (u ∷ ts) l h =
    let rest = manufacturers_text (u ∷ ts) in
    fill_manus-step fuel manus (manufacturer_text t rest) (manufacturer_of t) (at_text rest)
      (manufacturer_text-EndsManufacturer t rest h.0)
      (read_manufacturer-manufacturer_text t rest h.0
        (manufacturer_text-EndsManufacturer u (manufacturers_text ts) h.1.0))
    ∙ fill_manus-manufacturers_text fuel (insert_manufacturer (manufacturer_of t) manus) u ts
        (omega (arith, l)) h.1

length-manufacturers_text :
    (ts : List ManufacturerText) → length ts ≤ length (manufacturers_text ts)
length-manufacturers_text [] = omega arith
length-manufacturers_text (t ∷ ts) =
    let rest = manufacturers_text ts in
    let after_name = 10 ∷ devices_text t.devices rest in
    omega (
      arith,
      length-manufacturers_text ts,
      length-devices_text t.devices rest,
      length-append t.id (b' ' ∷ b' ' ∷ (t.name ++ after_name)),
      length-append t.name after_name,
    )

-- A file that is written in the format of pci.ids, with one manufacturer at least and no comment, is
-- read as its manufacturers, with their devices and the subsystems of those: of the entries with one
-- id in one map the first, and without a device whose id is `UNKNOWN_ID`.
pub device_lookup-manufacturers_text :
    (t : ManufacturerText) (ts : List ManufacturerText)
    → All IsManufacturerText (t ∷ ts)
    → device_lookup (manufacturers_text (t ∷ ts)) ≡ insert_manufacturers [] (t ∷ ts)
unfolding device_lookup
device_lookup-manufacturers_text t ts h =
    fill_manus-manufacturers_text (suc (length (manufacturers_text (t ∷ ts)))) [] t ts
      (omega (arith, length-manufacturers_text (t ∷ ts))) h
