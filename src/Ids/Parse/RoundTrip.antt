-- ===== src/Ids/Parse/RoundTrip.antt =====
-- A device and its subsystems as the file writes them, and what `Device` reads there.
use lsvpd.Base.{
  ℕ, zero, suc, ◌+◌, ◌≤◌, ◌<◌, false, List, [], ◌∷◌, ◌++◌, Option, some, ◌==◌, Bytes, length, All,
  ◌≡◌, ◌∙◌, refl, arith, length-append,
}
use lsvpd.Ids.Stream.{Stream, peek, get, putback, read_word, read_line, id_number}
use lsvpd.Ids.Parse.{
  SubDevice, Device, skip_comments, skip_blanks, rounds, sub_id, read_sub_device, insert_sub,
  read_subs, read_device,
}
use lsvpd.Ids.Parse.Lines.{
  at_text, IsWord, IsName, read_word-at_text, read_word-blank, read_line-name, skip_blanks-name,
  skip_comments-word,
}

-- The words and the name on the line of a subsystem, and the line, with what follows it.
pub record SubText : Type 0 where
  pub vendor : Bytes
  pub id : Bytes
  pub name : Bytes

abbrev pub IsSubText : SubText → Type 0
IsSubText t = IsWord t.vendor × IsWord t.id × IsName t.name

abbrev pub sub_text : SubText → Bytes → Bytes
sub_text t rest = t.vendor ++ b' ' ∷ (t.id ++ b' ' ∷ b' ' ∷ (t.name ++ 10 ∷ rest))

abbrev pub sub_of : SubText → SubDevice
sub_of t = record { manu_id = some (id_number t.vendor); id = some (id_number t.id); name = t.name }

sub_id-word :
    (old text w : Bytes) (s : Stream)
    → read_word old (at_text text) ≡ (w, s)
    → sub_id old (at_text text) ≡ (some (id_number w), w, s)
unfolding sub_id
sub_id-word old text w s h = rw h refl

-- The constructor, by what each of its reads gives; none of them fails.
read_sub_device-steps :
    (t0 t1 t2 t3 t4 : Bytes) (s5 : Stream) (m i : Option ℕ) (v w name : Bytes)
    → skip_comments (rounds (at_text t0)) (at_text t0) ≡ at_text t1
    → sub_id [] (at_text t1) ≡ (m, v, at_text t2)
    → sub_id v (at_text t2) ≡ (i, w, at_text t3)
    → skip_blanks false (rounds (at_text t3)) (at_text t3) ≡ at_text t4
    → read_line (at_text t4) ≡ (name, s5)
    → read_sub_device (at_text t0) ≡ (record { manu_id = m; id = i; name = name }, s5)
unfolding read_sub_device
read_sub_device-steps t0 t1 t2 t3 t4 s5 m i v w name a b c d e = rw (a, b, c, d, e) refl

read_sub_device-sub_text :
    (t : SubText) (rest : Bytes)
    → IsSubText t
    → read_sub_device (at_text (sub_text t rest)) ≡ (sub_of t, at_text rest)
read_sub_device-sub_text t rest (hv, hi, hn) =
    let after_id = b' ' ∷ b' ' ∷ (t.name ++ 10 ∷ rest) in
    let after_vendor = b' ' ∷ (t.id ++ after_id) in
    read_sub_device-steps (sub_text t rest) (sub_text t rest) after_vendor after_id
      (t.name ++ 10 ∷ rest) (at_text rest) (some (id_number t.vendor)) (some (id_number t.id))
      t.vendor t.id t.name (skip_comments-word (length (sub_text t rest)) t.vendor after_vendor hv)
      (sub_id-word [] (sub_text t rest) t.vendor (at_text after_vendor)
        (read_word-at_text [] t.vendor (t.id ++ after_id) hv))
      (sub_id-word t.vendor after_vendor t.id (at_text after_id) (
        read_word-blank t.vendor (t.id ++ after_id)
        ∙ read_word-at_text t.vendor t.id (b' ' ∷ (t.name ++ 10 ∷ rest)) hi))
      (skip_blanks-name false t.name rest hn) (read_line-name t.name rest hn)

-- The lines of the subsystems, and the map that they are inserted in, in order.
abbrev pub subs_text : List SubText → Bytes → Bytes
subs_text [] rest = rest
subs_text (t ∷ ts) rest = 9 ∷ 9 ∷ sub_text t (subs_text ts rest)

abbrev pub insert_subs : List SubDevice → List SubText → List SubDevice
insert_subs subs [] = subs
insert_subs subs (t ∷ ts) = insert_subs (insert_sub (sub_of t) subs) ts

-- What follows the lines of a device: no further subsystem, and no comment.
abbrev pub EndsDevice : Bytes → Type 0
EndsDevice (c ∷ d ∷ rest) = ((c == b'#') ≡ false) × ((d == 9) ≡ false)
EndsDevice _ = ⊥

-- One line of a subsystem, and the end of the device, when `next` is a tab.
pub read_subs-step :
    (fuel : ℕ) (subs : List SubDevice) (t : SubText) (rest : Bytes)
    → IsSubText t
    → read_subs (suc fuel) (some 9) subs (at_text (9 ∷ 9 ∷ sub_text t rest))
      ≡ read_subs fuel (some 9) (insert_sub (sub_of t) subs) (at_text rest)
unfolding read_subs get peek
read_subs-step fuel subs t rest h = rw (read_sub_device-sub_text t rest h) refl

read_subs-end :
    (fuel : ℕ) (subs : List SubDevice) (c d : ℕ) (rest : Bytes)
    → (d == 9) ≡ false
    → read_subs (suc fuel) (some 9) subs (at_text (c ∷ d ∷ rest)) ≡ (subs, at_text (c ∷ d ∷ rest))
unfolding read_subs get peek putback
read_subs-end fuel subs c d rest h = ground (arith, h)

read_subs-subs_text :
    (fuel : ℕ) (subs : List SubDevice) (ts : List SubText) (rest : Bytes)
    → length ts < fuel
    → All IsSubText ts
    → EndsDevice rest
    → read_subs fuel (some 9) subs (at_text (subs_text ts rest))
      ≡ (insert_subs subs ts, at_text rest)
read_subs-subs_text zero subs ts rest l h e = elim l [ ]
read_subs-subs_text (suc fuel) subs [] [] l h e = elim e [ ]
read_subs-subs_text (suc fuel) subs [] (c ∷ []) l h e = elim e [ ]
read_subs-subs_text (suc fuel) subs [] (c ∷ d ∷ rest) l h e = read_subs-end fuel subs c d rest e.1
read_subs-subs_text (suc fuel) subs (t ∷ ts) rest l h e =
    read_subs-step fuel subs t (subs_text ts rest) h.0
    ∙ read_subs-subs_text fuel (insert_sub (sub_of t) subs) ts rest (omega (arith, l)) h.1 e

-- The device: its line, and the lines of its subsystems.
pub record DeviceText : Type 0 where
  pub id : Bytes
  pub name : Bytes
  pub subs : List SubText

abbrev pub IsDeviceText : DeviceText → Type 0
IsDeviceText t = IsWord t.id × IsName t.name × All IsSubText t.subs

abbrev pub device_text : DeviceText → Bytes → Bytes
device_text t rest = t.id ++ b' ' ∷ b' ' ∷ (t.name ++ 10 ∷ subs_text t.subs rest)

abbrev pub device_of : DeviceText → Device
device_of t = record { id = id_number t.id; name = t.name; sub_devs = insert_subs [] t.subs }

pub length-subs_text :
    (ts : List SubText) (rest : Bytes) → length ts + length rest ≤ length (subs_text ts rest)
length-subs_text [] rest = omega arith
length-subs_text (t ∷ ts) rest =
    let after_name = 10 ∷ subs_text ts rest in
    let after_id = b' ' ∷ b' ' ∷ (t.name ++ after_name) in
    omega (
      arith,
      length-subs_text ts rest,
      length-append t.vendor (b' ' ∷ (t.id ++ after_id)),
      length-append t.id after_id,
      length-append t.name after_name,
    )

-- The first subsystem is met with `next` as what was looked at.
read_subs-first :
    (ts : List SubText) (rest : Bytes)
    → All IsSubText ts
    → EndsDevice rest
    → read_subs
        (rounds (at_text (subs_text ts rest)))
        (peek (at_text (subs_text ts rest))).0
        []
        (at_text (subs_text ts rest))
      ≡ (insert_subs [] ts, at_text rest)
unfolding peek
read_subs-first [] [] h e = elim e [ ]
read_subs-first [] (c ∷ []) h e = elim e [ ]
read_subs-first [] (c ∷ d ∷ rest) h e = unfold read_subs get putback in ground (arith, e.0, e.1)
read_subs-first (t ∷ ts) rest h e =
    read_subs-subs_text (rounds (at_text (subs_text (t ∷ ts) rest))) [] (t ∷ ts) rest
      (omega (arith, length-subs_text (t ∷ ts) rest)) h e

-- Looking at the next character takes none away.
pub peek-word : (w r : Bytes) → IsWord w → (peek (at_text (w ++ r))).1 ≡ at_text (w ++ r)
unfolding peek
peek-word [] r h = elim h [ ]
peek-word (c ∷ w) r h = refl

peek-subs_text :
    (ts : List SubText) (rest : Bytes)
    → EndsDevice rest
    → (peek (at_text (subs_text ts rest))).1 ≡ at_text (subs_text ts rest)
unfolding peek
peek-subs_text [] [] e = elim e [ ]
peek-subs_text [] (c ∷ rest) e = refl
peek-subs_text (t ∷ ts) rest e = refl

-- The constructor, by what each of its reads gives.
pub read_device-steps :
    (t0 t1 t2 t3 t4 : Bytes) (s4 s5 : Stream) (w name : Bytes) (subs : List SubDevice)
    → skip_comments (rounds (at_text t0)) (at_text t0) ≡ at_text t1
    → (peek (at_text t1)).1 ≡ at_text t1
    → read_word [] (at_text t1) ≡ (w, at_text t2)
    → skip_blanks false (rounds (at_text t2)) (at_text t2) ≡ at_text t3
    → read_line (at_text t3) ≡ (name, at_text t4)
    → (peek (at_text t4)).1 ≡ s4
    → read_subs (rounds s4) (peek (at_text t4)).0 [] s4 ≡ (subs, s5)
    → read_device (at_text t0) ≡ (record { id = id_number w; name = name; sub_devs = subs }, s5)
unfolding read_device
read_device-steps t0 t1 t2 t3 t4 s4 s5 w name subs a b c d e f g = rw (a, b, c, d, e, f, g) refl

-- A device that is written in the format of pci.ids, with the lines of its subsystems, is read back
-- with its id, its name and its subsystems, the first of those with one id, and the stream stands
-- behind its last line, if no comment and no further subsystem follows there.
pub read_device-device_text :
    (t : DeviceText) (rest : Bytes)
    → IsDeviceText t
    → EndsDevice rest
    → read_device (at_text (device_text t rest)) ≡ (device_of t, at_text rest)
read_device-device_text t rest (hi, hn, hs) e =
    let after_line = subs_text t.subs rest in
    let after_id = b' ' ∷ b' ' ∷ (t.name ++ 10 ∷ after_line) in
    read_device-steps (device_text t rest) (device_text t rest) after_id (t.name ++ 10 ∷ after_line)
      after_line (at_text after_line) (at_text rest) t.id t.name (insert_subs [] t.subs)
      (skip_comments-word (length (device_text t rest)) t.id after_id hi)
      (peek-word t.id after_id hi)
      (read_word-at_text [] t.id (b' ' ∷ (t.name ++ 10 ∷ after_line)) hi)
      (skip_blanks-name false t.name after_line hn) (read_line-name t.name after_line hn)
      (peek-subs_text t.subs rest e) (read_subs-first t.subs rest hs e)
