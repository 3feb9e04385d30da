-- ===== src/Ids/Parse.antt =====
-- The constructors `SubDevice`, `Device`, `Manufacturer` and `DeviceLookup`.
pub mod Lines
pub mod RoundTrip
pub mod Manufacturers
pub mod Files
use lsvpd.Base.{
  ℕ, zero, suc, Bool, true, false, ◌&&◌, ◌||◌, List, [], ◌∷◌, Option, none, some, ◌==◌,
  if◌then◌else◌, Bytes, length,
}
use lsvpd.Ids.Stream.{Stream, peek, get, putback, ignore, read_word, read_line, id_number}

-- An id that the constructor does not set, because the stream failed before, is none.
pub record SubDevice : Type 0 where
  pub manu_id : Option ℕ
  pub id : Option ℕ
  pub name : Bytes

pub record Device : Type 0 where
  pub id : ℕ
  pub name : Bytes
  pub sub_devs : List SubDevice

pub record Manufacturer : Type 0 where
  pub id : ℕ
  pub name : Bytes
  pub devices : List Device

-- The next character is the one given.
abbrev pub next_is : ℕ → Option ℕ → Bool
next_is c none = false
next_is c (some d) = d == c

-- `while (peek() == '#') ignore(...)`, with as many rounds as there are characters.
unfoldable pub skip_comments : ℕ → Stream → Stream
skip_comments zero s = s
skip_comments (suc rounds) s =
    let p = peek s in
    elim (next_is b'#' p.0) [ true ↦ skip_comments rounds (ignore p.1) | false ↦ p.1 ]

-- `while (peek() == ' ') get(next)`; with tabs as well for a manufacturer.
unfoldable pub skip_blanks : Bool → ℕ → Stream → Stream
skip_blanks tabs zero s = s
skip_blanks tabs (suc rounds) s =
    let p = peek s in
    elim (next_is b' ' p.0 || (tabs && next_is 9 p.0)) [
      | true ↦ skip_blanks tabs rounds (get p.0 p.1).1
      | false ↦ p.1
    ]

abbrev rounds : Stream → ℕ
rounds s = suc (length s.left)

-- A word as a number, if the stream has not failed before.
unfoldable pub sub_id : Bytes → Stream → Option ℕ × Bytes × Stream
sub_id old s =
    if s.fail then (none, old, s) else let p = read_word old s in (some (id_number p.0), p.0, p.1)

unfoldable pub read_sub_device : Stream → SubDevice × Stream
read_sub_device s =
    let s1 = skip_comments (rounds s) s in
    let m = sub_id [] s1 in
    let i = sub_id m.1 m.2 in
    let s2 = i.2 in
    let s3 = if s2.fail then s2 else skip_blanks false (rounds s2) s2 in
    let l = if s3.fail then ([], s3) else read_line s3 in
    (record { manu_id = m.0; id = i.0; name = l.0 }, l.1)

-- `map::insert`: the first entry with an id stays.
abbrev same_id : Option ℕ → Option ℕ → Bool
same_id none none = true
same_id (some a) (some b) = a == b
same_id _ _ = false

unfoldable pub insert_sub : SubDevice → List SubDevice → List SubDevice
insert_sub d [] = d ∷ []
insert_sub d (e ∷ es) = if same_id e.id d.id then e ∷ es else e ∷ insert_sub d es

unfoldable pub insert_device : Device → List Device → List Device
insert_device d [] = d ∷ []
insert_device d (e ∷ es) = if e.id == d.id then e ∷ es else e ∷ insert_device d es

unfoldable pub insert_manufacturer : Manufacturer → List Manufacturer → List Manufacturer
insert_manufacturer d [] = d ∷ []
insert_manufacturer d (e ∷ es) = if e.id == d.id then e ∷ es else e ∷ insert_manufacturer d es

-- The loop of `Device`; `next` is its variable, which a line of a subsystem leaves at the tab.
unfoldable pub read_subs : ℕ → Option ℕ → List SubDevice → Stream → List SubDevice × Stream
read_subs zero next subs s = (subs, s)
read_subs (suc fuel) next subs s = elim s.fail [
  | true ↦ (subs, s)
  | false ↦ elim (next_is 9 next) [
    | true ↦
        let g = get next s in
        let p = peek g.1 in
        elim (next_is 9 p.0) [
          | false ↦ (subs, putback g.0 p.1)
          | true ↦
              let g' = get g.0 p.1 in
              let d = read_sub_device g'.1 in read_subs fuel g'.0 (insert_sub d.0 subs) d.1
        ]
    | false ↦ elim (next_is b'#' next) [
      | true ↦ let p = peek (ignore s) in read_subs fuel p.0 subs p.1
      | false ↦ (subs, s)
    ]
  ]
]

unfoldable pub read_device : Stream → Device × Stream
read_device s =
    let s1 = (peek (skip_comments (rounds s) s)).1 in
    let w = read_word [] s1 in
    let l = read_line (skip_blanks false (rounds w.1) w.1) in
    let p = peek l.1 in
    let r = read_subs (rounds p.1) p.0 [] p.1 in
    (record { id = id_number w.0; name = l.0; sub_devs = r.0 }, r.1)

-- The loop of `Manufacturer`. A device with the id `UNKNOWN_ID` is thrown away.
unfoldable pub read_devices : ℕ → List Device → Stream → List Device × Stream
read_devices zero devs s = (devs, s)
read_devices (suc fuel) devs s = elim s.fail [
  | true ↦ (devs, s)
  | false ↦
      let p = peek s in
      elim (next_is b'#' p.0 || next_is 10 p.0) [
        | true ↦ read_devices fuel devs (ignore p.1)
        | false ↦ elim (next_is 9 p.0) [
          | true ↦
              let d = read_device (get p.0 p.1).1 in
              read_devices fuel (if d.0.id == 0xffff then devs else insert_device d.0 devs) d.1
          | false ↦ (devs, p.1)
        ]
      ]
]

unfoldable pub read_manufacturer : Stream → Manufacturer × Stream
read_manufacturer s =
    let w = read_word [] s in
    let l = read_line (skip_blanks true (rounds w.1) w.1) in
    let r = read_devices (rounds l.1) [] l.1 in
    (record { id = id_number w.0; name = l.0; devices = r.0 }, r.1)

-- `fillManus`
unfoldable pub fill_manus : ℕ → List Manufacturer → Stream → List Manufacturer
fill_manus zero manus s = manus
fill_manus (suc fuel) manus s = elim (s.fail || s.eof) [
  | true ↦ manus
  | false ↦
      let p = peek s in
      elim (next_is b'#' p.0 || next_is 10 p.0) [
        | true ↦ fill_manus fuel manus (ignore p.1)
        | false ↦
            let m = read_manufacturer p.1 in fill_manus fuel (insert_manufacturer m.0 manus) m.1
      ]
]

unfoldable pub device_lookup : Bytes → List Manufacturer
device_lookup file =
    fill_manus (suc (length file)) [] (record { left = file; eof = false; fail = false })
