-- ===== src/DeviceTree/Buffer/Encode.antt =====
-- The layout of a VPD buffer, written independently of the parser.
use lsvpd.Base.{ℕ, ◌+◌, ◌/◌, ◌%◌, ◌^◌, ◌<◌, ◌≢◌, List, [], ◌∷◌, ◌++◌, Bytes, length, c_str}
use lsvpd.Vpd.{Call}
use lsvpd.Vpd.Fields.{set_vpd_field}
use lsvpd.Vpd.Sanitize.{sanitize_vpd_field}

-- A keyword of two bytes and its value.
pub record Item : Type 0 where
  pub key₀ : ℕ
  pub key₁ : ℕ
  pub value : Bytes

-- The keyword is no end tag, and the length of the value fits a byte.
pub record IsItem (i : Item) : Type 0 where
  pub not_small_end : i.key₀ ≢ 0x78
  pub not_large_end : i.key₀ ≢ 0x79
  pub fits : length i.value < 256

pub data AllItems : List Item → Type 0 where
  nil : AllItems []
  cons : {i : Item} {is : List Item} → IsItem i → AllItems is → AllItems (i ∷ is)

abbrev pub encode_items : List Item → Bytes → Bytes
encode_items [] rest = rest
encode_items (i ∷ is) rest = i.key₀ ∷ i.key₁ ∷ length i.value ∷ (i.value ++ encode_items is rest)

abbrev pub items_size : List Item → ℕ
items_size [] = 0
items_size (i ∷ is) = 3 + length i.value + items_size is

-- What a component is told about each keyword, in order.
abbrev pub item_calls : List Item → List Call
item_calls [] = []
item_calls (i ∷ is) =
    set_vpd_field (c_str (i.key₀ ∷ i.key₁ ∷ [])) (sanitize_vpd_field i.value) ++ item_calls is

-- A 32-bit number, the high byte first.
abbrev pub be32 : ℕ → Bytes → Bytes
be32 n rest = n / 2 ^ 24 ∷ (n / 2 ^ 16) % 2 ^ 8 ∷ (n / 2 ^ 8) % 2 ^ 8 ∷ n % 2 ^ 8 ∷ rest

-- What an RTAS buffer's size counts: the type, the name with its length, three bytes that the
-- parser skips, the keywords and an end tag.
abbrev pub rtas_size : Bytes → List Item → ℕ
rtas_size name is = 7 + length name + items_size is

abbrev pub encode_rtas : Bytes → List Item → ℕ → Bytes → Bytes
encode_rtas name is tag rest = be32 (rtas_size name is) (
    0x82
    ∷ length name % 2 ^ 8
    ∷ length name / 2 ^ 8
    ∷ (name ++ (0 ∷ 0 ∷ 0 ∷ encode_items is (tag ∷ rest))))
