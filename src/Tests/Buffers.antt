-- ===== src/Tests/Buffers.antt =====
-- VPD buffers at concrete inputs.
use lsvpd.Base.{
  ◌+◌, ◌%◌, ◌/◌, ◌^◌, ◌++◌, List, [], ◌∷◌, ◌≡◌, ◌≢◌, inl, refl, arith, Bytes, codes, length, c_str,
  same,
}
use lsvpd.Vpd.Sanitize.{sanitize_vpd_field}
use lsvpd.Platform.{pf_powervm_lpar}
use lsvpd.Vpd.{Call, set_value, description, serial_number}
use lsvpd.Vpd.Fields.{set_vpd_field}
use lsvpd.DeviceTree.Buffer.{
  little, big, ok, fault, parse_vpd_buffer, parse_rtas_vpd_header, parse_body, parse_records,
}
use lsvpd.DeviceTree.Buffer.ByteOrder.{parse_rtas_vpd_header_host}
use lsvpd.DeviceTree.Buffer.Encode.{
  Item, AllItems, nil, cons, be32, encode_items, item_calls, rtas_size, encode_rtas,
}
use lsvpd.DeviceTree.Buffer.RoundTrip.{parse_vpd_buffer-encode_rtas}
use lsvpd.DeviceTree.Buffer.Safety.{parse_vpd_buffer-ne-fault, parse_vpd_buffer_overread}
use lsvpd.DeviceTree.Rtas.{parse_rtas_vpd}
use lsvpd.DeviceTree.Rtas.Sections
use lsvpd.DeviceTree.Rtas.Sections.{
  Section, IsSection, AllSections, encode_sections, sections_size, devices, parse_rtas_vpd-encode,
  parse_sections-fuel,
}
use lsvpd.DeviceTree.SystemVpd.{set_description, parse_sys_vpd}
use lsvpd.DeviceTree.SystemVpd.Reading.{item_effects, parse_sys_vpd-encode_rtas}

abbrev serial : Item
serial = record { key₀ = b'S'; key₁ = b'N'; value = codes "12" }

serial-AllItems : AllItems (serial ∷ [])
serial-AllItems =
    cons (record { not_small_end = omega arith; not_large_end = omega arith; fits = omega arith })
      nil

abbrev card : Bytes
card = encode_rtas (codes "CARD") (serial ∷ []) 0x78 []

-- The parser run on the buffer.
card_parsed :
    parse_vpd_buffer little pf_powervm_lpar card
    ≡ ok
        (20, set_value description (codes "CARD") 80 ∷ set_value serial_number (codes "12") 90 ∷ [])
unfolding parse_vpd_buffer parse_rtas_vpd_header parse_body parse_records set_vpd_field
    sanitize_vpd_field same
card_parsed = refl

parse_vpd_buffer-encode_rtas_example :
    parse_vpd_buffer little pf_powervm_lpar card
    ≡ ok (
      rtas_size (codes "CARD") (serial ∷ []) + 4,
      set_value description (c_str (codes "CARD")) 80 ∷ item_calls (serial ∷ []),
    )
parse_vpd_buffer-encode_rtas_example =
    parse_vpd_buffer-encode_rtas little (codes "CARD") (serial ∷ []) 0x78 [] serial-AllItems
      (inl refl) (omega arith)

parse_vpd_buffer-ne-fault_example : parse_vpd_buffer little pf_powervm_lpar card ≢ fault
parse_vpd_buffer-ne-fault_example =
    parse_vpd_buffer-ne-fault little card (omega arith) (omega arith) (omega arith)

parse_vpd_buffer_overread_example :
    parse_vpd_buffer little pf_powervm_lpar (
      be32 200 (
        0x82
        ∷ length (codes "CARD") % 2 ^ 8
        ∷ length (codes "CARD") / 2 ^ 8
        ∷ (codes "CARD" ++ (0 ∷ 0 ∷ 0 ∷ encode_items (serial ∷ []) []))))
    ≡ fault
parse_vpd_buffer_overread_example =
    parse_vpd_buffer_overread little (codes "CARD") (serial ∷ []) 200 serial-AllItems (omega arith)
      (omega arith)

parse_rtas_vpd_header_host_example :
    parse_rtas_vpd_header little card ≡ parse_rtas_vpd_header big card
parse_rtas_vpd_header_host_example = parse_rtas_vpd_header_host card (omega arith)

-- Two getters that look at the calls.
abbrev first_value : List Call → Bytes
first_value (set_value f val level ∷ cs) = val
first_value _ = []

abbrev no_location : List Call → Bytes
no_location cs = []

abbrev section : Section
section = record { name = codes "CARD"; items = serial ∷ []; tag = 0x78 }

section-AllSections : AllSections (section ∷ [])
section-AllSections =
    Sections.cons
      (record { items_fit = serial-AllItems; end_tag = inl refl; size_fits = omega arith })
      Sections.nil

parse_rtas_vpd-encode_example :
    parse_rtas_vpd first_value no_location little pf_powervm_lpar
      (encode_sections (section ∷ []) [])
      (sections_size (section ∷ []))
    ≡ ok (devices first_value no_location (section ∷ []))
parse_rtas_vpd-encode_example =
    parse_rtas_vpd-encode first_value no_location little (section ∷ []) [] section-AllSections
      (omega arith)

parse_sys_vpd-encode_rtas_example :
    parse_sys_vpd little pf_powervm_lpar card
    ≡ ok (set_description (c_str (codes "CARD")) 60 ∷ item_effects (serial ∷ []))
parse_sys_vpd-encode_rtas_example =
    parse_sys_vpd-encode_rtas little (codes "CARD") (serial ∷ []) [] serial-AllItems (omega arith)
