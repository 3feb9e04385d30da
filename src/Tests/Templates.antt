-- ===== src/Tests/Templates.antt =====
-- Patterns and templates of scsi_templates.conf at concrete inputs.
use lsvpd.Base.{
  ◌++◌, Bool, true, List, [], ◌∷◌, none, some, ◌≡◌, ◌⊎◌, refl, arith, Bytes, codes, All,
  contains_text, find, c_str, same, length,
}
use lsvpd.Vpd.{set_value, firmware_level, part_number}
use lsvpd.Scsi.Matching.{answer, matches, ScsiTemplate, find_template, found, missing}
use lsvpd.Scsi.Matching.First.{Fits, Differs, find_template_first}
use lsvpd.Scsi.Matching.Fuel.{matches-fuel}
use lsvpd.Scsi.Templates.{retrieve_page_template, retrieve_page_code}
use lsvpd.Scsi.Templates.Codes.{template_text, retrieve_page_code-template_text}
use lsvpd.Scsi.Templates.Fields.{get_field_name, get_field_value, pos, negsuc}
use lsvpd.Scsi.Templates.Process.{process_template, field_templates, got}
use lsvpd.Scsi.Templates.Process.Cuts.{join_commas, field_templates-join_commas}

inner_star : matches 9 (codes "DGHS*U") (codes "DGHS09U") ≡ answer true
unfolding matches same contains_text find
inner_star = refl

matches-fuel_example : (b : Bool) × (matches 7 (codes "DGHS*U") (codes "DGHS09") ≡ answer b)
matches-fuel_example = matches-fuel 7 (codes "DGHS*U") (codes "DGHS09") (omega arith)

abbrev disks : List ScsiTemplate
disks =
    record {
      vendor = codes "IBM*";
      dev_class = codes "disk";
      model = codes "DDYS*";
      format_str = [];
    }
    ∷ record {
      vendor = codes "*";
      dev_class = codes "disk";
      model = codes "*";
      format_str = codes "?0x0=RL:4";
    }
    ∷ []

find_template_first_example :
    ((find_template (codes "ST") (codes "disk") (codes "X") disks ≡ missing)
      × All (Differs (codes "ST") (codes "disk") (codes "X")) disks)
    ⊎ ((before after : List ScsiTemplate) × (t : ScsiTemplate) × (disks ≡ before ++ t ∷ after)
        × All (Differs (codes "ST") (codes "disk") (codes "X")) before
        × Fits (codes "ST") (codes "disk") (codes "X") t
        × (find_template (codes "ST") (codes "disk") (codes "X") disks ≡ found t))
find_template_first_example = find_template_first (codes "ST") (codes "disk") (codes "X") disks

abbrev dvd_pages : List (Bytes × Bytes)
dvd_pages = (codes "0", codes "RL:4,_:78,FN:12") ∷ (codes "83", codes "_:4,UM:8") ∷ []

abbrev last_page : Bytes × Bytes
last_page = (codes "199", codes "_:32")

retrieve_page_code-template_text_example :
    retrieve_page_code
      (retrieve_page_template (template_text (dvd_pages ++ last_page ∷ [])) (length dvd_pages))
    ≡ some last_page
retrieve_page_code-template_text_example =
    retrieve_page_code-template_text dvd_pages [] last_page
      ((refl, refl, refl, refl), ((refl, refl, refl, refl), tt)) (refl, refl, refl, refl) tt

field_templates-join_commas_example :
    field_templates (some 99) (join_commas (codes "_:4") (codes "UM:8" ∷ codes "UF:4" ∷ []))
    ≡ got (codes "_:4" ∷ codes "UM:8" ∷ codes "UF:4" ∷ [])
field_templates-join_commas_example =
    field_templates-join_commas (some 99) (codes "_:4") (codes "UM:8") (codes "UF:4" ∷ []) refl refl
      (refl, tt) (omega arith)

-- With a place inside the format in the unset cell, the last field is cut short.
cut_short : field_templates (some 6) (codes "_:4,UM:8") ≡ got (codes "_:4" ∷ codes "UM" ∷ [])
unfolding field_templates
cut_short = refl

sizes :
    (get_field_value (codes "_:-100") ≡ negsuc 99)
    × (get_field_value (codes "PN:0x10") ≡ pos 16)
    × (get_field_name (codes "PN:12") ≡ codes "PN")
    × (get_field_value (codes "PN") ≡ negsuc 0)
unfolding get_field_value get_field_name c_str
sizes = (refl, refl, refl, refl)

-- A page: four bytes for RL, three that are skipped, and a part number with spaces around it.
processed :
    process_template none (codes "ABCD___ 12   " ++ 0 ∷ []) (codes "RL:4,_:3,PN:6") 0x83
    ≡ got (
        set_value firmware_level (codes "41424344") 90 ∷ set_value part_number (codes "12") 90 ∷ [])
unfolding process_template same
processed = refl
