-- ===== src/Tests/Ids.antt =====
-- A small pci.ids file, read and looked up.
use lsvpd.Base.{arith, List, [], ◌∷◌, ◌++◌, ◌≡◌, refl, Bytes, codes}
use lsvpd.Ids.Stream.{peek, get, putback, ignore, read_word, read_line, id_number}
use lsvpd.Ids.Parse.{
  Manufacturer, device_lookup, fill_manus, insert_device, insert_manufacturer, insert_sub,
  read_device, read_devices, read_manufacturer, read_sub_device, read_subs, skip_blanks,
  skip_comments, sub_id,
}
use lsvpd.Ids.Parse.Lines.{IsWord, IsName}
use lsvpd.Ids.Parse.Manufacturers.{ManufacturerText}
use lsvpd.Ids.Parse.Files.{
  manufacturers_text, insert_manufacturers, device_lookup-manufacturers_text,
}
use lsvpd.Ids.Lookup.{get_manufacturer_name, get_device_name, get_sub_device_name}

abbrev newline : Bytes
newline = 10 ∷ []

abbrev tab : Bytes
tab = 9 ∷ []

abbrev sub_line : Bytes
sub_line = tab ++ tab ++ codes "1014 0002  Sub" ++ newline

abbrev head_lines : Bytes
head_lines =
    codes "# list"
    ++ newline
    ++ codes "1014  IBM"
    ++ newline
    ++ tab
    ++ codes "00a1  Card"
    ++ newline

abbrev last_lines : Bytes
last_lines = tab ++ codes "00a2  Other" ++ newline ++ codes "10ff  Next" ++ newline

abbrev table : List Manufacturer
table = device_lookup (head_lines ++ sub_line ++ last_lines)

names :
    (get_manufacturer_name table 0x1014 ≡ codes "IBM")
    × (get_device_name table 0x1014 0xa1 ≡ codes "Card")
    × (get_sub_device_name table 0x1014 0xa1 2 ≡ codes "Sub")
    × (get_device_name table 0x1014 0xa2 ≡ codes "Other")
    × (get_manufacturer_name table 0x10ff ≡ codes "Next")
    × (get_manufacturer_name table 0x9999 ≡ codes "Unknown")
    × (get_device_name table 0x1014 0x1014 ≡ codes "Unknown")
unfolding device_lookup fill_manus get id_number ignore insert_device insert_manufacturer insert_sub
    peek putback read_device read_devices read_line read_manufacturer read_sub_device read_subs
    read_word skip_blanks skip_comments sub_id get_manufacturer_name get_device_name
    get_sub_device_name
names = (refl, refl, refl, refl, refl, refl, refl)

-- Behind a comment between the lines of two subsystems, the second is read as a device.
abbrev commented : List Manufacturer
commented = device_lookup (
    head_lines
    ++ sub_line
    ++ codes "# more"
    ++ newline
    ++ tab
    ++ tab
    ++ codes "1014 0003  Lost"
    ++ newline)

lost :
    (get_sub_device_name commented 0x1014 0xa1 3 ≡ codes "Unknown")
    × (get_device_name commented 0x1014 0x1014 ≡ codes "0003  Lost")
unfolding device_lookup fill_manus get id_number ignore insert_device insert_manufacturer insert_sub
    peek putback read_device read_devices read_line read_manufacturer read_sub_device read_subs
    read_word skip_blanks skip_comments sub_id get_manufacturer_name get_device_name
    get_sub_device_name
lost = (refl, refl)

abbrev written : ManufacturerText
written = record {
  id = codes "1014";
  name = codes "IBM";
  devices =
      record {
        id = codes "00a1";
        name = codes "Card";
        subs = record { vendor = codes "1014"; id = codes "0002"; name = codes "Sub" } ∷ [];
      }
      ∷ [];
}

ibm_id-IsWord : IsWord (codes "1014")
ibm_id-IsWord = (refl, refl, (refl, (refl, (refl, tt))))

card_id-IsWord : IsWord (codes "00a1")
card_id-IsWord = (refl, refl, (refl, (refl, (refl, tt))))

sub_id-IsWord : IsWord (codes "0002")
sub_id-IsWord = (refl, refl, (refl, (refl, (refl, tt))))

ibm-IsName : IsName (codes "IBM")
ibm-IsName = (((refl, refl), ((refl, refl), ((refl, refl), tt))), refl, omega arith)

card-IsName : IsName (codes "Card")
card-IsName =
    (((refl, refl), ((refl, refl), ((refl, refl), ((refl, refl), tt)))), refl, omega arith)

sub-IsName : IsName (codes "Sub")
sub-IsName = (((refl, refl), ((refl, refl), ((refl, refl), tt))), refl, omega arith)

abbrev next : ManufacturerText
next = record { id = codes "10ff"; name = codes "Next"; devices = [] }

next_id-IsWord : IsWord (codes "10ff")
next_id-IsWord = (refl, refl, (refl, (refl, (refl, tt))))

next-IsName : IsName (codes "Next")
next-IsName =
    (((refl, refl), ((refl, refl), ((refl, refl), ((refl, refl), tt)))), refl, omega arith)

device_lookup-manufacturers_text_example :
    device_lookup (manufacturers_text (written ∷ next ∷ []))
    ≡ insert_manufacturers [] (written ∷ next ∷ [])
device_lookup-manufacturers_text_example = device_lookup-manufacturers_text written (next ∷ []) (
  (
    ibm_id-IsWord,
    ibm-IsName,
    ((card_id-IsWord, card-IsName, ((ibm_id-IsWord, sub_id-IsWord, sub-IsName), tt)), tt),
  ),
  ((next_id-IsWord, next-IsName, tt), tt),
)

-- A file with no manufacturer is read as one with the id 0 and no name.
empty_file : get_manufacturer_name (device_lookup []) 0 ≡ []
unfolding device_lookup fill_manus read_manufacturer read_word peek read_line skip_blanks
    read_devices id_number insert_manufacturer get_manufacturer_name
empty_file = refl

-- A prefix, a number of more than 32 bits, a sign, and one that no `long` holds
id_numbers :
    (id_number (codes "0x10") ≡ 16)
    × (id_number (codes "100000001") ≡ 1)
    × (id_number (codes "-1") ≡ 0xffffffff)
    × (id_number (codes "ffffffffffffffffff") ≡ 0xffffffff)
unfolding id_number
id_numbers = (refl, refl, refl, refl)
