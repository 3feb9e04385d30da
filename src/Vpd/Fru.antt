-- ===== src/Vpd/Fru.antt =====
-- `ICollector::getFruDescription`: the name of a field-replaceable unit by its two-letter type.
use lsvpd.Base.{ℕ, String, [], ◌∷◌, ◌==◌, if◌then◌else◌, Bytes, codes}

fru_a : ℕ → String
fru_a c =
    if c == b'B'
    then "Combined AC  bulk power supply"
    else if c == b'M'
    then "Air mover"
    else if c == b'V'
    then "Anchor VPD"
    else "Unknown"

fru_b : ℕ → String
fru_b c =
    if c == b'A'
    then "Bus adapter card"
    else if c == b'C'
    then "Battery charger"
    else if c == b'D'
    then "Bus/Daughter card"
    else if c == b'E'
    then "Bus expansion card"
    else if c == b'P'
    then "Backplane"
    else if c == b'R'
    then "Backplane riser"
    else if c == b'X'
    then "Backplane extender"
    else "Unknown"

fru_c : ℕ → String
fru_c c =
    if c == b'A'
    then "Calgary bridge"
    else if c == b'B'
    then "Connector - Infiniband"
    else if c == b'C'
    then "Clock card"
    else if c == b'D'
    then "Card connector"
    else if c == b'E'
    then "Connector - Ethernet interface"
    else if c == b'L'
    then "Calgary PHB VPD"
    else if c == b'I'
    then "Interactive capacity card"
    else if c == b'O'
    then "Connector - SMA interface"
    else if c == b'P'
    then "Processor capacity card"
    else if c == b'R'
    then "Connector - RIO interface"
    else if c == b'S'
    then "Connector - Serial interface"
    else if c == b'U'
    then "Connector - USB interface"
    else "Unknown"

fru_d : ℕ → String
fru_d c =
    if c == b'B'
    then "DASD Backplane"
    else if c == b'C'
    then "Drawer connector card"
    else if c == b'E'
    then "Drawer etension"
    else if c == b'I'
    then "Drawer interposer"
    else if c == b'L'
    then "P7 IH D-link connector"
    else if c == b'T'
    then "Legacy PCI daughter card"
    else if c == b'V'
    then "Media drawer LED"
    else "Unknown"

fru_e : ℕ → String
fru_e c =
    if c == b'I'
    then "Enclosure LED"
    else if c == b'F'
    then "Enclosure fault LED"
    else if c == b'S'
    then "Embedded SAS"
    else if c == b'T'
    then "Ethernet riser card (no GX bus)"
    else if c == b'V'
    then "Enclosure VPD"
    else "Unknown"

fru_f : ℕ → String
fru_f c = if c == b'M' then "Frame" else "Unknown"

fru_h : ℕ → String
fru_h c =
    if c == b'B'
    then "Host bridge RIO to PCI card"
    else if c == b'D'
    then "High speed daughter card"
    else if c == b'M'
    then "HMC connector"
    else "Unknown"

fru_i : ℕ → String
fru_i c =
    if c == b'B'
    then "IO backplane"
    else if c == b'C'
    then "IO card"
    else if c == b'D'
    then "IDE connector"
    else if c == b'I'
    then "IO drawer enclosure LEDs"
    else if c == b'P'
    then "Interplane card"
    else if c == b'S'
    then "SMP V-Bus interconnection cable"
    else if c == b'T'
    then "Enclosure interconnection cable"
    else if c == b'V'
    then "IO drawer enclosure VPD"
    else "Unknown"

fru_k : ℕ → String
fru_k c = if c == b'V' then "Keyboard video mouse LED" else "Unknown"

fru_l : ℕ → String
fru_l c =
    if c == b'2'
    then "Level 2 cache module/card"
    else if c == b'3'
    then "Level 3 cache module/card"
    else if c == b'C'
    then "Squadrons H llight strip connector"
    else if c == b'R'
    then "P7 IH L-link connector"
    else if c == b'O'
    then "System locate LED"
    else if c == b'T'
    then "Squadrons H light strip"
    else "Unknown"

fru_m : ℕ → String
fru_m c =
    if c == b'B'
    then "Media backplane"
    else if c == b'E'
    then "Map extension"
    else if c == b'M'
    then "MIP meter"
    else if c == b'S'
    then "Main store card or DIMM"
    else "Unknown"

fru_n : ℕ → String
fru_n c =
    if c == b'B'
    then "NVRAM battery"
    else if c == b'C'
    then "Service processor node controller"
    else if c == b'D'
    then "NUMA DIMM"
    else "Unknown"

fru_o : ℕ → String
fru_o c =
    if c == b'D'
    then "CUoD card"
    else if c == b'P'
    then "Operator panel"
    else if c == b'S'
    then "Oscillator"
    else "Unknown"

fru_p : ℕ → String
fru_p c =
    if c == b'2'
    then "IOC chip and its devices"
    else if c == b'5'
    then "IOC/IOC2 PCI bridge"
    else if c == b'B'
    then "IO drawer main backplane"
    else if c == b'C'
    then "Power capacitor"
    else if c == b'D'
    then "Processor card"
    else if c == b'F'
    then "Processor FRU"
    else if c == b'I'
    then "IOC/IOC2 PHB"
    else if c == b'O'
    then "SPCN"
    else if c == b'N'
    then "SPCN connector"
    else if c == b'R'
    then "PCI riser card"
    else if c == b'S'
    then "Power supply"
    else if c == b'T'
    then "Pass-through card"
    else if c == b'X'
    then "PSC power sync card"
    else if c == b'W'
    then "Power connector"
    else "Unknown"

fru_r : ℕ → String
fru_r c =
    if c == b'G'
    then "Regulator"
    else if c == b'I'
    then "Riser"
    else if c == b'K'
    then "Rack indicator connector"
    else if c == b'W'
    then "RiscWatch connector"
    else "Unknown"

fru_s : ℕ → String
fru_s c =
    if c == b'A'
    then "System attention LED"
    else if c == b'B'
    then "Backup system VPD"
    else if c == b'C'
    then "SCSI connector"
    else if c == b'D'
    then "SAS connector"
    else if c == b'I'
    then "SCSI to IDE converter"
    else if c == b'L'
    then "PHB slot - PHB child"
    else if c == b'P'
    then "Service processor"
    else if c == b'R'
    then "Service interconnection card"
    else if c == b'S'
    then "Soft switch"
    else if c == b'V'
    then "System VPD"
    else if c == b'Y'
    then "Legacy system VPD FRU type"
    else "Unknown"

fru_t : ℕ → String
fru_t c =
    if c == b'D'
    then "Time of Day clock"
    else if c == b'I'
    then "Torrent PCIE PHB"
    else if c == b'L'
    then "Torrent riser PCIE PHB slot"
    else if c == b'M'
    then "Thermal sensor"
    else if c == b'P'
    then "TPMD adapter"
    else if c == b'R'
    then "Torrent octant PCIE bridge"
    else "Unknown"

fru_v : ℕ → String
fru_v c = if c == b'V' then "Root node VPD" else "Unknown"

fru_w : ℕ → String
fru_w c = if c == b'D' then "Water device" else "Unknown"

-- The outer switch.
by_type : ℕ → ℕ → String
unfolding fru_a fru_b fru_c fru_d fru_e fru_f fru_h fru_i fru_k fru_l fru_m fru_n fru_o fru_p fru_r
    fru_s fru_t fru_v fru_w
by_type a b =
    if a == b'A'
    then fru_a b
    else if a == b'B'
    then fru_b b
    else if a == b'C'
    then fru_c b
    else if a == b'D'
    then fru_d b
    else if a == b'E'
    then fru_e b
    else if a == b'F'
    then fru_f b
    else if a == b'H'
    then fru_h b
    else if a == b'I'
    then fru_i b
    else if a == b'K'
    then fru_k b
    else if a == b'L'
    then fru_l b
    else if a == b'M'
    then fru_m b
    else if a == b'N'
    then fru_n b
    else if a == b'O'
    then fru_o b
    else if a == b'P'
    then fru_p b
    else if a == b'R'
    then fru_r b
    else if a == b'S'
    then fru_s b
    else if a == b'T'
    then fru_t b
    else if a == b'V'
    then fru_v b
    else if a == b'W'
    then fru_w b
    else "Unknown"

-- Reading `key.c_str()`, whose end is a NUL; a key of one letter has the second letter NUL.
unfoldable pub get_fru_description : Bytes → Bytes
unfolding by_type
get_fru_description [] = codes (by_type 0 0)
get_fru_description (a ∷ []) = codes (by_type a 0)
get_fru_description (a ∷ b ∷ cs) = codes (by_type a b)
