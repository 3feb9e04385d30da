-- ===== src/Sysfs/Fill/Classes.antt =====
-- `fillNetClass`, and `getDevTreePath`: the path of a device in the device tree.
use lsvpd.Base.{
  Bool, not, ◌||◌, List, [], ◌∷◌, ◌++◌, ◌≡◌, refl, Option, none, some, ◌==◌, if◌then◌else◌, Bytes,
  codes, c_str, same, length, take, drop, select, drop-append,
}
use lsvpd.Vpd.{Call, set_value, firmware_version, net_addr}
use lsvpd.DeviceTree.Buffer.{Outcome, ok, fault}

-- The hardware address, its first 17 characters without the colons
abbrev pub net_address : Bytes → Bytes
net_address val = select (λ c. not (c == b':')) (take 17 val)

-- `fw_version` of the first name for which the ioctl succeeds; a name is cut to 15 bytes.
unfoldable pub driver_info : (Bytes → Option Bytes) → List Bytes → Option Bytes
driver_info ioctl [] = none
driver_info ioctl (name ∷ names) =
    let later = driver_info ioctl names in
    elim (ioctl (take 15 (c_str name))) [ none ↦ later | some version ↦ some version ]

abbrev pub net_version : Option Bytes → List Call
net_version none = []
net_version (some version) =
    if same version [] || same version (codes "N/A")
    then []
    else set_value firmware_version version 80 ∷ []

-- `fillNetClass`, for the attribute address, whether a socket can be opened, and what the ioctl
-- gives for a name
unfoldable pub fill_net_class : Bytes → Bool → (Bytes → Option Bytes) → List Bytes → List Call
unfolding driver_info c_str
fill_net_class address has_socket ioctl names =
    set_value net_addr (net_address address) 90
    ∷ (if has_socket then net_version (driver_info ioctl names) else [])

abbrev pub without_newline : Bytes → Bytes
without_newline [] = []
without_newline (c ∷ []) = if c == 10 then [] else c ∷ []
without_newline (c ∷ d ∷ cs) = c ∷ without_newline (d ∷ cs)

-- The line of devspec. Of an empty text the character before it is looked at.
abbrev pub devspec_path : Bytes → Outcome Bytes
devspec_path [] = fault
devspec_path (c ∷ cs) =
    let text = without_newline (c ∷ cs) in if same text (codes "(null)") then ok [] else ok text

-- `getDevTreePath`: for the link of_node, if there is one, with its real path, if realpath
-- succeeds; and for the bytes that `fgets` reads of devspec, if there are any
unfoldable pub get_dev_tree_path : Option (Option Bytes) → Option Bytes → Outcome Bytes
unfolding c_str
get_dev_tree_path (some none) devspec = ok []
get_dev_tree_path (some (some path)) devspec =
    ok (drop (length (codes "/sys/firmware/devicetree/base")) path)
get_dev_tree_path none none = ok []
get_dev_tree_path none (some line) = devspec_path (c_str line)

-- The path behind the root of the device tree is what is found, whatever devspec holds.
pub get_dev_tree_path-of_node :
    (path : Bytes) (devspec : Option Bytes)
    → get_dev_tree_path (some (some (codes "/sys/firmware/devicetree/base" ++ path))) devspec
      ≡ ok path
unfolding get_dev_tree_path
get_dev_tree_path-of_node path devspec =
    rw (drop-append (codes "/sys/firmware/devicetree/base") path) refl
