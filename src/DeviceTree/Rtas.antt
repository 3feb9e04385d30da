-- ===== src/DeviceTree/Rtas.antt =====
-- `parseRtasVpd`: the components that the whole RTAS data describes, one buffer after another.
pub mod Sections
use lsvpd.Base.{
  ℕ, zero, suc, ◌+◌, ◌^◌, Bool, true, false, ◌||◌, ◌&&◌, List, [], ◌∷◌, ◌++◌, ◌==◌, ltb, leb,
  if◌then◌else◌, Bytes, codes, same, drop,
}
use lsvpd.Platform.{PlatformType}
use lsvpd.Vpd.{Call}
use lsvpd.DeviceTree.Buffer.{Host, Outcome, ok, fault, parse_vpd_buffer}

-- A new component: what it was told, and the id that stands in `idNode` and `deviceTreeNode`.
pub record RtasDevice : Type 0 where
  pub calls : List Call
  pub id : Bytes

-- `(int) ret > 0`
abbrev int_positive : ℕ → Bool
int_positive ret = ltb 0 ret && ltb ret (2 ^ 31)

abbrev with_device : RtasDevice → Outcome (List RtasDevice) → Outcome (List RtasDevice)
with_device d (ok ds) = ok (d ∷ ds)
with_device d fault = fault

-- What libvpd's `getDescription` and `getPhysicalLocation` return on a new component after calls.
module _ (get_description get_physical_location : List Call → Bytes) where
  new_device : List Call → RtasDevice
  new_device cs = record {
    calls = cs;
    id = codes "/proc/device-tree/rtas/" ++ get_physical_location cs;
  }

  -- A parsed buffer adds a component, unless it is the system's own.
  add_device : List Call → Outcome (List RtasDevice) → Outcome (List RtasDevice)
  unfolding new_device
  add_device cs rest =
      if same (get_description cs) (codes "System VPD")
      then rest
      else with_device (new_device cs) rest

  -- The loop, with the rounds that may still be made, the bytes from `rtasData` on and `size`.
  unfoldable pub parse_sections :
      Host → PlatformType → ℕ → ℕ → Bytes → ℕ → Outcome (List RtasDevice)
  unfolding add_device
  parse_sections host p total zero buf size = ok []
  parse_sections host p total (suc fuel) buf size = elim (ltb size total) [
    | false ↦ ok []
    | true ↦ elim (parse_vpd_buffer host p buf) [
      | fault ↦ fault
      | ok (ret, cs) ↦ elim (ret == 0) [
        | true ↦ ok []
        | false ↦ add_device cs (elim (int_positive ret) [
          | true ↦ parse_sections host p total fuel (drop ret buf) (size + ret)
          | false ↦ ok []
        ])
      ]
    ]
  ]

  -- `rtasData` is not NULL; `total` is `rtasDataSize`, which is read as a signed number.
  unfoldable pub parse_rtas_vpd : Host → PlatformType → Bytes → ℕ → Outcome (List RtasDevice)
  unfolding parse_sections
  parse_rtas_vpd host p buf total =
      if total == 0 || leb (2 ^ 63) total then ok [] else parse_sections host p total total buf 0
