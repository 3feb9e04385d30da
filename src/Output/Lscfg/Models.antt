-- ===== src/Output/Lscfg/Models.antt =====
-- The name of the processor in src/output/lscfg.cpp. The files are arguments: the lines of the
-- model list if it opens, the line of /proc/device-tree/model-name if there is one, and what
-- `HelperFunctions::readMatchFromFile` and `parseString` of libvpd give.
use lsvpd.Base.{
  ℕ, List, [], ◌∷◌, Option, none, some, if◌then◌else◌, Bytes, codes, same, starts_with, map,
}
use lsvpd.Platform.{PlatformType, pf_opal}

-- `struct model_conv`
pub record ModelConv : Type 0 where
  pub model_number : Bytes
  pub model_name : Bytes

unfoldable pub find_model : Bytes → List ModelConv → Option Bytes
find_model model [] = none
find_model model (m ∷ models) =
    let rest = find_model model models in
    if same m.model_number model then some m.model_name else rest

-- The text behind the colon of the first ": ".
unfoldable pub behind_colon : Bytes → Option Bytes
unfolding starts_with
behind_colon [] = none
behind_colon (c ∷ cs) =
    let rest = behind_colon cs in if starts_with (codes ": ") (c ∷ cs) then some cs else rest

-- `name` stays empty where the line of /proc/cpuinfo has no ": ".
unfoldable pub name_of_cpuinfo : Bytes → Option Bytes
unfolding behind_colon
name_of_cpuinfo [] = none
name_of_cpuinfo (c ∷ cs) = elim (behind_colon (c ∷ cs)) [ none ↦ some [] | some name ↦ some name ]

module _ (parse_string : Bytes → ℕ → Bytes) where
  -- `initCPUModelList`; none if the file does not open.
  unfoldable pub init_cpu_model_list : Option (List Bytes) → Option (List ModelConv)
  init_cpu_model_list none = none
  init_cpu_model_list (some lines) = some (
      map (λ line. record { model_number = parse_string line 1; model_name = parse_string line 2 })
        lines)

  -- `getCPUModelNameFromList`: the loop goes to the next entry before it looks at one.
  unfoldable pub cpu_model_name_from_list : Bytes → Option (List Bytes) → Option Bytes
  unfolding init_cpu_model_list find_model
  cpu_model_name_from_list model file = elim (init_cpu_model_list file) [
    | none ↦ none
    | some models ↦ elim models [ [] ↦ none | _ ∷ rest ↦ find_model model rest ]
  ]

  -- `getCPUModelName`, with `OpalgetCPUModelName` for the machines under OPAL; none for -1.
  unfoldable pub cpu_model_name :
      PlatformType → Bytes → Bytes → Option Bytes → Option (List Bytes) → Option Bytes
  unfolding name_of_cpuinfo cpu_model_name_from_list
  cpu_model_name platform [] cpuinfo opal file = name_of_cpuinfo cpuinfo
  cpu_model_name pf_opal (c ∷ cs) cpuinfo opal file = opal
  cpu_model_name _ (c ∷ cs) cpuinfo opal file = cpu_model_name_from_list (c ∷ cs) file
