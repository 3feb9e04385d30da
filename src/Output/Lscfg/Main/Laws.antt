-- ===== src/Output/Lscfg/Main/Laws.antt =====
-- How lscfg ends.
use lsvpd.Base.{
  Bool, true, false, List, [], ◌∷◌, ◌++◌, ◌≡◌, refl, Option, Bytes, if◌then◌else◌, select, is_nil,
  not,
}
use lsvpd.Gatherer.{Forest, nodes}
use lsvpd.Output.{Component, System}
use lsvpd.Output.Archive.{ran, FileCall, unlinks, fetched}
use lsvpd.Output.Lscfg.{CfgFlags}
use lsvpd.Output.Lscfg.Component.{is_found, print_cfgs}
use lsvpd.Output.Lscfg.Component.Laws.{print_cfgs-dev_found}
use lsvpd.Output.Lscfg.Main.{print_cfg_fetched, print_cfg_system}

ending_of :
    (found empty : Bool) (x y : List Bytes) (f g : List FileCall)
    → found ≡ not empty
    → (lines : List Bytes) × ((if found then ran x 0 f else ran y 1 g)
        ≡ (if empty then ran lines 1 g else ran lines 0 f))
ending_of found true x y f g h = (y, rw h refl)
ending_of found false x y f g h = (x, rw h refl)

-- Of a database that is read, the run succeeds exactly if a component is found, and only then
-- removes the file that an archive was written out to.
pub print_cfg_fetched-found :
    (matches : Bytes → Bytes → Bool) (name_of : System → Option Bytes) (flags : CfgFlags)
    (compressed : Bool) (files : List FileCall) (sys : System) (forest : Forest Component)
    → (lines : List Bytes) × (print_cfg_fetched matches name_of flags compressed files
          (fetched sys forest)
        ≡ (if is_nil (select (is_found flags) (nodes forest))
            then ran lines 1 files
            else ran lines 0 (files ++ (if compressed then unlinks flags.path ∷ [] else []))))
unfolding print_cfg_fetched print_cfg_system
print_cfg_fetched-found matches name_of flags compressed files sys forest =
    ending_of (print_cfgs matches flags [] forest).1
      (is_nil (select (is_found flags) (nodes forest))) _ _ _ _
      (print_cfgs-dev_found matches flags [] forest)
