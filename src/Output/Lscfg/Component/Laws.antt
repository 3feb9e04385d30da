-- ===== src/Output/Lscfg/Component/Laws.antt =====
-- Which components lscfg prints, and when it says that it has found one.
use lsvpd.Base.{
  Bool, false, not, ◌||◌, List, [], ◌∷◌, ◌++◌, ◌≡◌, refl, sym, ap, ◌∙◌, inl, inr, Bytes,
  if◌then◌else◌, select, select-append, flat_map, flat_map-append, flat_map-select, append_assoc,
  is_nil, Bool-cases, codes, same, ◌&&◌,
}
use lsvpd.Gatherer.{Forest, nil, tree, nodes}
use lsvpd.Output.{Component}
use lsvpd.Output.Lscfg.{CfgFlags}
use lsvpd.Output.Lscfg.Component.{
  is_found, name_lines, verbose_lines, cfg_debug_lines, print_cfg, print_cfgs,
}

module _ (matches : Bytes → Bytes → Bool) where
  -- The lines of a component that is found.
  abbrev pub found_lines : CfgFlags → Component → List Bytes
  found_lines flags c =
      name_lines matches flags c ++ (if flags.verbose then verbose_lines c else [])

  print_cfg_lem :
      (flags : CfgFlags) (c : Component)
      → flags.debug ≡ false
      → print_cfg matches flags c ≡ (if is_found flags c then found_lines flags c else [])
  unfolding print_cfg
  print_cfg_lem flags c h =
      ap
        (λ (d : Bool).
          (if d then cfg_debug_lines c else [])
          ++ (if is_found flags c then found_lines flags c else []))
        h

  -- Without --debug the lines are those of the components that are found, each before those below
  -- it.
  pub print_cfgs-found :
      (flags : CfgFlags) (before : Bytes) (forest : Forest Component)
      → flags.debug ≡ false
      → (print_cfgs matches flags before forest).0
        ≡ flat_map (found_lines flags) (select (is_found flags) (nodes forest))
  unfolding print_cfgs
  print_cfgs-found flags before nil h = refl
  print_cfgs-found flags before (tree c leaves next) h =
      let f = found_lines flags in
      let p = is_found flags in
      ap
        (λ (d : Bool).
          (if d && not (same before []) then before ∷ [] else [])
          ++ print_cfg matches flags c
          ++ (print_cfgs matches flags (codes " - Child Device - ") leaves).0
          ++ (print_cfgs matches flags before next).0)
        h
      ∙ rw
          (
            print_cfg_lem flags c h,
            print_cfgs-found flags (codes " - Child Device - ") leaves h,
            print_cfgs-found flags before next h,
            flat_map-select f p c (nodes leaves ++ nodes next),
            select-append p (nodes leaves) (nodes next),
            flat_map-append f (select p (nodes leaves)) (select p (nodes next)),
            append_assoc (if p c then f c else []) (flat_map f (select p (nodes leaves)))
                (flat_map f (select p (nodes next))),
          )
          refl

is_nil-append :
    (xs ys : List Component) → not (is_nil (xs ++ ys)) ≡ (not (is_nil xs) || not (is_nil ys))
is_nil-append [] ys = refl
is_nil-append (x ∷ xs) ys = refl

module _ (matches : Bytes → Bytes → Bool) where
  -- `devFound` is set exactly if a component is found.
  pub print_cfgs-dev_found :
      (flags : CfgFlags) (before : Bytes) (forest : Forest Component)
      → (print_cfgs matches flags before forest).1
        ≡ not (is_nil (select (is_found flags) (nodes forest)))
  unfolding print_cfgs
  print_cfgs-dev_found flags before nil = refl
  print_cfgs-dev_found flags before (tree c leaves next) =
      let p = is_found flags in
      rw
        (
          print_cfgs-dev_found flags (codes " - Child Device - ") leaves,
          print_cfgs-dev_found flags before next,
          select-append p (nodes leaves) (nodes next),
        )
        elim (Bool-cases (p c)) [
          | inl h ↦ rw h refl
          | inr h ↦ rw h (sym (is_nil-append (select p (nodes leaves)) (select p (nodes next))))
        ]
