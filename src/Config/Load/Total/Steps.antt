-- ===== src/Config/Load/Total/Steps.antt =====
-- The groundwater section of a valid document, as it is loaded.
use frehg.Prelude.{◌≡◌, refl, inl, inr, ok, true, false, Bool-cases, Option, some, [], Double}
use frehg.Config.Document.{Node, Reader, is_defined, sub, sub2, node_as_double}
use frehg.Config.Schema.Root.{groundwater}
use frehg.Config.Check.Conforms.{Conforms}
use frehg.Config.Check.Lookup.{child, required_child}
use frehg.Config.Cross.{module_on, modules_of}
use frehg.Config.Cross.Root.{validate_root}
use frehg.Config.Valid.{root_parts, section_parts, flow_parts, groundwater_given}
use frehg.Config.Valid.Steps.{groundwater_conforms, valid_timestep}
use frehg.Config.Load.{as_text, value_or, points}
use frehg.Config.Load.Subsurface.{
  GroundwaterTimestepConfig, GroundwaterConfig, DensityCouplingConfig, extract_timestep,
  extract_density_coupling, extract_groundwater,
}
use frehg.Config.Load.Total.{
  Returns, Anything, then_loads, real_loads, choice_loads, optional_loads, real_at_loads,
  flag_at_loads, choice_at_loads, polygon_loads,
}

pub undefined_of : (node : Node) → is_defined node ≡ false → node ≡ Node.undefined
undefined_of Node.undefined h = refl
undefined_of Node.null h = absurd (cc)
undefined_of (Node.scalar s) h = absurd (cc)
undefined_of (Node.list_node items) h = absurd (cc)
undefined_of (Node.map_node given) h = absurd (cc)

pub same_value : {A : Type 0} {o : Option A} {a b : A} → o ≡ some a → o ≡ some b → a ≡ b
same_value e1 e2 = cc

module _ {R : Type 0} (double : Double R) (reader : Reader R) where
  -- The three steps of the section, as numbers of the document.
  abbrev AreSteps : Node → GroundwaterTimestepConfig R → Type 0
  AreSteps section c =
      (node_as_double reader (sub section "dt_init") ≡ some c.dt_init)
      × (node_as_double reader (sub section "dt_min") ≡ some c.dt_min)
      × (node_as_double reader (sub section "dt_max") ≡ some c.dt_max)

  module _ (node : Node) (c : Conforms double reader (groundwater double) node) where
    steps_load :
        Returns
          (AreSteps (sub node "timestep"))
          (extract_timestep double reader (sub node "timestep"))
    steps_load =
        let t = (required_child double reader "timestep" c refl).1 in
        then_loads _ (real_loads double reader (required_child double reader "dt_init" t refl).1)
          (λ a ea.
            then_loads _ (real_loads double reader (required_child double reader "dt_min" t refl).1)
              (λ b eb.
                then_loads _
                  (real_loads double reader (required_child double reader "dt_max" t refl).1)
                  (λ d ed. then_loads _ (real_at_loads double reader "dq_grow" t _ refl) (λ _ _.
                    then_loads _ (real_at_loads double reader "dq_shrink" t _ refl) (λ _ _.
                      then_loads _ (real_at_loads double reader "courant_max" t _ refl)
                        (λ _ _. (_, refl, (ea, eb, ed))))))))

    coupling_loads :
        (fallback : DensityCouplingConfig R)
        → Returns Anything (
            value_or
              (extract_density_coupling double reader)
              (sub node "density_coupling")
              fallback)
    coupling_loads fallback =
        optional_loads double reader (extract_density_coupling double reader) "density_coupling"
          fallback c refl
          (λ t. then_loads _ (flag_at_loads double reader "enabled" t _ refl) (λ _ _.
            then_loads _ (real_at_loads double reader "beta_saline" t _ refl) (λ _ _.
              then_loads _ (real_at_loads double reader "beta_saline_viscosity" t _ refl) (λ _ _.
                then_loads _ (real_at_loads double reader "thermal_expansion" t _ refl) (λ _ _.
                  then_loads _ (real_at_loads double reader "reference_temperature" t _ refl)
                    (λ _ _.
                      then_loads _
                        (choice_at_loads double reader "reallocation_gradient" t _ _ refl)
                        (λ _ _. (_, refl, tt))))))))

    region_loads : Returns Anything (points double reader (sub2 node "evaporation" "region"))
    region_loads = elim (Bool-cases (is_defined (sub node "evaporation"))) [
      | inl d ↦
          polygon_loads double reader
            (required_child double reader "region" (child double reader "evaporation" c refl d)
              refl).1
      | inr d ↦ rw (undefined_of (sub node "evaporation") d) ([], refl, tt)
    ]

    groundwater_loads :
        Returns
          (λ g. AreSteps (sub node "timestep") g.timestep)
          (extract_groundwater double reader node)
    groundwater_loads =
        then_loads _
          (optional_loads double reader as_text "scheme" _ c refl (choice_loads double reader))
          (λ _ _. then_loads _ (flag_at_loads double reader "use_full3d" c _ refl) (λ _ _.
            then_loads _ steps_load (λ _ steps.
              then_loads _
                (real_loads double reader
                  (required_child double reader "specific_storage" c refl).1)
                (λ _ _.
                  then_loads _ (choice_at_loads double reader "reallocation_surplus" c _ _ refl)
                    (λ _ _.
                      then_loads _ (coupling_loads _)
                        (λ _ _. then_loads _ region_loads (λ _ _. (_, refl, steps))))))))

  valid_groundwater :
      (root : Node)
      → validate_root double reader root ≡ []
      → module_on reader root "groundwater" ≡ true
      → Conforms double reader (groundwater double) (sub root "groundwater")
  valid_groundwater root valid gw =
      let (schema, cross) = root_parts double reader root valid in
      let (sections, _) = flow_parts double reader root cross in
      let (modules, _) = section_parts double reader root sections in
      groundwater_conforms double reader root schema
        (groundwater_given double reader (modules_of reader root) root modules gw)

  -- If a document has no error and the groundwater module is on, then its groundwater section loads,
  -- and the steps of the loaded section are positive with dt_min ≤ dt_init ≤ dt_max.
  pub valid_groundwater_loads :
      (root : Node)
      → validate_root double reader root ≡ []
      → module_on reader root "groundwater" ≡ true
      → (c : GroundwaterConfig R) × (extract_groundwater double reader (sub root "groundwater")
          ≡ ok c)
        × (double.lt (double.of_int 0) c.timestep.dt_min ≡ true)
        × (double.le c.timestep.dt_min c.timestep.dt_init ≡ true)
        × (double.le c.timestep.dt_init c.timestep.dt_max ≡ true)
  valid_groundwater_loads root valid gw =
      let (least, first, greatest, e1, e2, e3, positive, low, high) =
        valid_timestep double reader root valid gw in
      let (c, e, (r2, r1, r3)) =
        groundwater_loads (sub root "groundwater") (valid_groundwater root valid gw) in
      let s1 : c.timestep.dt_min ≡ least = same_value r1 e1 in
      let s2 : c.timestep.dt_init ≡ first = same_value r2 e2 in
      let s3 : c.timestep.dt_max ≡ greatest = same_value r3 e3 in
      (c, e, rw s1 positive, rw (s1, s2) low, rw (s2, s3) high)
