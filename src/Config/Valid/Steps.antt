-- ===== src/Config/Valid/Steps.antt =====
-- The time steps of a valid document.
use Prim.Native.String.{String}
use frehg.Prelude.{◌≡◌, refl, sym, true, ◌&&◌, some, [], Double, arith}
use frehg.Config.Document.{Node, Reader, is_defined, is_map, sub, sub2, node_as_double, real_or}
use frehg.Config.Schema.{real_positive}
use frehg.Config.Schema.Sections.{time}
use frehg.Config.Schema.Root.{build_root_schema, groundwater}
use frehg.Config.Check.Conforms.{Conforms}
use frehg.Config.Check.Leaves.{add_error_if_none, not-false}
use frehg.Config.Check.Lookup.{child, required_child, is_map_of_map, real_value}
use frehg.Config.Cross.{module_on, modules_of}
use frehg.Config.Cross.Flow.{step_of, check_timestep}
use frehg.Config.Cross.Root.{validate_root}
use frehg.Config.Valid.{root_parts, section_parts, flow_parts, groundwater_given}

module _ {R : Type 0} (double : Double R) (reader : Reader R) where
  abbrev timestep_of : Node → Node
  timestep_of root = sub2 root "groundwater" "timestep"

  pub groundwater_conforms :
      (root : Node)
      → Conforms double reader (build_root_schema double) root
      → is_defined (sub root "groundwater") ≡ true
      → Conforms double reader (groundwater double) (sub root "groundwater")
  unfolding build_root_schema
  groundwater_conforms root c d = child double reader "groundwater" c refl d

  step_value :
      (section : Node) (name : String)
      → (is_defined (sub section name) ≡ true)
        × Conforms double reader (real_positive double) (sub section name)
      → (value : R) × (node_as_double reader (sub section name) ≡ some value)
        × (step_of double reader section name ≡ value)
        × (double.lt (double.of_int 0) value ≡ true)
  step_value section name (d, c) =
      let (value, e, low, high, whole) = real_value double reader c in
      (value, e, rw (e, real_or) refl, low)

  ordered :
      (root : Node) (least first greatest : R)
      → check_timestep double reader root ≡ []
      → is_map (timestep_of root) ≡ true
      → is_defined (sub (timestep_of root) "dt_min") ≡ true
      → is_defined (sub (timestep_of root) "dt_init") ≡ true
      → is_defined (sub (timestep_of root) "dt_max") ≡ true
      → step_of double reader (timestep_of root) "dt_min" ≡ least
      → step_of double reader (timestep_of root) "dt_init" ≡ first
      → step_of double reader (timestep_of root) "dt_max" ≡ greatest
      → (double.le least first ≡ true) × (double.le first greatest ≡ true)
  ordered root least first greatest h m d1 d2 d3 e1 e2 e3 =
      let k = not-false _ (rw (m, d1, d2, d3) at (add_error_if_none _ _ _ h)) in
      let k' : double.le least first && double.le first greatest ≡ true =
        rw (sym e1, sym e2, sym e3) k in
      (ground arith, ground arith)

  -- If a document has no error and the groundwater module is on, then the three steps of its
  -- groundwater section are positive numbers with dt_min ≤ dt_init ≤ dt_max.
  pub valid_timestep :
      (root : Node)
      → validate_root double reader root ≡ []
      → module_on reader root "groundwater" ≡ true
      → (dt_min dt_init dt_max : R) × (node_as_double reader (sub (timestep_of root) "dt_min")
          ≡ some dt_min)
        × (node_as_double reader (sub (timestep_of root) "dt_init") ≡ some dt_init)
        × (node_as_double reader (sub (timestep_of root) "dt_max") ≡ some dt_max)
        × (double.lt (double.of_int 0) dt_min ≡ true)
        × (double.le dt_min dt_init ≡ true)
        × (double.le dt_init dt_max ≡ true)
  valid_timestep root valid gw =
      let (schema, cross) = root_parts double reader root valid in
      let (sections, timestep) = flow_parts double reader root cross in
      let (modules, time) = section_parts double reader root sections in
      let given = groundwater_given double reader (modules_of reader root) root modules gw in
      let (there, steps) =
        required_child double reader "timestep" (groundwater_conforms root schema given) refl in
      let least = required_child double reader "dt_min" steps refl in
      let first = required_child double reader "dt_init" steps refl in
      let greatest = required_child double reader "dt_max" steps refl in
      let (dt_min, r1, s1, p1) = step_value (timestep_of root) "dt_min" least in
      let (dt_init, r2, s2, p2) = step_value (timestep_of root) "dt_init" first in
      let (dt_max, r3, s3, p3) = step_value (timestep_of root) "dt_max" greatest in
      let (low, high) =
        ordered root dt_min dt_init dt_max timestep (is_map_of_map double reader steps) least.0
          first.0 greatest.0 s1 s2 s3 in
      (dt_min, dt_init, dt_max, r1, r2, r3, p1, low, high)

  time_conforms :
      (root : Node)
      → Conforms double reader (build_root_schema double) root
      → Conforms double reader (time double) (sub root "time")
  unfolding build_root_schema
  time_conforms root c = (required_child double reader "time" c refl).1

  -- If a document has no error, then its time section has an end, a positive number, and the start,
  -- which is 0 where none is given, lies before it.
  pub valid_time :
      (root : Node)
      → validate_root double reader root ≡ []
      → (t_end : R) × (node_as_double reader (sub2 root "time" "t_end") ≡ some t_end)
        × (double.lt (double.of_int 0) t_end ≡ true)
        × (double.lt (real_or reader (sub2 root "time" "t_start") (double.of_int 0)) t_end ≡ true)
  valid_time root valid =
      let (schema, cross) = root_parts double reader root valid in
      let (sections, timestep) = flow_parts double reader root cross in
      let (modules, h) = section_parts double reader root sections in
      let section = time_conforms root schema in
      let end = required_child double reader "t_end" section refl in
      let (t_end, r, s, p) = step_value (sub root "time") "t_end" end in
      let later =
        not-false _
          (rw (is_map_of_map double reader section, end.0) at (add_error_if_none _ _ _ h)) in
      (t_end, r, p, rw s at later)
