-- ===== src/Config/Load/Outputs.antt =====
-- The sections boundary_conditions, output and restart in core/Config.hpp and core/Config.cpp.
use Prim.Native.String.{String}
use frehg.Prelude.{Result, ok, fatal, ◌>>=◌, if◌then◌else◌, Bool, false, List, [], ℤ, Double}
use frehg.Config.Document.{Node, Reader, str_eq, is_defined, sub, sub2}
use frehg.Config.Load.{
  YamlError, as_text, value_or, text_is, each, entries, as_real, as_int, real_at, flag_at, points,
}

pub data BcTarget : Type 0 where
  surface_target : BcTarget
  groundwater_top : BcTarget
  groundwater_bottom : BcTarget
  groundwater_side : BcTarget

pub data BcKind : Type 0 where
  eta_kind : BcKind
  discharge : BcKind
  velocity : BcKind
  outflow : BcKind
  head_kind : BcKind
  flux : BcKind
  scalar_value : BcKind
  scalar_cauchy : BcKind

pub data BcScalar : Type 0 where
  salinity : BcScalar
  temperature_scalar : BcScalar

pub data BcForm : Type 0 where
  constant_form : BcForm
  series_form : BcForm
  gravity_form : BcForm
  hydrostatic_form : BcForm

pub record BcValueConfig (R : Type 0) : Type 0 where
  pub form : BcForm
  pub constant : R
  pub series_file : String
  pub hydrostatic_eta : R

pub record BoundaryConditionConfig (R : Type 0) : Type 0 where
  pub name : String
  pub polygon : List (R × R)
  pub target : BcTarget
  pub kind : BcKind
  pub scalar_field : BcScalar
  pub value : BcValueConfig R

pub record MonitorConfig : Type 0 where
  pub name : String
  pub i : ℤ
  pub j : ℤ
  pub variables : List String

pub record OutputConfig (R : Type 0) : Type 0 where
  pub filename : String
  pub surface_variables : List String
  pub groundwater_variables : List String
  pub transport_variables : List String
  pub temperature_variables : List String
  pub monitors : List MonitorConfig
  pub checkpoint_interval : R

pub record RestartConfig (R : Type 0) : Type 0 where
  pub enabled : Bool
  pub file : String
  pub time : R

abbrev pub target_from_string : String → BcTarget
target_from_string s =
    if str_eq s "surface"
    then BcTarget.surface_target
    else (if str_eq s "groundwater_top"
        then BcTarget.groundwater_top
        else (if str_eq s "groundwater_bottom"
            then BcTarget.groundwater_bottom
            else (BcTarget.groundwater_side)))

abbrev pub kind_from_string : String → BcKind
kind_from_string s =
    if str_eq s "eta"
    then BcKind.eta_kind
    else (if str_eq s "discharge"
        then BcKind.discharge
        else (if str_eq s "velocity"
            then BcKind.velocity
            else (if str_eq s "outflow"
                then BcKind.outflow
                else (if str_eq s "head"
                    then BcKind.head_kind
                    else (if str_eq s "flux"
                        then BcKind.flux
                        else (if str_eq s "scalar_cauchy"
                            then BcKind.scalar_cauchy
                            else (BcKind.scalar_value)))))))

module _ {R : Type 0} (double : Double R) (reader : Reader R) where
  abbrev bc_value_record : BcForm → R → String → R → BcValueConfig R
  bc_value_record form constant file eta = record {
    form = form;
    constant = constant;
    series_file = file;
    hydrostatic_eta = eta;
  }

  abbrev pub extract_bc_value : Node → Result YamlError (BcValueConfig R)
  extract_bc_value node =
      let zero = double.of_int 0 in
      if is_defined (sub node "constant")
      then (as_real double reader (sub node "constant") >>= λ value.
          ok (bc_value_record BcForm.constant_form value "" zero))
      else (if is_defined (sub node "series")
          then (as_text (sub2 node "series" "file") >>= λ file.
              ok (bc_value_record BcForm.series_form zero file zero))
          else (if is_defined (sub node "gravity")
              then ok (bc_value_record BcForm.gravity_form zero "" zero)
              else (as_real double reader (sub2 node "hydrostatic" "eta") >>= λ eta.
                  ok (bc_value_record BcForm.hydrostatic_form zero "" eta))))

  abbrev pub extract_boundary_condition : Node → Result YamlError (BoundaryConditionConfig R)
  extract_boundary_condition node = do
    name ← as_text (sub node "name")
    polygon ← points double reader (sub node "region")
    target ← as_text (sub node "target")
    kind ← as_text (sub node "kind")
    is_temperature ← text_is (sub node "scalar") "salinity" "temperature"
    value ←
        value_or extract_bc_value (sub node "value")
          (bc_value_record BcForm.constant_form (double.of_int 0) "" (double.of_int 0))
    ok (record {
      name = name;
      polygon = polygon;
      target = target_from_string target;
      kind = kind_from_string kind;
      scalar_field = if is_temperature then BcScalar.temperature_scalar else BcScalar.salinity;
      value = value;
    })

  abbrev pub extract_boundary_conditions :
      Node → Result YamlError (List (BoundaryConditionConfig R))
  extract_boundary_conditions node = entries extract_boundary_condition node

  -- A conversion to a list of texts.
  abbrev pub as_texts : Node → Result YamlError (List String)
  as_texts (Node.list_node items) = each as_text items
  as_texts node = fatal YamlError.bad_conversion

  abbrev pub texts : Node → String → Result YamlError (List String)
  texts node key = value_or as_texts (sub node key) []

  abbrev pub extract_monitor : Node → Result YamlError MonitorConfig
  extract_monitor node = do
    name ← as_text (sub node "name")
    i ← as_int double reader (sub node "i")
    j ← as_int double reader (sub node "j")
    variables ← as_texts (sub node "variables")
    ok (record { name = name; i = i; j = j; variables = variables })

  abbrev pub extract_output : Node → Result YamlError (OutputConfig R)
  extract_output node = do
    filename ← as_text (sub node "filename")
    surface_variables ← texts (sub node "variables") "surface"
    groundwater_variables ← texts (sub node "variables") "groundwater"
    transport_variables ← texts (sub node "variables") "transport"
    temperature_variables ← texts (sub node "variables") "temperature"
    monitors ← entries extract_monitor (sub node "monitors")
    checkpoint_interval ← real_at double reader (sub node "checkpoint") "interval" (double.of_int 0)
    ok (record {
      filename = filename;
      surface_variables = surface_variables;
      groundwater_variables = groundwater_variables;
      transport_variables = transport_variables;
      temperature_variables = temperature_variables;
      monitors = monitors;
      checkpoint_interval = checkpoint_interval;
    })

  abbrev pub extract_restart : Node → Result YamlError (RestartConfig R)
  extract_restart node = do
    enabled ← flag_at double reader node "enabled" false
    file ← value_or as_text (sub node "file") ""
    time ← real_at double reader node "time" (double.of_int 0)
    ok (record { enabled = enabled; file = file; time = time })
