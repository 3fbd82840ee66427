-- ===== src/Config/Load/Initial.antt =====
-- The sections initial_conditions and solver in core/Config.hpp and core/Config.cpp.
use Prim.Native.String.{String}
use frehg.Prelude.{Result, ok, ◌>>=◌, if◌then◌else◌, Bool, false, ◌&&◌, ℤ, pos, Double}
use frehg.Config.Document.{Node, Reader, is_defined, sub}
use frehg.Config.Load.{YamlError, as_text, value_or, as_int, real_at}
use frehg.Config.Load.Types.{FileOrConstant, no_file, extract_file_or_constant}
use frehg.Config.Load.Subsurface.{GroundwaterForm}

pub record SurfaceInitialConfig (R : Type 0) : Type 0 where
  pub eta : FileOrConstant R
  pub has_uu : Bool
  pub uu : FileOrConstant R
  pub has_vv : Bool
  pub vv : FileOrConstant R

pub record GroundwaterInitialConfig (R : Type 0) : Type 0 where
  pub form : GroundwaterForm
  pub value : FileOrConstant R

pub record TransportInitialConfig (R : Type 0) : Type 0 where
  pub surface : FileOrConstant R
  pub groundwater : FileOrConstant R

pub record InitialConditionsConfig (R : Type 0) : Type 0 where
  pub surface : SurfaceInitialConfig R
  pub groundwater : GroundwaterInitialConfig R
  pub transport : TransportInitialConfig R
  pub temperature : TransportInitialConfig R

pub record SolverSystemConfig (R : Type 0) : Type 0 where
  pub preconditioner : String
  pub mat_type : String
  pub rtol : R
  pub atol : R
  pub max_iterations : ℤ
  pub reuse_max_solves : ℤ
  pub reuse_iteration_factor : R

module _ {R : Type 0} (double : Double R) (reader : Reader R) where
  abbrev value_of : Node → Result YamlError (FileOrConstant R)
  value_of = extract_file_or_constant double reader

  abbrev value_at : Node → String → Result YamlError (FileOrConstant R)
  value_at node key = value_or value_of (sub node key) (no_file double reader)

  abbrev pub extract_surface_initial : Node → Result YamlError (SurfaceInitialConfig R)
  extract_surface_initial node = do
    eta ← value_of (sub node "eta")
    uu ← value_at node "uu"
    vv ← value_at node "vv"
    ok (record {
      eta = eta;
      has_uu = is_defined (sub node "uu");
      uu = uu;
      has_vv = is_defined (sub node "vv");
      vv = vv;
    })

  -- The defaults of `SurfaceInitialConfig` and `GroundwaterInitialConfig`.
  abbrev pub no_surface : SurfaceInitialConfig R
  no_surface = record {
    eta = no_file double reader;
    has_uu = false;
    uu = no_file double reader;
    has_vv = false;
    vv = no_file double reader;
  }

  abbrev pub no_groundwater : GroundwaterInitialConfig R
  no_groundwater = record { form = GroundwaterForm.head; value = no_file double reader }

  abbrev groundwater_of : GroundwaterForm → Node → Result YamlError (GroundwaterInitialConfig R)
  groundwater_of form node = value_of node >>= λ value. ok (record { form = form; value = value })

  abbrev pub extract_groundwater_initial : Node → Result YamlError (GroundwaterInitialConfig R)
  extract_groundwater_initial node =
      if is_defined (sub node "water_table")
      then groundwater_of GroundwaterForm.water_table (sub node "water_table")
      else (if is_defined (sub node "head")
          then groundwater_of GroundwaterForm.head (sub node "head")
          else groundwater_of GroundwaterForm.moisture (sub node "moisture"))

  abbrev pub extract_scalar_initial : Node → Result YamlError (TransportInitialConfig R)
  extract_scalar_initial node = do
    surface ← value_at node "surface"
    groundwater ← value_at node "groundwater"
    ok (record { surface = surface; groundwater = groundwater })

  -- With the flag of the groundwater module.
  abbrev pub extract_initial_conditions : Bool → Node → Result YamlError (InitialConditionsConfig R)
  extract_initial_conditions groundwater_on node = do
    surface ← value_or extract_surface_initial (sub node "surface") no_surface
    groundwater ←
        (if groundwater_on && is_defined (sub node "groundwater")
          then extract_groundwater_initial (sub node "groundwater")
          else ok no_groundwater)
    transport ← extract_scalar_initial (sub node "transport")
    temperature ← extract_scalar_initial (sub node "temperature")
    ok (record {
      surface = surface;
      groundwater = groundwater;
      transport = transport;
      temperature = temperature;
    })

  -- The defaults of a linear system, with its cap of iterations.
  abbrev pub default_system : ℤ → SolverSystemConfig R
  default_system cap = record {
    preconditioner = "bjacobi-icc";
    mat_type = "aij";
    rtol = double.scaled 1 8;
    atol = double.scaled 1 14;
    max_iterations = cap;
    reuse_max_solves = pos 50;
    reuse_iteration_factor = double.scaled 15 1;
  }

  -- `parseSystem`: the keys that are given replace those of `out`.
  abbrev pub parse_system : Node → SolverSystemConfig R → Result YamlError (SolverSystemConfig R)
  parse_system node out = do
    preconditioner ← value_or as_text (sub node "preconditioner") out.preconditioner
    mat_type ← value_or as_text (sub node "mat_type") out.mat_type
    rtol ← real_at double reader node "rtol" out.rtol
    atol ← real_at double reader node "atol" out.atol
    max_iterations ← value_or (as_int double reader) (sub node "max_iterations") out.max_iterations
    reuse_max_solves ←
        value_or (as_int double reader) (sub node "reuse_max_solves") out.reuse_max_solves
    factor ← real_at double reader node "reuse_iteration_factor" out.reuse_iteration_factor
    ok (record {
      preconditioner = preconditioner;
      mat_type = mat_type;
      rtol = rtol;
      atol = atol;
      max_iterations = max_iterations;
      reuse_max_solves = reuse_max_solves;
      reuse_iteration_factor = factor;
    })
