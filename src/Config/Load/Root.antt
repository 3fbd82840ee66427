-- ===== src/Config/Load/Root.antt =====
-- `loadConfig` of core/Config.cpp on a document. A section that is not there stays `none`, where the
-- source keeps the defaults of its struct.
use Prim.Native.String.{String}
use frehg.Prelude.{
  Result, ok, fatal, ◌>>=◌, if◌then◌else◌, Option, none, some, List, [], ◌∷◌, pos, Double,
}
use frehg.Config.Document.{Node, Reader, str_eq, sub, sub2}
use frehg.Config.Check.{ConfigError}
use frehg.Config.Cross.Root.{validate_root}
use frehg.Config.Load.{YamlError, as_text, value_or, text_is}
use frehg.Config.Load.Sections.{
  SimulationConfig, DomainConfig, TimeConfig, ModulesConfig, extract_simulation, extract_domain,
  extract_time, extract_modules,
}
use frehg.Config.Load.Surface.{
  SurfaceWaterConfig, AtmosphereConfig, extract_surface_water, extract_atmosphere,
}
use frehg.Config.Load.Subsurface.{GroundwaterConfig, SoilConfig, extract_groundwater, extract_soil}
use frehg.Config.Load.Scalars.{
  TransportConfig, TemperatureConfig, extract_transport, extract_temperature,
}
use frehg.Config.Load.Outputs.{
  BoundaryConditionConfig, OutputConfig, RestartConfig, extract_boundary_conditions, extract_output,
  extract_restart,
}
use frehg.Config.Load.Initial.{
  InitialConditionsConfig, SolverSystemConfig, extract_initial_conditions, default_system,
  parse_system,
}

pub data CouplingMode : Type 0 where
  sync : CouplingMode
  subcycled : CouplingMode

pub data GpuAwareMpi : Type 0 where
  auto_mpi : GpuAwareMpi
  on_mpi : GpuAwareMpi
  off_mpi : GpuAwareMpi

pub record FrehgConfig (R : Type 0) : Type 0 where
  pub simulation : SimulationConfig
  pub domain : DomainConfig R
  pub time : TimeConfig R
  pub modules : ModulesConfig
  pub atmosphere : Option (AtmosphereConfig R)
  pub surface_water : Option (SurfaceWaterConfig R)
  pub groundwater : Option (GroundwaterConfig R)
  pub soil : Option (SoilConfig R)
  pub coupling : CouplingMode
  pub initial_conditions : Option (InitialConditionsConfig R)
  pub boundary_conditions : List (BoundaryConditionConfig R)
  pub transport : Option (TransportConfig R)
  pub temperature : Option (TemperatureConfig R)
  pub output : OutputConfig R
  pub restart : RestartConfig R
  pub surface_solver : SolverSystemConfig R
  pub groundwater_solver : SolverSystemConfig R
  pub petsc_options_file : String
  pub gpu_aware_mpi : GpuAwareMpi

pub data LoadError : Type 0 where
  invalid : List ConfigError → LoadError
  thrown : YamlError → LoadError

abbrev pub gpu_mode : String → GpuAwareMpi
gpu_mode mode =
    if str_eq mode "on"
    then GpuAwareMpi.on_mpi
    else (if str_eq mode "off" then GpuAwareMpi.off_mpi else GpuAwareMpi.auto_mpi)

abbrev pub section : {A : Type 0} → (Node → Result YamlError A) → Node → Result YamlError (Option A)
section extract node = value_or (λ n. extract n >>= λ a. ok (some a)) node none

module _ {R : Type 0} (double : Double R) (reader : Reader R) where
  abbrev pub extract_config : Node → Result YamlError (FrehgConfig R)
  extract_config root = do
    simulation ← extract_simulation double reader (sub root "simulation")
    domain ← extract_domain double reader (sub root "domain")
    time ← extract_time double reader (sub root "time")
    modules ← extract_modules double reader (sub root "modules")
    atmosphere ← section (extract_atmosphere double reader) (sub root "atmosphere")
    surface_water ← section (extract_surface_water double reader) (sub root "surface_water")
    groundwater ← section (extract_groundwater double reader) (sub root "groundwater")
    soil ← section (extract_soil double reader) (sub root "soil")
    is_subcycled ← text_is (sub2 root "coupling" "mode") "sync" "subcycled"
    initial ←
        section (extract_initial_conditions double reader modules.groundwater)
          (sub root "initial_conditions")
    conditions ← extract_boundary_conditions double reader (sub root "boundary_conditions")
    transport ← section (extract_transport double reader) (sub root "transport")
    temperature ← section (extract_temperature double reader) (sub root "temperature")
    output ← extract_output double reader (sub root "output")
    restart ← extract_restart double reader (sub root "restart")
    surface_solver ←
        parse_system double reader (sub2 root "solver" "surface")
          (default_system double reader (pos 500))
    groundwater_solver ←
        parse_system double reader (sub2 root "solver" "groundwater")
          (default_system double reader (pos 1000))
    options_file ← value_or as_text (sub2 root "solver" "petsc_options_file") ""
    mode ← value_or as_text (sub2 root "runtime" "gpu_aware_mpi") "auto"
    ok (record {
      simulation = simulation;
      domain = domain;
      time = time;
      modules = modules;
      atmosphere = atmosphere;
      surface_water = surface_water;
      groundwater = groundwater;
      soil = soil;
      coupling = if is_subcycled then CouplingMode.subcycled else CouplingMode.sync;
      initial_conditions = initial;
      boundary_conditions = conditions;
      transport = transport;
      temperature = temperature;
      output = output;
      restart = restart;
      surface_solver = surface_solver;
      groundwater_solver = groundwater_solver;
      petsc_options_file = options_file;
      gpu_aware_mpi = gpu_mode mode;
    })

  -- A document with errors is refused before anything is read of it.
  unfoldable pub load_config : Node → Result LoadError (FrehgConfig R)
  load_config root = elim (validate_root double reader root) [
    | [] ↦ (elim (extract_config root) [ ok c ↦ ok c | fatal e ↦ fatal (LoadError.thrown e) ])
    | e ∷ errors ↦ fatal (LoadError.invalid (e ∷ errors))
  ]
