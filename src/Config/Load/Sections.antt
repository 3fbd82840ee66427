-- ===== src/Config/Load/Sections.antt =====
-- The sections simulation, domain, time and modules in core/Config.hpp and core/Config.cpp.
use Prim.Native.String.{String}
use frehg.Prelude.{Result, ok, ◌>>=◌, if◌then◌else◌, Bool, false, ℤ, pos, Double}
use frehg.Config.Document.{Node, Reader, sub}
use frehg.Config.Load.{
  YamlError, as_text, value_or, text_is, as_real, as_int, real_at, flag_at, int_or_auto_value,
}
use frehg.Config.Load.Types.{
  FileOrConstant, SeriesOrConstant, extract_file_or_constant, extract_series_or_constant,
}

pub record SimulationConfig : Type 0 where
  pub id : String
  pub title : String

pub record DecompositionConfig : Type 0 where
  pub mpi_nx : ℤ
  pub mpi_ny : ℤ

pub data TerrainLayers : Type 0 where
  scaled : TerrainLayers
  uniform : TerrainLayers

pub record DomainConfig (R : Type 0) : Type 0 where
  pub nx : ℤ
  pub ny : ℤ
  pub nz : ℤ
  pub dx : R
  pub dy : R
  pub dz : R
  pub dz_stretch : R
  pub bottom_elevation : FileOrConstant R
  pub follow_terrain : Bool
  pub terrain_layers : TerrainLayers
  pub decomposition : DecompositionConfig

pub record TimeConfig (R : Type 0) : Type 0 where
  pub dt : R
  pub t_start : R
  pub t_end : R
  pub output_interval : R

pub record ModulesConfig : Type 0 where
  pub surface_water : Bool
  pub groundwater : Bool
  pub transport : Bool
  pub temperature : Bool

module _ {R : Type 0} (double : Double R) (reader : Reader R) where
  abbrev series_or_constant_of : Node → Result YamlError (SeriesOrConstant R)
  series_or_constant_of = extract_series_or_constant double reader

  abbrev file_or_constant_of : Node → Result YamlError (FileOrConstant R)
  file_or_constant_of = extract_file_or_constant double reader

  abbrev pub extract_simulation : Node → Result YamlError SimulationConfig
  extract_simulation node = do
    id ← as_text (sub node "id")
    title ← value_or as_text (sub node "title") ""
    ok (record { id = id; title = title })

  abbrev pub extract_decomposition : Node → Result YamlError DecompositionConfig
  extract_decomposition node = do
    mpi_nx ← int_or_auto_value double reader (sub node "mpi_nx")
    mpi_ny ← int_or_auto_value double reader (sub node "mpi_ny")
    ok (record { mpi_nx = mpi_nx; mpi_ny = mpi_ny })

  abbrev pub extract_domain : Node → Result YamlError (DomainConfig R)
  extract_domain node = do
    nx ← as_int double reader (sub node "nx")
    ny ← as_int double reader (sub node "ny")
    nz ← as_int double reader (sub node "nz")
    dx ← as_real double reader (sub node "dx")
    dy ← as_real double reader (sub node "dy")
    dz ← as_real double reader (sub node "dz")
    dz_stretch ← real_at double reader node "dz_stretch" (double.of_int 1)
    bottom_elevation ← file_or_constant_of (sub node "bottom_elevation")
    follow_terrain ← flag_at double reader node "follow_terrain" false
    is_uniform ← text_is (sub node "terrain_layers") "scaled" "uniform"
    decomposition ←
        value_or extract_decomposition (sub node "decomposition")
          (record { mpi_nx = pos 0; mpi_ny = pos 0 })
    ok (record {
      nx = nx;
      ny = ny;
      nz = nz;
      dx = dx;
      dy = dy;
      dz = dz;
      dz_stretch = dz_stretch;
      bottom_elevation = bottom_elevation;
      follow_terrain = follow_terrain;
      terrain_layers = if is_uniform then TerrainLayers.uniform else TerrainLayers.scaled;
      decomposition = decomposition;
    })

  abbrev pub extract_time : Node → Result YamlError (TimeConfig R)
  extract_time node = do
    dt ← as_real double reader (sub node "dt")
    t_start ← real_at double reader node "t_start" (double.of_int 0)
    t_end ← as_real double reader (sub node "t_end")
    output_interval ← as_real double reader (sub node "output_interval")
    ok (record { dt = dt; t_start = t_start; t_end = t_end; output_interval = output_interval })

  abbrev pub extract_modules : Node → Result YamlError ModulesConfig
  extract_modules node = do
    surface_water ← flag_at double reader node "surface_water" false
    groundwater ← flag_at double reader node "groundwater" false
    transport ← flag_at double reader node "transport" false
    temperature ← flag_at double reader node "temperature" false
    ok (record {
      surface_water = surface_water;
      groundwater = groundwater;
      transport = transport;
      temperature = temperature;
    })
