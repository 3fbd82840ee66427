-- ===== src/Config/Load/Surface.antt =====
-- The sections surface_water and atmosphere in core/Config.hpp and core/Config.cpp.
use Prim.Native.String.{String}
use frehg.Prelude.{Result, ok, ◌>>=◌, if◌then◌else◌, Bool, true, false, ◌||◌, List, [], Double}
use frehg.Config.Document.{Node, Reader, str_eq, is_defined, sub}
use frehg.Config.Load.{YamlError, as_text, value_or, text_is, as_real, real_at, flag_at, points}
use frehg.Config.Load.Types.{
  FileOrConstant, SeriesOrConstant, no_series, extract_file_or_constant, extract_series_or_constant,
}

pub data Law : Type 0 where
  manning : Law
  chezy : Law

pub data DragLaw : Type 0 where
  constant_law : DragLaw
  garratt : DragLaw
  smith_banke : DragLaw
  wu : DragLaw
  large_pond : DragLaw

pub data EvapMode : Type 0 where
  prescribed : EvapMode
  bulk : EvapMode

pub record FrictionConfig (R : Type 0) : Type 0 where
  pub law : Law
  pub coefficient : FileOrConstant R
  pub thin_layer_depth : R

pub record WindConfig (R : Type 0) : Type 0 where
  pub enabled : Bool
  pub law : DragLaw
  pub cd : R
  pub cap : R
  pub attenuation_depth : R
  pub north_angle : R
  pub component_form : Bool
  pub speed : SeriesOrConstant R
  pub direction : SeriesOrConstant R
  pub u10 : SeriesOrConstant R
  pub v10 : SeriesOrConstant R

pub record SurfaceWaterConfig (R : Type 0) : Type 0 where
  pub gravity : R
  pub friction : FrictionConfig R
  pub viscosity_x : R
  pub viscosity_y : R
  pub min_depth : R
  pub wetting_face_depth : R
  pub wind : WindConfig R
  pub rainfall : SeriesOrConstant R
  pub rainfall_exclude_polygon : List (R × R)
  pub evap_mode : EvapMode
  pub evaporation : SeriesOrConstant R
  pub evaporation_exclude_polygon : List (R × R)

pub record AtmosphereConfig (R : Type 0) : Type 0 where
  pub present : Bool
  pub air_temperature : SeriesOrConstant R
  pub has_surface_temperature : Bool
  pub surface_temperature : SeriesOrConstant R
  pub pressure : SeriesOrConstant R
  pub humidity_is_relative : Bool
  pub relative_humidity : SeriesOrConstant R
  pub specific_humidity : SeriesOrConstant R
  pub wind_speed : SeriesOrConstant R
  pub shortwave : SeriesOrConstant R
  pub longwave_in : SeriesOrConstant R
  pub wind_speed_floor : R

abbrev pub drag_law : String → DragLaw
drag_law law =
    if str_eq law "garratt"
    then DragLaw.garratt
    else (if str_eq law "smith-banke"
        then DragLaw.smith_banke
        else (if str_eq law "wu"
            then DragLaw.wu
            else (if str_eq law "large-pond" then DragLaw.large_pond else DragLaw.constant_law)))

module _ {R : Type 0} (double : Double R) (reader : Reader R) where
  abbrev series_or_constant_of : Node → Result YamlError (SeriesOrConstant R)
  series_or_constant_of = extract_series_or_constant double reader

  abbrev file_or_constant_of : Node → Result YamlError (FileOrConstant R)
  file_or_constant_of = extract_file_or_constant double reader

  abbrev pub extract_friction : Node → Result YamlError (FrictionConfig R)
  extract_friction node = do
    is_chezy ← text_is (sub node "law") "manning" "chezy"
    coefficient ← file_or_constant_of (sub node "coefficient")
    thin_layer_depth ← real_at double reader node "thin_layer_depth" (double.scaled 1 1)
    ok (record {
      law = if is_chezy then Law.chezy else Law.manning;
      coefficient = coefficient;
      thin_layer_depth = thin_layer_depth;
    })

  abbrev pub extract_wind : Node → Result YamlError (WindConfig R)
  extract_wind node = do
    enabled ← flag_at double reader node "enabled" false
    law ← value_or as_text (sub node "law") "constant"
    cd ← real_at double reader node "cd" (double.scaled 13 4)
    cap ← real_at double reader node "cap" (double.scaled 35 4)
    attenuation_depth ← real_at double reader node "attenuation_depth" (double.of_int 5)
    north_angle ← real_at double reader node "north_angle" (double.of_int 0)
    u10 ← value_or series_or_constant_of (sub node "u10") (no_series double reader)
    v10 ← value_or series_or_constant_of (sub node "v10") (no_series double reader)
    speed ← value_or series_or_constant_of (sub node "speed") (no_series double reader)
    direction ← value_or series_or_constant_of (sub node "direction") (no_series double reader)
    ok (record {
      enabled = enabled;
      law = drag_law law;
      cd = cd;
      cap = cap;
      attenuation_depth = attenuation_depth;
      north_angle = north_angle;
      component_form = is_defined (sub node "u10") || is_defined (sub node "v10");
      speed = speed;
      direction = direction;
      u10 = u10;
      v10 = v10;
    })

  -- The defaults of `WindConfig`.
  abbrev no_wind : WindConfig R
  no_wind = record {
    enabled = false;
    law = DragLaw.constant_law;
    cd = double.scaled 13 4;
    cap = double.scaled 35 4;
    attenuation_depth = double.of_int 5;
    north_angle = double.of_int 0;
    component_form = false;
    speed = (no_series double reader);
    direction = (no_series double reader);
    u10 = (no_series double reader);
    v10 = (no_series double reader);
  }

  abbrev pub extract_forcing : Node → Result YamlError (SeriesOrConstant R × List (R × R))
  extract_forcing node = do
    series ← series_or_constant_of node
    polygon ← value_or (points double reader) (sub node "exclude") []
    ok (series, polygon)

  abbrev pub extract_evaporation :
      Node → Result YamlError (EvapMode × (SeriesOrConstant R × List (R × R)))
  extract_evaporation node = do
    is_bulk ← text_is (sub node "mode") "prescribed" "bulk"
    if is_bulk
        then ok (EvapMode.bulk, ((no_series double reader), []))
        else (extract_forcing node >>= λ forcing. ok (EvapMode.prescribed, forcing))

  abbrev pub extract_surface_water : Node → Result YamlError (SurfaceWaterConfig R)
  extract_surface_water node = do
    gravity ← real_at double reader node "gravity" (double.scaled 981 2)
    friction ← extract_friction (sub node "friction")
    viscosity_x ← real_at double reader (sub node "viscosity") "x" (double.scaled 1 6)
    viscosity_y ← real_at double reader (sub node "viscosity") "y" (double.scaled 1 6)
    min_depth ← as_real double reader (sub node "min_depth")
    wetting_face_depth ← as_real double reader (sub node "wetting_face_depth")
    wind ← value_or extract_wind (sub node "wind") no_wind
    rain ← value_or extract_forcing (sub node "rainfall") ((no_series double reader), [])
    evap ←
        value_or extract_evaporation (sub node "evaporation")
          (EvapMode.prescribed, ((no_series double reader), []))
    ok (record {
      gravity = gravity;
      friction = friction;
      viscosity_x = viscosity_x;
      viscosity_y = viscosity_y;
      min_depth = min_depth;
      wetting_face_depth = wetting_face_depth;
      wind = wind;
      rainfall = rain.0;
      rainfall_exclude_polygon = rain.1;
      evap_mode = evap.0;
      evaporation = evap.1.0;
      evaporation_exclude_polygon = evap.1.1;
    })

  abbrev pub extract_atmosphere : Node → Result YamlError (AtmosphereConfig R)
  extract_atmosphere node = do
    air_temperature ← series_or_constant_of (sub node "air_temperature")
    surface_temperature ←
        value_or series_or_constant_of (sub node "surface_temperature") (no_series double reader)
    pressure ← series_or_constant_of (sub node "pressure")
    relative_humidity ←
        value_or series_or_constant_of (sub node "relative_humidity") (no_series double reader)
    specific_humidity ←
        if is_defined (sub node "relative_humidity")
        then ok (no_series double reader)
        else series_or_constant_of (sub node "specific_humidity")
    wind_speed ← series_or_constant_of (sub node "wind_speed")
    shortwave ← value_or series_or_constant_of (sub node "shortwave") (no_series double reader)
    longwave_in ← value_or series_or_constant_of (sub node "longwave_in") (no_series double reader)
    wind_speed_floor ← real_at double reader node "wind_speed_floor" (double.scaled 5 1)
    ok (record {
      present = true;
      air_temperature = air_temperature;
      has_surface_temperature = is_defined (sub node "surface_temperature");
      surface_temperature = surface_temperature;
      pressure = pressure;
      humidity_is_relative = is_defined (sub node "relative_humidity");
      relative_humidity = relative_humidity;
      specific_humidity = specific_humidity;
      wind_speed = wind_speed;
      shortwave = shortwave;
      longwave_in = longwave_in;
      wind_speed_floor = wind_speed_floor;
    })
