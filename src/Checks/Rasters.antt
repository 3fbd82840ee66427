-- ===== src/Checks/Rasters.antt =====
-- io/GridDataReader.cpp on rasters of 2 x 2 cells.
use frehg.Prelude.{ℕ, ◌≡◌, refl, Bool, true, ◌==◌, [], ◌∷◌, fatal, pos}
use frehg.Raster.{
  ParsedGridFile, RasterError, read_int_raster2d, read_raster2d, read_field3d, apply_nodata,
  to_ints,
}
use frehg.Checks.Numbers.{whole}

abbrev is_nan : ℕ → Bool
is_nan v = v == 99

abbrev raster : ParsedGridFile ℕ
raster = record {
  has_header = true;
  ncols = pos 2;
  nrows = pos 2;
  has_nodata = true;
  nodata = 7;
  values = 1 ∷ 2 ∷ 3 ∷ 4 ∷ [];
}

masked :
    read_int_raster2d whole 99 is_nan pos (record raster { nodata = 2 }) 2 2
    ≡ fatal RasterError.not_an_integer
unfolding read_int_raster2d read_raster2d apply_nodata to_ints
masked = refl

flat_only : read_field3d whole 99 is_nan pos raster 2 2 1 ≡ fatal RasterError.header_in_3d
unfolding read_field3d
flat_only = refl
