-- ===== src/Raster.antt =====
-- io/GridDataReader.cpp: what the readers accept of a parsed grid file. The parser itself is left
-- out: a `ParsedGridFile` is an argument. `nan` is the quiet NaN, `is_nan` the test for it. `to_int`
-- is the conversion to int, which C++ leaves undefined for a value that does not fit.
use frehg.Prelude.{
  ℕ, ◌*◌, ◌≡◌, Bool, true, false, not, ◌&&◌, ◌||◌, ◌==◌, if◌then◌else◌, List, [], ◌∷◌, length,
  Result, ok, fatal, require, ◌>>=◌, ◌>>◌, Double, ℤ, pos, negsuc, lt_ℤ, ◌⊎◌,
}

pub data RasterError : Type 0 where
  header_differs : RasterError
  header_in_3d : RasterError
  wrong_count : RasterError
  not_an_integer : RasterError

pub record ParsedGridFile (R : Type 0) : Type 0 where
  pub has_header : Bool
  pub ncols : ℤ
  pub nrows : ℤ
  pub has_nodata : Bool
  pub nodata : R
  pub values : List R

abbrev pub eq_ℤ : ℤ → ℤ → Bool
eq_ℤ (pos a) (pos b) = a == b
eq_ℤ (pos a) (negsuc b) = false
eq_ℤ (negsuc a) (pos b) = false
eq_ℤ (negsuc a) (negsuc b) = a == b

module _ {R : Type 0} (double : Double R) (nan : R) (is_nan : R → Bool) (to_int : R → ℤ) where
  abbrev pub mask : Bool → R → R → R
  mask has_nodata nodata v = if has_nodata && double.eq v nodata then nan else v

  unfoldable pub apply_nodata : Bool → R → List R → List R
  apply_nodata has_nodata nodata [] = []
  apply_nodata has_nodata nodata (v ∷ values) =
      mask has_nodata nodata v ∷ apply_nodata has_nodata nodata values

  -- A header that gives both counts has to give those of the domain.
  abbrev pub disagrees : ParsedGridFile R → ℕ → ℕ → Bool
  disagrees f nx ny =
      f.has_header
      && (lt_ℤ (pos 0) f.ncols
          && (lt_ℤ (pos 0) f.nrows && (not (eq_ℤ f.ncols (pos nx)) || not (eq_ℤ f.nrows (pos ny)))))

  unfoldable pub read_raster2d : ParsedGridFile R → ℕ → ℕ → Result RasterError (List R)
  unfolding apply_nodata
  read_raster2d f nx ny = do
    require (not (disagrees f nx ny)) RasterError.header_differs
    require (length f.values == nx * ny) RasterError.wrong_count
    ok (apply_nodata f.has_nodata f.nodata f.values)

  unfoldable pub to_ints : List R → Result RasterError (List ℤ)
  to_ints [] = ok []
  to_ints (v ∷ values) =
      let rest = to_ints values in
      if is_nan v || not (double.eq v (double.floor v))
      then fatal RasterError.not_an_integer
      else (rest >>= λ ids. ok (to_int v ∷ ids))

  unfoldable pub read_int_raster2d : ParsedGridFile R → ℕ → ℕ → Result RasterError (List ℤ)
  unfolding read_raster2d to_ints
  read_int_raster2d f nx ny = read_raster2d f nx ny >>= to_ints

  unfoldable pub read_field3d : ParsedGridFile R → ℕ → ℕ → ℕ → Result RasterError (List R)
  read_field3d f nx ny nz = do
    require (not f.has_header) RasterError.header_in_3d
    require (length f.values == nx * ny * nz) RasterError.wrong_count
    ok f.values

  -- The header gives no count for one of the directions, or those of the domain.
  abbrev pub HasExtents : ParsedGridFile R → ℕ → ℕ → Type 0
  HasExtents f nx ny =
      (f.has_header ≡ false)
      ⊎ (lt_ℤ (pos 0) f.ncols ≡ false)
      ⊎ (lt_ℤ (pos 0) f.nrows ≡ false)
      ⊎ ((f.ncols ≡ pos nx) × (f.nrows ≡ pos ny))

  -- The ids are the conversions of the values, none of which is the nodata value, a NaN, or a number
  -- with a fraction.
  abbrev pub AreIds : Bool → R → List R → List ℤ → Type 0
  AreIds has_nodata nodata [] [] = Unit
  AreIds has_nodata nodata [] (id ∷ ids) = ⊥
  AreIds has_nodata nodata (v ∷ values) [] = ⊥
  AreIds has_nodata nodata (v ∷ values) (id ∷ ids) =
      ((has_nodata ≡ false ⊎ double.eq v nodata ≡ false)
        × (is_nan v ≡ false)
        × (double.eq v (double.floor v) ≡ true)
        × (id ≡ to_int v))
      × AreIds has_nodata nodata values ids
