-- ===== src/Series.antt =====
-- `TimeSeries` of core/TimeSeries.cpp: the checks of the constructor and the clamped interpolation.
-- An index outside a vector, which the source does not test, is the error `outside`.
pub mod Reading
use frehg.Prelude.{
  ℕ, zero, suc, ◌-◌, ◌==◌, Bool, true, false, not, ◌&&◌, if◌then◌else◌, Option, none, some, List,
  [], ◌∷◌, length, get_elem?, Result, ok, fatal, require, ◌>>=◌, ◌>>◌, Double,
}

pub data SeriesError : Type 0 where
  sizes_differ : SeriesError
  no_samples : SeriesError
  not_increasing : SeriesError
  outside : SeriesError

pub record TimeSeries (R : Type 0) : Type 0 where
  pub times : List R
  pub values : List R

abbrev pub at : {R : Type 0} → List R → ℕ → Result SeriesError R
at xs n = elim (get_elem? xs n) [ none ↦ fatal SeriesError.outside | some x ↦ ok x ]

module _ {R : Type 0} (double : Double R) where
  unfoldable pub is_increasing : List R → Bool
  is_increasing [] = true
  is_increasing (a ∷ []) = true
  is_increasing (a ∷ b ∷ rest) = double.lt a b && is_increasing (b ∷ rest)

  unfoldable pub make_series : List R → List R → Result SeriesError (TimeSeries R)
  unfolding is_increasing
  make_series times values = do
    require (length times == length values) SeriesError.sizes_differ
    require (not (length times == 0)) SeriesError.no_samples
    require (is_increasing times) SeriesError.not_increasing
    ok (record { times = times; values = values })

  -- The index of the first time after `t`: what `std::upper_bound` finds in a sorted range.
  unfoldable pub upper_bound : List R → R → ℕ
  upper_bound [] t = 0
  upper_bound (x ∷ xs) t = if double.lt t x then 0 else suc (upper_bound xs t)

  unfoldable pub blend : R → R → R → R → R → R
  blend t a b u v =
      let w = double.div (double.sub t a) (double.sub b a) in
      double.add u (double.mul w (double.sub v u))

  unfoldable pub interpolate : TimeSeries R → ℕ → R → Result SeriesError R
  unfolding blend
  interpolate s hi t = do
    a ← at s.times (hi - 1)
    b ← at s.times hi
    u ← at s.values (hi - 1)
    v ← at s.values hi
    ok (blend t a b u v)

  unfoldable pub value : TimeSeries R → R → Result SeriesError R
  unfolding upper_bound interpolate
  value s t = do
    require (not (length s.times == 0)) SeriesError.no_samples
    front ← at s.times 0
    back ← at s.times (length s.times - 1)
    if double.le t front
        then at s.values 0
        else if double.le back t
        then at s.values (length s.values - 1)
        else interpolate s (upper_bound s.times t) t

  -- The ends of the range.
  unfoldable pub t_min : TimeSeries R → Result SeriesError R
  t_min s = do require (not (length s.times == 0)) SeriesError.no_samples; at s.times 0

  unfoldable pub t_max : TimeSeries R → Result SeriesError R
  t_max s = do
    require (not (length s.times == 0)) SeriesError.no_samples
    at s.times (length s.times - 1)
