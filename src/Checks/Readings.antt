-- ===== src/Checks/Readings.antt =====
-- core/TimeSeries.cpp on three samples.
use frehg.Prelude.{ℕ, ◌≡◌, refl, arith, true, false, ltb, leb, [], ◌∷◌, ok, fatal}
use frehg.Series.{
  TimeSeries, SeriesError, make_series, is_increasing, value, upper_bound, interpolate, blend,
}
use frehg.Series.Reading.{Read, value_total}
use frehg.Checks.Numbers.{whole}
use frehg.Checks.Steps.{total, lt_le}

abbrev tide_table : TimeSeries ℕ
tide_table = record { times = 2 ∷ 4 ∷ 8 ∷ []; values = 10 ∷ 20 ∷ 60 ∷ [] }

between : value whole tide_table 8 ≡ ok 60
unfolding value upper_bound interpolate blend
between = refl

repeated : make_series whole (2 ∷ 2 ∷ []) (1 ∷ 1 ∷ []) ≡ fatal SeriesError.not_increasing
unfolding make_series is_increasing
repeated = refl

accepted : make_series whole (2 ∷ 4 ∷ 8 ∷ []) (10 ∷ 20 ∷ 60 ∷ []) ≡ ok tide_table
unfolding make_series is_increasing
accepted = refl

over : (x y : ℕ) → leb x y ≡ false → ltb y x ≡ true
over x y h = ground arith

value_total_example :
    (r : ℕ) × (value whole tide_table 5 ≡ ok r)
    × Read whole total (2 ∷ 4 ∷ 8 ∷ []) (10 ∷ 20 ∷ 60 ∷ []) 5 r
value_total_example =
    value_total whole total lt_le over (2 ∷ 4 ∷ 8 ∷ []) (10 ∷ 20 ∷ 60 ∷ []) tide_table 5 accepted
