-- ===== src/Series/Reading.antt =====
-- Every read of a `TimeSeries` of core/TimeSeries.cpp returns, from the samples around the time.
use frehg.Prelude.{
  ℕ, zero, suc, ◌-◌, ◌<◌, ◌==◌, ◌≡◌, refl, sym, ◌∙◌, arith, ◌⊎◌, inl, inr, true, false, not,
  if◌then◌else◌, Bool-cases, some, List, [], ◌∷◌, length, get_elem?, ok, Double,
}
use frehg.Series.{TimeSeries, at, make_series, upper_bound, blend, interpolate, value}

get_below : {R : Type 0} (xs : List R) (n : ℕ) → n < length xs → (x : R) × (get_elem? xs n ≡ some x)
get_below [] n h = absurd (omega arith)
get_below (x ∷ xs) zero h = (x, refl)
get_below (x ∷ xs) (suc n) h = get_below xs n (omega arith)

get_length : {R : Type 0} (xs : List R) (n : ℕ) (x : R) → get_elem? xs n ≡ some x → n < length xs
get_length [] n x h = absurd (ground arith)
get_length (y ∷ xs) zero x h = omega arith
get_length (y ∷ xs) (suc n) x h = omega (arith, get_length xs n x h)

at-some : {R : Type 0} (xs : List R) (n : ℕ) (x : R) → get_elem? xs n ≡ some x → at xs n ≡ ok x
at-some xs n x h = rw (h, at) refl

moved_index :
    {R : Type 0} (xs : List R) (m n : ℕ) (x : R)
    → m ≡ n
    → get_elem? xs n ≡ some x
    → get_elem? xs m ≡ some x
moved_index xs m n x e h = rw e h

module _ {R : Type 0} (double : Double R)
    (total : (x y : R) → double.lt x y ≡ false → double.le y x ≡ true) where
  bracket :
      (t x : R) (xs : List R) (last : R)
      → get_elem? (x ∷ xs) (length xs) ≡ some last
      → double.lt t x ≡ false
      → double.lt t last ≡ true
      → (n : ℕ) × (a : R) × (b : R) × (upper_bound double (x ∷ xs) t ≡ suc n)
        × (get_elem? (x ∷ xs) n ≡ some a)
        × (get_elem? (x ∷ xs) (suc n) ≡ some b)
        × (double.lt t a ≡ false)
        × (double.lt t b ≡ true)
  unfolding upper_bound
  bracket t x [] last h low high = absurd (ground arith)
  bracket t x (y ∷ ys) last h low high = elim (Bool-cases (double.lt t y)) [
    | inl e ↦ (0, x, y, rw (low, e) refl, refl, refl, low, e)
    | inr e ↦
        let (n, a, b, found, at_n, at_next, below, above) = bracket t y ys last h e high in
        (suc n, a, b, rw (low, found) refl, at_n, at_next, below, above)
  ]

  -- What a read at `t` may return: the first or the last value outside the times, and the blend of
  -- two samples next to each other in between.
  abbrev pub Read : List R → List R → R → R → Type 0
  Read times values t r =
      ((front : R) × (get_elem? times 0 ≡ some front)
        × (double.le t front ≡ true)
        × (get_elem? values 0 ≡ some r))
      ⊎ ((back : R) × (get_elem? times (length times - 1) ≡ some back)
          × (double.le back t ≡ true)
          × (get_elem? values (length times - 1) ≡ some r))
      ⊎ ((n : ℕ) × (a : R) × (b : R) × (u : R) × (v : R) × (get_elem? times n ≡ some a)
          × (get_elem? times (suc n) ≡ some b)
          × (get_elem? values n ≡ some u)
          × (get_elem? values (suc n) ≡ some v)
          × (double.le a t ≡ true)
          × (double.lt t b ≡ true)
          × (r ≡ blend double t a b u v))

  module _ (lt_le : (x y : R) → double.lt x y ≡ true → double.le x y ≡ true)
      (over : (x y : R) → double.le x y ≡ false → double.lt y x ≡ true) where
    after_front : (t x : R) → double.le t x ≡ false → double.lt t x ≡ false
    after_front t x h = elim (Bool-cases (double.lt t x)) [
      | inl e ↦ absurd (ground (arith, lt_le t x e))
      | inr e ↦ e
    ]

    -- The value after the tests of its front and back.
    value_cases :
        (x last : R) (xs values : List R) (t : R)
        → get_elem? (x ∷ xs) (length xs) ≡ some last
        → value double (record { times = x ∷ xs; values = values }) t ≡ (
            if double.le t x
            then at values 0
            else if double.le last t
            then at values (length values - 1)
            else interpolate double
                (record { times = x ∷ xs; values = values })
                (upper_bound double (x ∷ xs) t)
                t)
    unfolding value
    value_cases x last xs values t h =
        let some_time : not (suc (length xs) == 0) ≡ true = ground arith in
        let last_index : suc (length xs) - 1 ≡ length xs = omega arith in
        rw (some_time, last_index, at-some (x ∷ xs) (length xs) last h) refl

    interpolate_at :
        (times values : List R) (n : ℕ) (a b u v t : R)
        → get_elem? times n ≡ some a
        → get_elem? times (suc n) ≡ some b
        → get_elem? values n ≡ some u
        → get_elem? values (suc n) ≡ some v
        → interpolate double (record { times = times; values = values }) (suc n) t
          ≡ ok (blend double t a b u v)
    unfolding interpolate
    interpolate_at times values n a b u v t h k l m =
        let before : suc n - 1 ≡ n = omega arith in
        rw
          (
            before,
            at-some times n a h,
            at-some times (suc n) b k,
            at-some values n u l,
            at-some values (suc n) v m,
          )
          refl

    value-Read :
        (x : R) (xs values : List R) (t : R)
        → length values ≡ suc (length xs)
        → (r : R) × (value double (record { times = x ∷ xs; values = values }) t ≡ ok r)
          × Read (x ∷ xs) values t r
    value-Read x xs values t same =
        let last_index : suc (length xs) - 1 ≡ length xs = omega arith in
        let length_index : length values - 1 ≡ length xs = omega arith in
        let (last, got_last) = get_below (x ∷ xs) (length xs) (omega arith) in
        let (first, got_first) = get_below values 0 (omega arith) in
        let (final, got_final) = get_below values (length values - 1) (omega arith) in
        elim (Bool-cases (double.le t x)) [
          | inl e ↦ (
            first,
            front x last xs values t first got_last e got_first,
            inl (x, refl, e, got_first),
          )
          | inr e ↦ elim (Bool-cases (double.le last t)) [
            | inl g ↦ (
              final,
              back x last xs values t final got_last e g got_final,
              inr (
                  inl (
                    last,
                    moved_index (x ∷ xs) (suc (length xs) - 1) (length xs) last last_index got_last,
                    g,
                    moved_index values (suc (length xs) - 1) (length values - 1) final (omega arith)
                        got_final,
                  )),
            )
            | inr g ↦
                let (n, a, b, found, at_n, at_next, below, above) =
                  bracket t x xs last got_last (after_front t x e) (over last t g) in
                let inside : suc n < length (x ∷ xs) = get_length (x ∷ xs) (suc n) b at_next in
                let (u, got_u) = get_below values n (omega arith) in
                let (v, got_v) = get_below values (suc n) (omega arith) in
                (
                  blend double t a b u v,
                  middle x last xs values t n (blend double t a b u v) got_last e g found
                      (interpolate_at (x ∷ xs) values n a b u v t at_n at_next got_u got_v),
                  inr (
                      inr
                        (n, a, b, u, v, at_n, at_next, got_u, got_v, total t a below, above, refl)),
                )
          ]
        ]
      where
        front :
            (x last : R) (xs values : List R) (t r : R)
            → get_elem? (x ∷ xs) (length xs) ≡ some last
            → double.le t x ≡ true
            → get_elem? values 0 ≡ some r
            → value double (record { times = x ∷ xs; values = values }) t ≡ ok r
        front x last xs values t r h e g =
            value_cases x last xs values t h ∙ (rw e (at-some values 0 r g))

        back :
            (x last : R) (xs values : List R) (t r : R)
            → get_elem? (x ∷ xs) (length xs) ≡ some last
            → double.le t x ≡ false
            → double.le last t ≡ true
            → get_elem? values (length values - 1) ≡ some r
            → value double (record { times = x ∷ xs; values = values }) t ≡ ok r
        back x last xs values t r h e g k =
            value_cases x last xs values t h ∙ (rw (e, g) (at-some values (length values - 1) r k))

        middle :
            (x last : R) (xs values : List R) (t : R) (n : ℕ) (r : R)
            → get_elem? (x ∷ xs) (length xs) ≡ some last
            → double.le t x ≡ false
            → double.le last t ≡ false
            → upper_bound double (x ∷ xs) t ≡ suc n
            → interpolate double (record { times = x ∷ xs; values = values }) (suc n) t ≡ ok r
            → value double (record { times = x ∷ xs; values = values }) t ≡ ok r
        middle x last xs values t n r h e g f k =
            value_cases x last xs values t h ∙ (rw (e, g, f) k)

    made :
        (times values : List R) (s : TimeSeries R)
        → make_series double times values ≡ ok s
        → (length times ≡ length values) × (record { times = times; values = values } ≡ s)
    unfolding make_series
    made times values s h = (ground arith, ground arith)

    -- With `<` and `≤` a total order without NaN: a read of a series that the constructor accepts
    -- returns at every time what `Read` says.
    pub value_total :
        (times values : List R) (s : TimeSeries R) (t : R)
        → make_series double times values ≡ ok s
        → (r : R) × (value double s t ≡ ok r) × Read times values t r
    value_total [] values s t h = absurd (unfold make_series in ground arith)
    value_total (x ∷ xs) values s t h =
        let (same, is_s) = made (x ∷ xs) values s h in
        let (r, got, read) = value-Read x xs values t (sym same) in
        (r, from_series values s x xs t r is_s got, read)
      where
        from_series :
            (values : List R) (s : TimeSeries R) (x : R) (xs : List R) (t r : R)
            → record { times = x ∷ xs; values = values } ≡ s
            → value double (record { times = x ∷ xs; values = values }) t ≡ ok r
            → value double s t ≡ ok r
        from_series values s x xs t r e h = rw (← e) h
