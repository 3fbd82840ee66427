-- ===== src/Halo/Kernels.antt =====
-- The pack and unpack loops of core/HaloExchanger.cpp: what a buffer and a field hold after them.
use frehg.Prelude.{
  ℕ, suc, ◌+◌, ◌-◌, ◌*◌, ◌≤◌, ◌<◌, ◌≡◌, refl, ◌⊎◌, Bool, true, false, ◌&&◌, ltb, leb, ◌==◌,
  if◌then◌else◌, arith, for_range, for_range_all, ◌∙◌, Bool-cases, ltb→lt, inl, inr,
}
use frehg.Halo.Messages.{write, write2, write3}

-- The closed forms below say which cell of the row a cell of the field is: along x the row runs
-- in j at the fixed i, else in i at the fixed j.
abbrev pub on_plane : Bool → ℕ → ℕ → ℕ → Bool
on_plane x plane a b = if x then b == plane else a == plane

abbrev pub along : Bool → ℕ → ℕ → ℕ
along x a b = if x then a else b

module _ {W : Type 0} where
  pub pack_row :
      (rows offset : ℕ) (v : ℕ → W) (buf : ℕ → W)
      → let out = for_range rows 0 (λ r. write (offset + r) (v r)) buf in
        ((r : ℕ) → r < rows → out (offset + r) ≡ v r)
        × ((n : ℕ) → (n < offset) ⊎ (offset + rows ≤ n) → out n ≡ buf n)
  pack_row rows offset v buf =
      for_range_all
        (λ k (out : ℕ → W).
          ((r : ℕ) → r < k → out (offset + r) ≡ v r)
          × ((n : ℕ) → (n < offset) ⊎ (offset + k ≤ n) → out n ≡ buf n))
        _ rows
        (λ k out _ (done, same). (λ r h. ground (arith, done r), λ n h. ground (arith, same n))) buf
        ((λ r h. absurd (omega arith)), λ n h. refl)

  pub unpack_row :
      (x : Bool) (start plane rows : ℕ) (u : ℕ → W) (f : ℕ → ℕ → W) (a b : ℕ)
      → for_range rows 0
          (λ r. write2 (if x then r + start else plane) (if x then plane else r + start) (u r))
          f
          a
          b
        ≡ (if on_plane x plane a b && (leb start (along x a b) && ltb (along x a b) (start + rows))
            then u (along x a b - start)
            else f a b)
  unpack_row x start plane rows u f a b =
      for_range_all
        (λ k (g : ℕ → ℕ → W). g a b ≡ (
          if on_plane x plane a b && (leb start (along x a b) && ltb (along x a b) (start + k))
          then u (along x a b - start)
          else f a b))
        _ rows (λ k g _ h. step x k g h) f (ground arith)
    where
      step :
          (x : Bool) (k : ℕ) (g : ℕ → ℕ → W)
          → g a b ≡ (
              if on_plane x plane a b && (leb start (along x a b) && ltb (along x a b) (start + k))
              then u (along x a b - start)
              else f a b)
          → write2 (if x then k + start else plane) (if x then plane else k + start) (u k) g a b ≡ (
              if on_plane x plane a b
                && (leb start (along x a b) && ltb (along x a b) (start + suc k))
              then u (along x a b - start)
              else f a b)
      step true k g h = ground arith
      step false k g h = ground arith

  pub pack_rows :
      (rows depth offset : ℕ) (v : ℕ → ℕ → W) (buf : ℕ → W)
      → let out =
          for_range rows 0
            (λ r. for_range depth 0 (λ k. write (offset + r * depth + k) (v r k)))
            buf in
        ((r k : ℕ) → r < rows → k < depth → out (offset + r * depth + k) ≡ v r k)
        × ((n : ℕ) → (n < offset) ⊎ (offset + rows * depth ≤ n) → out n ≡ buf n)
  pack_rows rows depth offset v buf =
      for_range_all Done _ rows
        (λ r out _ (done, same).
          let level = pack_row depth (offset + r * depth) (v r) out in
          (
            λ q k hq hk. elim (Bool-cases (ltb q r)) [
              | inl e ↦ level.1 _ (inl (grind arith)) ∙ done q k (ltb→lt q r e) hk
              | inr e ↦ let same_row : q ≡ r = ground arith in rw same_row (level.0 k hk)
            ],
            λ n h. elim h [
              | inl low ↦ level.1 n (inl (omega arith)) ∙ same n (inl low)
              | inr high ↦ level.1 n (inr (omega arith)) ∙ same n (inr (omega arith))
            ],
          ))
        buf ((λ r k h _. absurd (omega arith)), λ n h. refl)
    where
      Done : ℕ → (ℕ → W) → Type 0
      Done m out =
          ((r k : ℕ) → r < m → k < depth → out (offset + r * depth + k) ≡ v r k)
          × ((n : ℕ) → (n < offset) ⊎ (offset + m * depth ≤ n) → out n ≡ buf n)

  unpack_levels :
      (jj ii depth : ℕ) (u : ℕ → W) (f : ℕ → ℕ → ℕ → W) (a b c : ℕ)
      → for_range depth 0 (λ k. write3 jj ii k (u k)) f a b c
        ≡ (if a == jj && b == ii && ltb c depth then u c else f a b c)
  unpack_levels jj ii depth u f a b c =
      for_range_all
        (λ m (g : ℕ → ℕ → ℕ → W).
          g a b c ≡ (if a == jj && b == ii && ltb c m then u c else f a b c))
        _ depth (λ k g _ h. ground arith) f (ground arith)

  pub unpack_rows :
      (x : Bool) (start plane rows depth : ℕ) (u : ℕ → ℕ → W) (f : ℕ → ℕ → ℕ → W) (a b c : ℕ)
      → for_range rows 0
          (λ r. for_range depth 0 (λ k.
            write3 (if x then r + start else plane) (if x then plane else r + start) k (u r k)))
          f
          a
          b
          c
        ≡ (if on_plane x plane a b
              && (leb start (along x a b) && ltb (along x a b) (start + rows))
              && ltb c depth
            then u (along x a b - start) c
            else f a b c)
  unpack_rows x start plane rows depth u f a b c =
      for_range_all (λ m g. Form x m (g a b c)) _ rows
        (λ k g _ h. unpack_levels _ _ depth (u k) g a b c ∙ step x k (g a b c) h) f (ground arith)
    where
      Form : Bool → ℕ → W → Type 0
      Form x m w = w ≡ (
          if on_plane x plane a b
            && (leb start (along x a b) && ltb (along x a b) (start + m))
            && ltb c depth
          then u (along x a b - start) c
          else f a b c)

      step :
          (x : Bool) (k : ℕ) (w : W)
          → Form x k w
          → Form x (suc k) (
              if a == (if x then k + start else plane)
                && b == (if x then plane else k + start)
                && ltb c depth
              then u k c
              else w)
      step true k w h = ground arith
      step false k w h = ground arith
