-- ===== src/Prelude/Loops.antt =====
-- Counted loops: `for (k = i; k < i + n; ++k) s = body(k, s)`.
use Prim.Native.Nat.{ℕ, zero, suc, ◌+◌, ◌<◌, ◌≤◌}
use mathlib.Core.Path.{◌≡◌}
use mathlib.Core.Logic.{◌⊎◌, inl, inr}
use native.Mathlib.Omega.{arith}
use frehg.Prelude.Tests.{ltb, ltb→lt, ltb→le, Bool-cases}

module _ {ℓ} {S : Type ℓ} where
  unfoldable pub for_range : ℕ → ℕ → (ℕ → S → S) → S → S
  for_range zero i body s = s
  for_range (suc n) i body s = for_range n (i + 1) body (body i s)

  -- A relation between the index and the state that every round keeps, holds at the end.
  pub for_range_inv {κ} :
      (P : ℕ → S → Type κ) (body : ℕ → S → S) (last : ℕ)
      → ((k : ℕ) (s : S) → k < last → P k s → P (suc k) (body k s))
      → (n i : ℕ) (s : S) → i + n ≡ last
      → P i s
      → P last (for_range n i body s)
  unfolding for_range
  for_range_inv P body last keep zero i s e h = let e' : i ≡ last = omega arith in rw (← e') h
  for_range_inv P body last keep (suc n) i s e h =
      let next : suc i ≡ i + 1 = omega arith in
      for_range_inv P body last keep n (i + 1) (body i s) (omega arith)
        (rw next at (keep i s (omega arith) h))

  -- The same for a loop that starts at 0.
  pub for_range_all {κ} :
      (P : ℕ → S → Type κ) (body : ℕ → S → S) (n : ℕ)
      → ((k : ℕ) (s : S) → k < n → P k s → P (suc k) (body k s))
      → (s : S) → P 0 s
      → P n (for_range n 0 body s)
  for_range_all P body n keep s h = for_range_inv P body n keep n 0 s (omega arith) h

  -- What one round establishes and all rounds keep, holds at the end.
  pub for_range_reach {κ} :
      (P : S → Type κ) (body : ℕ → S → S) (first last : ℕ)
      → ((k : ℕ) (s : S) → first ≤ k → k < last → P s → P (body k s))
      → (m : ℕ) → m < last
      → ((s : S) → P (body m s))
      → (n i : ℕ) (s : S) → first ≤ i
      → i + n ≡ last
      → (P s) ⊎ (i ≤ m)
      → P (for_range n i body s)
  unfolding for_range
  for_range_reach P body first last keep m less hit zero i s f e (inl p) = p
  for_range_reach P body first last keep m less hit zero i s f e (inr low) = absurd (omega arith)
  for_range_reach P body first last keep m less hit (suc n) i s f e (inl p) =
      for_range_reach P body first last keep m less hit n (i + 1) (body i s) (omega arith)
        (omega arith) (inl (keep i s f (omega arith) p))
  for_range_reach P body first last keep m less hit (suc n) i s f e (inr low) =
      elim (Bool-cases (ltb i m)) [
        | inl later ↦
            for_range_reach P body first last keep m less hit n (i + 1) (body i s) (omega arith)
              (omega arith) (inr (omega (arith, ltb→lt i m later)))
        | inr now ↦
            let here : m ≡ i = omega (arith, ltb→le i m now) in
            for_range_reach P body first last keep m less hit n (i + 1) (body i s) (omega arith)
              (omega arith) (inl (rw here at (hit s)))
      ]
