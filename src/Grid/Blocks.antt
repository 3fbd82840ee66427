-- ===== src/Grid/Blocks.antt =====
-- `Grid::blockSize` and `Grid::blockStart` of core/Grid.cpp: the split of one dimension.
use frehg.Prelude.{
  ℕ, zero, suc, ◌+◌, ◌*◌, ◌/◌, ◌%◌, ◌≤◌, ◌<◌, min, ◌≡◌, arith, ltb, if◌then◌else◌, Bool-cases, inl,
  inr, ltb→lt, ltb→le, sum_below,
}

unfoldable pub block_size : ℕ → ℕ → ℕ → ℕ
block_size n parts p = n / parts + (if ltb p (n % parts) then 1 else 0)

unfoldable pub block_start : ℕ → ℕ → ℕ → ℕ
block_start n parts p = p * (n / parts) + min p (n % parts)

pub block_start-suc :
    (n parts p : ℕ) → block_start n parts (suc p) ≡ block_start n parts p + block_size n parts p
unfolding block_size block_start
block_start-suc n parts p = ground arith

pub block_start_last : (n parts : ℕ) → 0 < parts → block_start n parts parts ≡ n
unfolding block_start
block_start_last n parts h = ground arith

pub block_start_first : (n parts : ℕ) → block_start n parts 0 ≡ 0
unfolding block_start
block_start_first n parts = ground arith

pub block_size-pos : (n parts p : ℕ) → 0 < parts → parts ≤ n → 0 < block_size n parts p
unfolding block_size
block_size-pos n parts p h k = ground arith

-- The starts are running sums of the sizes, the blocks end at the extent, and two blocks differ by
-- one cell at most, the larger ones first.
pub block_sizes_balanced :
    (n parts p q : ℕ)
    → 0 < parts
    → p ≤ q
    → (block_start n parts p ≡ sum_below p (block_size n parts))
      × (sum_below parts (block_size n parts) ≡ n)
      × (block_size n parts q ≤ block_size n parts p)
      × (block_size n parts p ≤ block_size n parts q + 1)
block_sizes_balanced n parts p q h k =
    (running p, omega (arith, running parts, block_start_last n parts h), falls, near)
  where
    running : (m : ℕ) → block_start n parts m ≡ sum_below m (block_size n parts)
    running zero = block_start_first n parts
    running (suc m) = omega (arith, running m, block_start-suc n parts m)

    falls : block_size n parts q ≤ block_size n parts p
    falls = unfold block_size in ground arith

    near : block_size n parts p ≤ block_size n parts q + 1
    near = unfold block_size in ground arith

pub block_start_mono : (n parts p q : ℕ) → p ≤ q → block_start n parts p ≤ block_start n parts q
unfolding block_start
block_start_mono n parts p q h = grind arith

-- The part whose block holds the index `i`, by a search from the last part down.
owner_below : (n parts i : ℕ) → ℕ → ℕ
owner_below n parts i zero = 0
owner_below n parts i (suc p) =
    if ltb i (block_start n parts (suc p)) then owner_below n parts i p else suc p

-- The index `i` lies in the block of part `p`.
abbrev pub InBlock : (n parts i p : ℕ) → Type 0
InBlock n parts i p =
    (block_start n parts p ≤ i) × (i < block_start n parts p + block_size n parts p)

owner_below-InBlock :
    (n parts i k : ℕ)
    → i < block_start n parts (suc k)
    → (owner_below n parts i k ≤ k) × InBlock n parts i (owner_below n parts i k)
unfolding owner_below
owner_below-InBlock n parts i zero h =
    omega (arith, block_start-suc n parts 0, block_start_first n parts)
owner_below-InBlock n parts i (suc k) h =
    ground (arith, owner_below-InBlock n parts i k, block_start-suc n parts (suc k))

pub InBlock-owner :
    (n parts i : ℕ) → 0 < parts → i < n → (p : ℕ) × (p < parts) × InBlock n parts i p
InBlock-owner n zero i h k = absurd (omega arith)
InBlock-owner n (suc m) i h k =
    let found = owner_below-InBlock n (suc m) i m (omega (arith, block_start_last n (suc m) h)) in
    (owner_below n (suc m) i m, omega (arith, found.0), found.1)

InBlock-unique : (n parts i p q : ℕ) → InBlock n parts i p → InBlock n parts i q → p ≤ q
InBlock-unique n parts i p q hp hq = elim (Bool-cases (ltb q p)) [
  | inl above ↦ absurd (
      omega (
        arith,
        ltb→lt q p above,
        block_start-suc n parts q,
        block_start_mono n parts (suc q) p (ltb→lt q p above),
      ))
  | inr below ↦ ltb→le q p below
]

pub InBlock-eq : (n parts i p q : ℕ) → InBlock n parts i p → InBlock n parts i q → p ≡ q
InBlock-eq n parts i p q hp hq =
    omega (arith, InBlock-unique n parts i p q hp hq, InBlock-unique n parts i q p hq hp)
