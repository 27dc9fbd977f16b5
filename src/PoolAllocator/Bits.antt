-- ===== src/PoolAllocator/Bits.antt =====
-- The words of the bitmask of `PoolAllocator`: single bits, and what `&` and `|` do to them.
use native.Mathlib.Nat.{pow-suc}
use lamina_fs.Prelude.{
  ℕ, zero, suc, ◌+◌, ◌-◌, ◌/◌, ◌%◌, ◌^◌, ◌≤◌, ◌<◌, Bool, true, ◌&&◌, ◌==◌, ==_iff, if◌then◌else◌,
  ◌≡◌, ◌≢◌, refl, bit, bit_of_zero, bit-and, bit-or, bit-le-one, bit_and-lt, bit_or-lt, Bool-cases,
  inl, inr, arith, ltb,
}
use lamina_fs.PoolAllocator.{low_bits, ffs_from, clear_bit, set_bit}

-- A test that holds at every number below the bound.
holds_below : ℕ → (ℕ → Bool) → Bool
holds_below zero p = true
holds_below (suc n) p = p n && holds_below n p

holds_below_sound : (n : ℕ) (p : ℕ → Bool) → holds_below n p ≡ true → (x : ℕ) → x < n → p x ≡ true
unfolding holds_below
holds_below_sound zero p h x lt = absurd (omega arith)
holds_below_sound (suc n) p h x lt = ground (arith, holds_below_sound n p (ground arith) x)

single_bit : ℕ → ℕ → Bool
single_bit k j = bit j (2 ^ k) == (if k == j then 1 else 0)

missing_bit : ℕ → ℕ → Bool
missing_bit k j = bit j (0xffff_ffff - 2 ^ k) == (if k == j then 0 else 1)

single_bits : holds_below 32 (λ k. holds_below 32 (single_bit k)) ≡ true
unfolding holds_below single_bit
single_bits = refl

missing_bits : holds_below 32 (λ k. holds_below 32 (missing_bit k)) ≡ true
unfolding holds_below missing_bit
missing_bits = refl

bit_of_single : (k j : ℕ) → k < 32 → j < 32 → bit j (2 ^ k) ≡ (if k == j then 1 else 0)
unfolding single_bit
bit_of_single k j hk hj = (==_iff _ _).0 (
    holds_below_sound 32 (single_bit k)
      (holds_below_sound 32 (λ i. holds_below 32 (single_bit i)) single_bits k hk) j hj)

bit_of_missing :
    (k j : ℕ) → k < 32 → j < 32 → bit j (0xffff_ffff - 2 ^ k) ≡ (if k == j then 0 else 1)
unfolding missing_bit
bit_of_missing k j hk hj = (==_iff _ _).0 (
    holds_below_sound 32 (missing_bit k)
      (holds_below_sound 32 (λ i. holds_below 32 (missing_bit i)) missing_bits k hk) j hj)

pub bit-clear_bit :
    (w k j : ℕ) → k < 32 → j < 32 → bit j (clear_bit w k) ≡ (if k == j then 0 else bit j w)
bit-clear_bit w k j hk hj =
    ground (arith, bit-and w (0xffff_ffff - 2 ^ k) j, bit_of_missing k j hk hj, bit-le-one j w)

pub bit-set_bit :
    (w k j : ℕ) → k < 32 → j < 32 → bit j (set_bit w k) ≡ (if k == j then 1 else bit j w)
bit-set_bit w k j hk hj =
    ground (arith, bit-or w (2 ^ k) j, bit_of_single k j hk hj, bit-le-one j w)

pub clear_bit-lt : (w k : ℕ) → w < 2 ^ 32 → clear_bit w k < 2 ^ 32
clear_bit-lt w k h = bit_and-lt 32 w (0xffff_ffff - 2 ^ k) h (omega arith)

power_table : holds_below 32 (λ k. ltb (2 ^ k) (2 ^ 32)) ≡ true
unfolding holds_below
power_table = refl

pub set_bit-lt : (w k : ℕ) → w < 2 ^ 32 → k < 32 → set_bit w k < 2 ^ 32
set_bit-lt w k h hk =
    let below = holds_below_sound 32 (λ i. ltb (2 ^ i) (2 ^ 32)) power_table k hk in
    bit_or-lt 32 w (2 ^ k) h (ground (arith, below))

-- `ffs` finds the lowest set bit of a word that has one.
pub record Lowest (w k : ℕ) : Type 0 where
  pub set_at : bit k w ≡ 1
  pub clear_below : (j : ℕ) → j < k → bit j w ≡ 0

clear_below-suc : (w k : ℕ) → w % 2 ≢ 1 → Lowest (w / 2) k → (j : ℕ) → j < suc k → bit j w ≡ 0
clear_below-suc w k even low zero h = omega arith
clear_below-suc w k even low (suc j) h = low.clear_below j (omega arith)

pub ffs_from-Lowest :
    (left start w : ℕ)
    → w < 2 ^ left
    → w ≢ 0
    → (k : ℕ) × (ffs_from left start w ≡ start + suc k) × (k < left) × Lowest w k
unfolding ffs_from
ffs_from-Lowest zero start w h ne = absurd (omega arith)
ffs_from-Lowest (suc left) start w h ne = elim (Bool-cases (w % 2 == 1)) [
  | inl e ↦ (
    0,
    rw e (omega arith),
    omega arith,
    record { set_at = ground arith; clear_below = λ j lt. absurd (omega arith) },
  )
  | inr e ↦
      let (k, found, lt, low) =
        ffs_from-Lowest left (start + 1) (w / 2) (omega (arith, pow-suc 2 left)) (ground arith) in
      (
        suc k,
        rw e (omega (arith, found)),
        omega arith,
        record { set_at = low.set_at; clear_below = clear_below-suc w k (ground arith) low },
      )
]

-- The digits of a mask of low bits.
pub bit-low_bits : (n j : ℕ) → n ≤ 32 → j < 32 → bit j (low_bits n) ≡ (if ltb j n then 1 else 0)
unfolding low_bits
bit-low_bits zero j h hj = ground (arith, bit_of_zero j)
bit-low_bits (suc n) j h hj = ground (
  arith,
  bit-or (low_bits n) (2 ^ n) j,
  bit-low_bits n j (omega arith) hj,
  bit_of_single n j (omega arith) hj,
)

pub low_bits-lt : (n : ℕ) → n ≤ 32 → low_bits n < 2 ^ 32
unfolding low_bits
low_bits-lt zero h = omega arith
low_bits-lt (suc n) h = set_bit-lt (low_bits n) n (low_bits-lt n (omega arith)) (omega arith)

ones_table : holds_below 32 (λ i. bit i 0xffff_ffff == 1) ≡ true
unfolding holds_below
ones_table = refl

pub bit_of_ones : (j : ℕ) → j < 32 → bit j 0xffff_ffff ≡ 1
bit_of_ones j h = (==_iff _ _).0 (holds_below_sound 32 (λ i. bit i 0xffff_ffff == 1) ones_table j h)
