-- ===== src/Prelude/Bits.antt =====
-- The binary digits of a number, and those of `&` and `|`.
use Prim.Native.Nat.{
  ℕ, zero, suc, ◌+◌, ◌*◌, ◌/◌, ◌%◌, ◌≤◌, ◌<◌, ◌^◌, min, max, bit_and, bit_or, digits,
  bit_and-bitwise, bit_or-bitwise,
}
use mathlib.Core.Path.{◌≡◌, refl, ap, ◌∙◌}
use native.Mathlib.Nat.{pow-suc}
use native.Mathlib.Omega.{arith}

-- Digit `j`, the lowest first: 0 or 1.
abbrev pub bit : ℕ → ℕ → ℕ
bit zero w = w % 2
bit (suc j) w = bit j (w / 2)

pub bit-le-one : (j w : ℕ) → bit j w ≤ 1
bit-le-one zero w = omega arith
bit-le-one (suc j) w = bit-le-one j (w / 2)

pub bit_of_zero : (j : ℕ) → bit j 0 ≡ 0
bit_of_zero zero = refl
bit_of_zero (suc j) = bit_of_zero j

bit-double : (j d x : ℕ) → x ≤ 1 → bit (suc j) (d * 2 + x) ≡ bit j d
bit-double j d x h = ap (bit j) (omega arith)

module _ (z : ℕ → ℕ) (f : ℕ → ℕ → ℕ) (small : (d e : ℕ) → d ≤ 1 → e ≤ 1 → f d e ≤ 1)
    (run_out : (b j : ℕ) → bit j (z b) ≡ f 0 (bit j b)) where
  bit-digits : (n a b j : ℕ) → a ≤ n → bit j (digits z f n a b) ≡ f (bit j a) (bit j b)
  bit-digits zero zero b j h = rw bit_of_zero (run_out b j)
  bit-digits zero (suc a) b j h = absurd (omega arith)
  bit-digits (suc n) zero b j h = rw bit_of_zero (run_out b j)
  bit-digits (suc n) (suc a) b zero h =
      omega (arith, small (suc a % 2) (b % 2) (omega arith) (omega arith))
  bit-digits (suc n) (suc a) b (suc j) h =
      bit-double j (digits z f n (suc a / 2) (b / 2)) (f (suc a % 2) (b % 2))
        (small (suc a % 2) (b % 2) (omega arith) (omega arith))
      ∙ bit-digits n (suc a / 2) (b / 2) j (omega arith)

pub bit-and : (a b j : ℕ) → bit j (bit_and a b) ≡ min (bit j a) (bit j b)
bit-and a b j =
    ap (bit j) (bit_and-bitwise a b)
    ∙ bit-digits (λ _. zero) min (λ d e p q. omega arith) (λ c k. omega (arith, bit_of_zero k)) a a
        b j (omega arith)

pub bit-or : (a b j : ℕ) → bit j (bit_or a b) ≡ max (bit j a) (bit j b)
bit-or a b j =
    ap (bit j) (bit_or-bitwise a b)
    ∙ bit-digits (λ c. c) max (λ d e p q. omega arith) (λ c k. omega arith) a a b j (omega arith)

module _ (z : ℕ → ℕ) (f : ℕ → ℕ → ℕ) (small : (d e : ℕ) → d ≤ 1 → e ≤ 1 → f d e ≤ 1)
    (z-le : (b : ℕ) → z b ≤ b) where
  digits-lt : (k n a b : ℕ) → a ≤ n → a < 2 ^ k → b < 2 ^ k → digits z f n a b < 2 ^ k
  digits-lt k zero a b h p q = omega (arith, z-le b)
  digits-lt k (suc n) zero b h p q = omega (arith, z-le b)
  digits-lt zero (suc n) (suc a) b h p q = absurd (omega arith)
  digits-lt (suc k) (suc n) (suc a) b h p q =
      let twice = pow-suc 2 k in
      omega (
        arith,
        twice,
        small (suc a % 2) (b % 2) (omega arith) (omega arith),
        digits-lt k n (suc a / 2) (b / 2) (omega arith) (omega (arith, twice))
            (omega (arith, twice)),
      )

pub bit_and-lt : (k a b : ℕ) → a < 2 ^ k → b < 2 ^ k → bit_and a b < 2 ^ k
bit_and-lt k a b p q = rw (bit_and-bitwise a b) (
    digits-lt (λ _. zero) min (λ d e u v. omega arith) (λ c. omega arith) k a a b (omega arith) p q)

pub bit_or-lt : (k a b : ℕ) → a < 2 ^ k → b < 2 ^ k → bit_or a b < 2 ^ k
bit_or-lt k a b p q =
    rw (bit_or-bitwise a b)
      (digits-lt (λ c. c) max (λ d e u v. omega arith) (λ c. omega arith) k a a b (omega arith) p q)
