-- ===== src/RingBuffer/Bounds.antt =====
-- The representation invariant of `RingBuffer`, and its positions.
use lamina_fs.Prelude.{
  ℕ, ◌+◌, ◌-◌, ◌^◌, ◌<◌, ◌≤◌, ◌≡◌, true, false, List, length, arith, if◌then◌else◌, ltb,
}
use lamina_fs.RingBuffer.{RingBuffer, next_pos, init, get_count}

module _ {ℓ} {T : Type ℓ} where
  pub record IsValid (r : RingBuffer T) : Type 0 where
    pub storage : length r.buffer ≡ r.capacity
    pub some_room : 0 < r.capacity
    pub small : r.capacity < 2 ^ 64
    pub read_in : r.read_pos < r.capacity
    pub write_in : r.write_pos < r.capacity
    pub full_meets : r.full ≡ true → r.read_pos ≡ r.write_pos

  pub init-IsValid : (s : List T) → 0 < length s → length s < 2 ^ 64 → IsValid (init s (length s))
  unfolding init
  init-IsValid s h k = ground arith

-- The position after `n` steps from `x`.
abbrev pub advance : ℕ → ℕ → ℕ → ℕ
advance capacity x n = if ltb (x + n) capacity then x + n else x + n - capacity

pub next_pos-eq-advance :
    (capacity x : ℕ) → x < capacity → capacity < 2 ^ 64 → next_pos capacity x ≡ advance capacity x 1
unfolding next_pos
next_pos-eq-advance capacity x h k = ground arith

module _ {ℓ} {T : Type ℓ} where
  -- The count of a valid ring buffer is within the capacity, below it where the buffer is not
  -- full, and leads from the read position to the write position.
  pub get_count_bounds :
      (r : RingBuffer T)
      → IsValid r
      → (get_count r ≤ r.capacity)
        × (r.full ≡ false → get_count r < r.capacity)
        × (advance r.capacity r.read_pos (get_count r) ≡ r.write_pos)
  unfolding get_count
  get_count_bounds r v = ground arith
