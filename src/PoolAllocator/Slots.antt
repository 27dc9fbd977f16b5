-- ===== src/PoolAllocator/Slots.antt =====
-- The free slots of `PoolAllocator`, as its bitmask holds them.
use lamina_fs.Prelude.{
  ℕ, zero, suc, ◌+◌, ◌*◌, ◌/◌, ◌%◌, ◌^◌, ◌≤◌, ◌<◌, ◌==◌, if◌then◌else◌, ◌≡◌, ◌≢◌, refl, bit,
  bit_of_zero, Bool-cases, inl, inr, arith, ltb, List, [], ◌∷◌, ◌++◌, length, get_or, set,
  replicate, get_or-set_self, get_or-set_ne, length-append, length-replicate,
}
use lamina_fs.PoolAllocator.{PoolAllocator, init, low_bits}
use lamina_fs.PoolAllocator.Bits.{bit-low_bits, low_bits-lt, bit_of_ones}

-- Bit `i` of the words together.
abbrev pub flag : List ℕ → ℕ → ℕ
flag words i = bit (i % 32) (get_or words (i / 32) 0)

-- 1 for a free slot, 0 for one that is in use or does not exist.
abbrev pub free_slot : PoolAllocator → ℕ → ℕ
free_slot p i = flag p.bitmask i

pub record IsValid (p : PoolAllocator) : Type 0 where
  pub counted : length p.bitmask ≡ p.bitmask_count
  pub words : (i : ℕ) → get_or p.bitmask i 0 < 2 ^ 32
  pub exists : (i : ℕ) → free_slot p i ≡ 1 → i < p.capacity
  pub covered : p.capacity ≤ 32 * p.bitmask_count

-- The slots after word `d` has been written, where the word changes at bit `k` alone.
pub flag-set :
    (words : List ℕ) (d k w b : ℕ)
    → d < length words
    → k < 32
    → ((j : ℕ) → j < 32 → bit j w ≡ (if k == j then b else bit j (get_or words d 0)))
    → (i : ℕ) → flag (set words d w) i ≡ (if d * 32 + k == i then b else flag words i)
flag-set words d k w b hd hk h i = elim (Bool-cases (d == i / 32)) [
  | inl e ↦
      let same : i / 32 ≡ d = ground arith in
      rw (same, get_or-set_self words d w 0 hd) (ground (arith, h (i % 32)))
  | inr e ↦
      let other : d ≢ i / 32 = ground arith in
      rw (get_or-set_ne words d (i / 32) w 0 other) (ground arith)
]

pub word-set :
    (words : List ℕ) (d w : ℕ)
    → d < length words
    → w < 2 ^ 32
    → ((i : ℕ) → get_or words i 0 < 2 ^ 32)
    → (i : ℕ) → get_or (set words d w) i 0 < 2 ^ 32
word-set words d w hd hw h i = elim (Bool-cases (d == i)) [
  | inl e ↦ let same : i ≡ d = ground arith in rw (same, get_or-set_self words d w 0 hd) hw
  | inr e ↦ rw (get_or-set_ne words d i w 0 (ground arith)) (h i)
]

get_or-replicate : (n i v : ℕ) → i < n → get_or (replicate n v) i 0 ≡ v
get_or-replicate zero i v h = absurd (omega arith)
get_or-replicate (suc n) zero v h = refl
get_or-replicate (suc n) (suc i) v h = get_or-replicate n i v (omega arith)

-- The words of a new pool: whole ones, and the last one.
get_or-words :
    (n last v i : ℕ)
    → get_or (replicate n v ++ (last ∷ [])) i 0
      ≡ (if ltb i n then v else if i == n then last else 0)
get_or-words zero last v zero = ground arith
get_or-words zero last v (suc i) = ground arith
get_or-words (suc n) last v zero = ground arith
get_or-words (suc n) last v (suc i) = ground (arith, get_or-words n last v i)

get_or-whole_words : (n v i : ℕ) → get_or (replicate n v ++ []) i 0 ≡ (if ltb i n then v else 0)
get_or-whole_words zero v i = ground arith
get_or-whole_words (suc n) v zero = ground arith
get_or-whole_words (suc n) v (suc i) = ground (arith, get_or-whole_words n v i)

-- In a new pool the free slots are those below the capacity.
pub free_slot-init :
    (storage capacity i : ℕ)
    → free_slot (init storage capacity) i ≡ (if ltb i capacity then 1 else 0)
unfolding init
free_slot-init storage capacity i = elim (Bool-cases (capacity % 32 == 0)) [
  | inl e ↦ rw e (
      rw get_or-whole_words
        (ground (arith, bit_of_ones (i % 32) (omega arith), bit_of_zero (i % 32))))
  | inr e ↦ rw e (
      rw get_or-words (
        ground (
          arith,
          bit_of_ones (i % 32) (omega arith),
          bit_of_zero (i % 32),
          bit-low_bits (capacity % 32) (i % 32) (omega arith) (omega arith),
        )))
]

length-init :
    (storage capacity : ℕ)
    → length (init storage capacity).bitmask ≡ (init storage capacity).bitmask_count
unfolding init
length-init storage capacity =
    let whole = replicate {A = ℕ} (capacity / 32) 0xffff_ffff in
    let count = length-replicate {A = ℕ} (capacity / 32) 0xffff_ffff in
    ground
      (arith, length-append whole [], length-append whole (low_bits (capacity % 32) ∷ []), count)

words-init : (storage capacity i : ℕ) → get_or (init storage capacity).bitmask i 0 < 2 ^ 32
unfolding init
words-init storage capacity i =
    let last = low_bits (capacity % 32) in
    ground (
      arith,
      get_or-whole_words (capacity / 32) 0xffff_ffff i,
      get_or-words (capacity / 32) last 0xffff_ffff i,
      low_bits-lt (capacity % 32) (omega arith),
    )

covered-init : (storage capacity : ℕ) → capacity ≤ 32 * (init storage capacity).bitmask_count
unfolding init
covered-init storage capacity = ground arith

exists-init : (storage capacity i : ℕ) → free_slot (init storage capacity) i ≡ 1 → i < capacity
exists-init storage capacity i h = ground (arith, free_slot-init storage capacity i)

capacity-init : (storage capacity : ℕ) → (init storage capacity).capacity ≡ capacity
unfolding init
capacity-init storage capacity = refl

-- The constructor's pool is valid.
pub init-IsValid : (storage capacity : ℕ) → IsValid (init storage capacity)
init-IsValid storage capacity = record {
  counted = length-init storage capacity;
  words = words-init storage capacity;
  exists = λ i h. rw capacity-init (exists-init storage capacity i h);
  covered = rw capacity-init (covered-init storage capacity);
}
