-- ===== src/PoolAllocator.antt =====
-- src/util/PoolAllocator.h: slots of one type, handed out by a bitmask of the free ones. The
-- functions take `sizeof(T)`; a pointer is its address, and 0 is the null pointer. `_mutex` makes
-- each call atomic. `none` is an access outside the bitmask.
pub mod Bits
pub mod Slots
pub mod Scan
pub mod Alloc
pub mod Free
pub mod Tests
use Prim.Native.Nat.{bit_and, bit_or}
use lamina_fs.Prelude.{
  ℕ, zero, suc, ◌+◌, ◌-◌, ◌*◌, ◌/◌, ◌%◌, ◌^◌, Bool, true, false, not, ◌||◌, Option, none, some,
  List, [], ◌∷◌, ◌++◌, length, get_elem?, set, replicate, ltb, leb, ◌==◌, if◌then◌else◌, ◌>>=◌,
}

pub record PoolAllocator : Type 0 where
  pub storage : ℕ
  pub bitmask : List ℕ
  pub capacity : ℕ
  pub bitmask_count : ℕ

-- `newBitmask |= 1 << i` for the `i` below the given number.
pub low_bits : ℕ → ℕ
low_bits zero = 0
low_bits (suc i) = bit_or (low_bits i) (2 ^ i)

-- The constructor, over the address of the slots.
unfoldable pub init : ℕ → ℕ → PoolAllocator
unfolding low_bits
init storage capacity =
    let quot = capacity / 32 in
    let rem = capacity % 32 in
    record {
      storage = storage;
      bitmask = replicate quot 0xffff_ffff ++ (if rem == 0 then [] else (low_bits rem ∷ []));
      capacity = capacity;
      bitmask_count = quot + (if rem == 0 then 0 else 1);
    }

-- `ffs`: one more than the position of the lowest set bit, among the 32 of an `int`; 0 for none.
pub ffs_from : ℕ → ℕ → ℕ → ℕ
ffs_from zero k w = 0
ffs_from (suc left) k w =
    let rest = ffs_from left (k + 1) (w / 2) in if w % 2 == 1 then k + 1 else rest

abbrev pub ffs : ℕ → ℕ
ffs = ffs_from 32 0

-- The loop of `alloc`: the word and its number where a free slot is, for the words that are left.
pub scan : ℕ → ℕ → List ℕ → Option (Option (ℕ × ℕ))
scan zero i bitmask = some none
scan (suc left) i bitmask = do
  w ← get_elem? bitmask i
  let rest = scan left (i + 1) bitmask
  if not (w == 0) then some (some (i, w)) else rest

-- `_bitmask[i] & ~(1 << bit)`
abbrev pub clear_bit : ℕ → ℕ → ℕ
clear_bit w k = bit_and w (0xffff_ffff - 2 ^ k)

-- `_bitmask[i] | (1 << bit)`
abbrev pub set_bit : ℕ → ℕ → ℕ
set_bit w k = bit_or w (2 ^ k)

module _ (size_of : ℕ) where
  -- `&_storage[index]` and the lowest free bit taken, or the null pointer.
  pub take_slot : PoolAllocator → Option (ℕ × ℕ) → ℕ × PoolAllocator
  take_slot p none = (0, p)
  take_slot p (some (i, w)) =
      let k = ffs w - 1 in
      let index = i * 32 + k in
      (p.storage + index * size_of, record p { bitmask = set p.bitmask i (clear_bit w k) })

  pub alloc : PoolAllocator → Option (ℕ × PoolAllocator)
  alloc p = do found ← scan p.bitmask_count 0 p.bitmask; some (take_slot p found)

  pub free : ℕ → PoolAllocator → Option PoolAllocator
  free v p =
      if v == 0 || ltb v p.storage || leb (p.storage + p.capacity * size_of) v then some p else (do
        let index = (v - p.storage) / size_of
        w ← get_elem? p.bitmask (index / 32)
        some (record p { bitmask = set p.bitmask (index / 32) (set_bit w (index % 32)) }))
