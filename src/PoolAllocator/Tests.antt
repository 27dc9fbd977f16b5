-- ===== src/PoolAllocator/Tests.antt =====
-- Runs of the pool of src/util/PoolAllocator.h.
use lamina_fs.Prelude.{subst, inl, ℕ, ◌+◌, ◌*◌, ◌≡◌, inr, ◌⊎◌, some, arith, refl, [], ◌∷◌}
use lamina_fs.PoolAllocator.{PoolAllocator, init, alloc, free, scan, take_slot, ffs_from, low_bits}
use lamina_fs.PoolAllocator.Slots.{free_slot, free_slot-init, init-IsValid, IsValid}
use lamina_fs.PoolAllocator.Alloc.{Takes, alloc_lem}
use lamina_fs.PoolAllocator.Free.{Frees, free_lem}

-- 40 slots of 8 bytes at address 1000
abbrev pool : PoolAllocator
pool = init 1000 40

alloc_example :
    ((alloc 8 pool ≡ some (0, pool)) × ((i : ℕ) → free_slot pool i ≡ 0))
    ⊎ ((i : ℕ) × (p' : PoolAllocator) × (alloc 8 pool ≡ some (pool.storage + i * 8, p'))
        × Takes pool p' i)
alloc_example = alloc_lem 8 pool (init-IsValid 1000 40)

free_example :
    (p' : PoolAllocator) × (free 8 (pool.storage + 39 * 8 + 0) pool ≡ some p') × Frees pool p' 39
unfolding init
free_example =
    free_lem 8 pool (init-IsValid 1000 40) 39 0 (omega arith) (omega arith) (λ e. omega arith)

-- 4 slots of 128 bytes, the first of which is taken
abbrev pub one_taken : PoolAllocator
one_taken = record { storage = 1000; bitmask = 14 ∷ []; capacity = 4; bitmask_count = 1 }

pub alloc_first : alloc 128 (init 1000 4) ≡ some (1000, one_taken)
unfolding alloc init scan take_slot ffs_from low_bits
alloc_first = refl

pub one_taken-IsValid : IsValid one_taken
one_taken-IsValid = elim (alloc_lem 128 (init 1000 4) (init-IsValid 1000 4)) [
  | inl (same, all) ↦ absurd (omega (arith, all 0, free_slot-init 1000 4 0))
  | inr (i, p', taken, takes) ↦
      let first = alloc_first in let there : p' ≡ one_taken = cc in subst IsValid there takes.valid
]
