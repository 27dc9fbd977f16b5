-- ===== src/PoolAllocator/Alloc.antt =====
-- What `PoolAllocator::alloc` returns, and which slots are free after it.
use lamina_fs.Prelude.{
  ℕ, suc, ◌+◌, ◌-◌, ◌*◌, ◌/◌, ◌%◌, ◌^◌, ◌<◌, ◌==◌, if◌then◌else◌, ◌≡◌, refl, ap, Option, none, some,
  Bool-cases, inl, inr, ◌⊎◌, arith, List, get_or, length-set, bit, bit_of_zero,
}
use lamina_fs.PoolAllocator.{PoolAllocator, ffs, clear_bit, scan, take_slot, alloc}
use lamina_fs.PoolAllocator.Bits.{Lowest, ffs_from-Lowest, bit-clear_bit, clear_bit-lt}
use lamina_fs.PoolAllocator.Slots.{flag, free_slot, IsValid, flag-set, word-set}
use lamina_fs.PoolAllocator.Scan.{Scanned, scan-Scanned}

-- Slot `i` has been taken: it was the lowest free one, and the others are as before.
pub record Takes (p p' : PoolAllocator) (i : ℕ) : Type 0 where
  pub in_range : i < p.capacity
  pub was_free : free_slot p i ≡ 1
  pub lowest : (j : ℕ) → j < i → free_slot p j ≡ 0
  pub after : (j : ℕ) → free_slot p' j ≡ (if i == j then 0 else free_slot p j)
  pub valid : IsValid p'
  pub same_place : (p'.storage ≡ p.storage) × (p'.capacity ≡ p.capacity)

pub word_slots :
    (words : List ℕ) (d j : ℕ) → j < 32 → flag words (d * 32 + j) ≡ bit j (get_or words d 0)
word_slots words d j h =
    let q : (d * 32 + j) / 32 ≡ d = omega arith in
    let r : (d * 32 + j) % 32 ≡ j = omega arith in rw (q, r) refl

module _ (size_of : ℕ) (p : PoolAllocator) (v : IsValid p) where
  flag_of_clear_word : (j : ℕ) → get_or p.bitmask (j / 32) 0 ≡ 0 → flag p.bitmask j ≡ 0
  flag_of_clear_word j e = rw e (bit_of_zero (j % 32))

  take-Lowest :
      (d w k j : ℕ)
      → Scanned p.bitmask 0 (some (d, w))
      → k < 32
      → Lowest w k
      → j < d * 32 + k
      → flag p.bitmask j ≡ 0
  take-Lowest d w k j h hk low lt = elim (Bool-cases (j / 32 == d)) [
    | inl e ↦
        let same : j / 32 ≡ d = ground arith in
        rw (same, h.2) (low.clear_below (j % 32) (omega arith))
    | inr e ↦ flag_of_clear_word j (h.4 (j / 32) (omega arith) (ground arith))
  ]

  take-Takes :
      (d w k : ℕ)
      → Scanned p.bitmask 0 (some (d, w))
      → w < 2 ^ 32
      → ffs w ≡ suc k
      → k < 32
      → Lowest w k
      → Takes p (take_slot size_of p (some (d, w))).1 (d * 32 + k)
  unfolding take_slot
  take-Takes d w k h small found lt low =
      let back : ffs w - 1 ≡ k = omega (arith, found) in
      let here : flag p.bitmask (d * 32 + k) ≡ 1 =
        rw (word_slots p.bitmask d k lt, h.2) low.set_at in
      let after =
        flag-set p.bitmask d k (clear_bit w k) 0 h.1 lt
          (λ j hj. rw h.2 (bit-clear_bit w k j lt hj)) in
      rw back (record {
        in_range = v.exists (d * 32 + k) here;
        was_free = here;
        lowest = λ j. take-Lowest d w k j h lt low;
        after = after;
        valid = record {
          counted = rw length-set v.counted;
          words = word-set p.bitmask d (clear_bit w k) h.1 (clear_bit-lt w k small) v.words;
          exists = λ i e. v.exists i (ground (arith, after i));
          covered = v.covered;
        };
        same_place = (refl, refl);
      })

  address :
      (d w k : ℕ)
      → ffs w ≡ suc k
      → (take_slot size_of p (some (d, w))).0 ≡ p.storage + (d * 32 + k) * size_of
  unfolding take_slot
  address d w k found = let back : ffs w - 1 ≡ k = omega (arith, found) in rw back refl

  -- In a valid pool, either no slot is free, and `alloc` returns the null pointer and changes
  -- nothing, or it returns the address of the lowest free slot, which is then the only slot that
  -- has changed.
  pub alloc_lem :
      ((alloc size_of p ≡ some (0, p)) × ((i : ℕ) → free_slot p i ≡ 0))
      ⊎ ((i : ℕ) × (p' : PoolAllocator) × (alloc size_of p ≡ some (p.storage + i * size_of, p'))
          × Takes p p' i)
  unfolding alloc take_slot
  alloc_lem =
      let (r, found, scanned) =
        scan-Scanned p.bitmask p.bitmask_count 0 (omega (arith, v.counted)) in
      by_scan r found scanned
    where
      by_scan :
          (r : Option (ℕ × ℕ))
          → scan p.bitmask_count 0 p.bitmask ≡ some r
          → Scanned p.bitmask 0 r
          → ((alloc size_of p ≡ some (0, p)) × ((i : ℕ) → free_slot p i ≡ 0))
            ⊎ ((i : ℕ) × (p' : PoolAllocator) × (alloc size_of p
                  ≡ some (p.storage + i * size_of, p'))
                × Takes p p' i)
      by_scan none found h =
          inl (rw found refl, λ i. flag_of_clear_word i (h (i / 32) (omega arith)))
      by_scan (some (d, w)) found h =
          let small : w < 2 ^ 32 = rw (← h.2) (v.words d) in
          let (k, first, lt, low) = ffs_from-Lowest 32 0 w small h.3 in
          inr (
            d * 32 + k,
            (take_slot size_of p (some (d, w))).1,
            rw found (
                ap (λ a. some (a, (take_slot size_of p (some (d, w))).1))
                  (address d w k (omega (arith, first)))),
            take-Takes d w k h small (omega (arith, first)) lt low,
          )
