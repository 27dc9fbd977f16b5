-- ===== src/PoolAllocator/Free.antt =====
-- What `PoolAllocator::free` makes free.
use lamina_fs.Prelude.{
  ℕ, ◌+◌, ◌-◌, ◌*◌, ◌/◌, ◌%◌, ◌≤◌, ◌<◌, ◌==◌, if◌then◌else◌, ◌≡◌, ◌≢◌, refl, ap, ◌∙◌, some, ◌⊎◌,
  arith, length, get_or, get_elem?-eq-get_or, set, length-set,
}
use lamina_fs.PoolAllocator.{PoolAllocator, set_bit, free}
use lamina_fs.PoolAllocator.Bits.{bit-set_bit, set_bit-lt}
use lamina_fs.PoolAllocator.Slots.{flag, free_slot, IsValid, flag-set, word-set}

-- Slot `i` is free now, and the others are as before.
pub record Frees (p p' : PoolAllocator) (i : ℕ) : Type 0 where
  pub after : (j : ℕ) → free_slot p' j ≡ (if i == j then 1 else free_slot p j)
  pub valid : IsValid p'
  pub same_place : (p'.storage ≡ p.storage) × (p'.capacity ≡ p.capacity)

slot_index : (i k size_of : ℕ) → k < size_of → (i * size_of + k) / size_of ≡ i
slot_index i k size_of h = grind arith

slot_below : (i k n size_of : ℕ) → i < n → k < size_of → i * size_of + k < n * size_of
slot_below i k n size_of h hk = grind arith

module _ (size_of : ℕ) (p : PoolAllocator) (valid : IsValid p) where
  freed : ℕ → PoolAllocator
  freed i = record p {
    bitmask = set p.bitmask (i / 32) (set_bit (get_or p.bitmask (i / 32) 0) (i % 32));
  }

  freed-Frees : (i : ℕ) → i < p.capacity → Frees p (freed i) i
  unfolding freed
  freed-Frees i lt =
      let d = i / 32 in
      let w = get_or p.bitmask d 0 in
      let inside : d < length p.bitmask = omega (arith, valid.counted, valid.covered) in
      let whole : d * 32 + i % 32 ≡ i = omega arith in
      let after : (j : ℕ) → flag (freed i).bitmask j ≡ (if i == j then 1 else flag p.bitmask j) =
        λ j.
          flag-set p.bitmask d (i % 32) (set_bit w (i % 32)) 1 inside (omega arith)
            (λ l hl. bit-set_bit w (i % 32) l (omega arith) hl) j
          ∙ ap (λ m. if m == j then 1 else flag p.bitmask j) whole in
      record {
        after = after;
        valid = record {
          counted = rw length-set valid.counted;
          words =
              word-set p.bitmask d (set_bit w (i % 32)) inside
                (set_bit-lt w (i % 32) (valid.words d) (omega arith)) valid.words;
          exists = λ j e. exists j (after j) e;
          covered = valid.covered;
        };
        same_place = (refl, refl);
      }
    where
      exists :
          (j : ℕ)
          → free_slot (freed i) j ≡ (if i == j then 1 else flag p.bitmask j)
          → free_slot (freed i) j ≡ 1
          → j < p.capacity
      exists j h e = ground (arith, valid.exists j)

  -- In a valid pool whose storage is not null, a pointer into slot `i` makes that slot free and
  -- no other, whether or not it was free.
  pub free_lem :
      (i k : ℕ)
      → i < p.capacity
      → k < size_of
      → p.storage ≢ 0
      → (p' : PoolAllocator) × (free size_of (p.storage + i * size_of + k) p ≡ some p')
        × Frees p p' i
  unfolding free freed
  free_lem i k lt inside not_null =
      let v = p.storage + i * size_of + k in
      let index : (v - p.storage) / size_of ≡ i =
        ap (λ d. d / size_of) (omega arith) ∙ slot_index i k size_of inside in
      let below = slot_below i k p.capacity size_of lt inside in
      let in_mask =
        get_elem?-eq-get_or p.bitmask (i / 32) 0 (omega (arith, valid.counted, valid.covered)) in
      (freed i, ground (arith, index, below, in_mask), freed-Frees i lt)

  -- The null pointer, and a pointer outside the slots, free nothing.
  pub free_outside :
      (v : ℕ)
      → (v ≡ 0) ⊎ ((v < p.storage) ⊎ (p.storage + p.capacity * size_of ≤ v))
      → free size_of v p ≡ some p
  unfolding free
  free_outside v h = ground arith
