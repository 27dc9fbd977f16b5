-- ===== src/Context/System/Invariant.antt =====
-- The invariant of the steps of Context/System: who owns which slot, and what the items are.
use lamina_fs.Prelude.{
  ℕ, ◌+◌, ◌*◌, ◌<◌, true, false, ◌≡◌, none, List, [], ◌∷◌, ◌++◌, ◌==◌, if◌then◌else◌, arith,
  occurrences, occurrences-append,
}
use lamina_fs.PoolAllocator.Slots.{free_slot}
use lamina_fs.Mounts.Sound.{AllRegistered}
use lamina_fs.Context.Turn.{IsReady, queued, slot_address}
use lamina_fs.Context.System.{System}

module _ {W : Type 0} where
  -- How often `p` is pending, queued or held.
  abbrev pub owners : System W → ℕ → ℕ
  owners s p = occurrences p s.pending + occurrences p (queued s.ctx) + occurrences p s.held

  pub record IsConsistent (s : System W) : Type 0 where
    pub ready : IsReady s.ctx
    pub registered : AllRegistered s.ctx.interfaces
    pub accounts :
        (i : ℕ)
        → i < s.ctx.pool.capacity
        → free_slot s.ctx.pool i + owners s (slot_address s.ctx i) ≡ 1
    pub owned :
        (p : ℕ) → 0 < owners s p → (i : ℕ) × (p ≡ slot_address s.ctx i) × (i < s.ctx.pool.capacity)
    pub waiting :
        (p : ℕ)
        → 0 < occurrences p s.pending + occurrences p (queued s.ctx)
        → (s.ctx.items p).completed ≡ false
    pub finished :
        (p : ℕ)
        → 0 < occurrences p s.held
        → ((s.ctx.items p).callback ≡ none) × ((s.ctx.items p).completed ≡ true)
    pub order : s.pushed ≡ s.taken ++ queued s.ctx

-- Two slots of a pool have different addresses.
pub slot_address-== : (storage i j : ℕ) → (storage + i * 128 == storage + j * 128) ≡ (i == j)
slot_address-== storage i j = ground arith

pub occurrences-between :
    (p q : ℕ) (before after : List ℕ)
    → occurrences p (before ++ (q ∷ after))
      ≡ (if q == p then 1 else 0) + occurrences p (before ++ after)
occurrences-between p q before after =
    omega (arith, occurrences-append p before (q ∷ after), occurrences-append p before after)

pub occurrences-last :
    (p q : ℕ) (xs : List ℕ)
    → occurrences p (xs ++ (q ∷ [])) ≡ (if q == p then 1 else 0) + occurrences p xs
occurrences-last p q xs = omega (arith, occurrences-append p xs (q ∷ []))

pub occurrences-head : (p : ℕ) (xs : List ℕ) → 0 < occurrences p (p ∷ xs)
occurrences-head p xs = ground arith
