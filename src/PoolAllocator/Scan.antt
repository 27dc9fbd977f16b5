-- ===== src/PoolAllocator/Scan.antt =====
-- The loop of `PoolAllocator::alloc` over the words of the bitmask.
use lamina_fs.Prelude.{
  ℕ, zero, suc, ◌+◌, ◌≤◌, ◌<◌, ◌==◌, ◌≡◌, ◌≢◌, refl, Option, none, some, Bool-cases, inl, inr,
  arith, List, [], ◌∷◌, length, get_or, get_elem?-eq-get_or,
}
use lamina_fs.PoolAllocator.{scan}

-- The first word that is not 0, from word `i` on; or all of these are 0.
abbrev pub Scanned : List ℕ → ℕ → Option (ℕ × ℕ) → Type 0
Scanned words i none = (j : ℕ) → i ≤ j → get_or words j 0 ≡ 0
Scanned words i (some (d, w)) =
    (i ≤ d)
    × (d < length words)
    × (get_or words d 0 ≡ w)
    × (w ≢ 0)
    × ((j : ℕ) → i ≤ j → j < d → get_or words j 0 ≡ 0)

get_or_outside : (words : List ℕ) (j : ℕ) → length words ≤ j → get_or words j 0 ≡ 0
get_or_outside [] j h = refl
get_or_outside (w ∷ words) zero h = absurd (omega arith)
get_or_outside (w ∷ words) (suc j) h = get_or_outside words j (omega arith)

Scanned-suc :
    (words : List ℕ) (i : ℕ) (r : Option (ℕ × ℕ))
    → get_or words i 0 ≡ 0
    → Scanned words (i + 1) r
    → Scanned words i r
Scanned-suc words i none e h = λ j le. elim (Bool-cases (i == j)) [
  | inl same ↦ let here : j ≡ i = ground arith in rw here e
  | inr other ↦ h j (ground arith)
]
Scanned-suc words i (some (d, w)) e h = (
  omega (arith, h.0),
  h.1,
  h.2,
  h.3,
  λ j le lt. elim (Bool-cases (i == j)) [
    | inl same ↦ let here : j ≡ i = ground arith in rw here e
    | inr other ↦ h.4 j (ground arith) lt
  ],
)

pub scan-Scanned :
    (words : List ℕ) (left i : ℕ)
    → i + left ≡ length words
    → (r : Option (ℕ × ℕ)) × (scan left i words ≡ some r) × Scanned words i r
unfolding scan
scan-Scanned words zero i h = (none, refl, λ j le. get_or_outside words j (omega arith))
scan-Scanned words (suc left) i h =
    let here = get_elem?-eq-get_or words i 0 (omega arith) in
    elim (Bool-cases (get_or words i 0 == 0)) [
      | inl e ↦
          let (r, found, scanned) = scan-Scanned words left (i + 1) (omega arith) in
          (r, rw (here, e) found, Scanned-suc words i r (ground arith) scanned)
      | inr e ↦ (
        some (i, get_or words i 0),
        rw (here, e) refl,
        (omega arith, omega arith, refl, ground arith, λ j le lt. absurd (omega arith)),
      )
    ]
