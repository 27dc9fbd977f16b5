-- ===== src/RingBuffer/Contents.antt =====
-- The items that a `RingBuffer` holds, in order, and what a write next to them does.
use lamina_fs.Prelude.{
  ℕ, zero, suc, ◌-◌, ◌≤◌, ◌<◌, ◌≡◌, ◌≢◌, refl, ap, ap₂, ◌∙◌, List, [], ◌∷◌, ◌++◌, length, get_or,
  set, get_or-set_self, get_or-set_ne, arith, ◌==◌,
}
use lamina_fs.RingBuffer.{RingBuffer, get_count}
use lamina_fs.RingBuffer.Queue.{is_empty}
use lamina_fs.RingBuffer.Bounds.{advance}

-- `d` stands at the positions that are out of range: in a valid buffer there are none.
module _ {ℓ} {T : Type ℓ} (d : T) where
  -- the `n` items from position `h` on
  abbrev pub window : List T → ℕ → ℕ → ℕ → List T
  window buf cap h zero = []
  window buf cap h (suc n) = get_or buf h d ∷ window buf cap (advance cap h 1) n

  length-window : (buf : List T) (cap h n : ℕ) → length (window buf cap h n) ≡ n
  length-window buf cap h zero = refl
  length-window buf cap h (suc n) = ap suc (length-window buf cap (advance cap h 1) n)

  pub advance-suc :
      (cap h n : ℕ)
      → h < cap
      → suc n < cap
      → advance cap (advance cap h 1) n ≡ advance cap h (suc n)
  advance-suc cap h n p q = ground arith

  advance-ne : (cap h n : ℕ) → h < cap → suc n < cap → advance cap h (suc n) ≢ h
  advance-ne cap h n p q = ground arith

  advance-lt : (cap h n : ℕ) → h < cap → n ≤ cap → advance cap h n < cap
  advance-lt cap h n p q = ground arith

  -- Writing just past a window extends it by that item.
  pub window-set :
      (buf : List T) (cap h n i : ℕ) (v : T)
      → cap ≤ length buf
      → h < cap
      → n < cap
      → advance cap h n ≡ i
      → window (set buf i v) cap h (suc n) ≡ window buf cap h n ++ (v ∷ [])
  window-set buf cap h zero i v hb hh hn e =
      let here : i ≡ h = ground arith in
      rw here (ap₂ ◌∷◌ (get_or-set_self buf h v d (omega arith)) refl)
  window-set buf cap h (suc n) i v hb hh hn e =
      ap₂ ◌∷◌ (get_or-set_ne buf i h v d (rw (← e) (advance-ne cap h n hh hn))) (
        window-set buf cap (advance cap h 1) n i v hb (advance-lt cap h 1 hh (omega arith))
          (omega arith) (advance-suc cap h n hh hn ∙ e))

  pub window_of_pos :
      (buf : List T) (cap h n : ℕ)
      → 0 < n
      → window buf cap h n ≡ get_or buf h d ∷ window buf cap (advance cap h 1) (n - 1)
  window_of_pos buf cap h zero p = absurd (omega arith)
  window_of_pos buf cap h (suc n) p = ap (λ k. window buf cap h (suc k)) (omega arith)

  abbrev pub contents : RingBuffer T → List T
  contents r = window r.buffer r.capacity r.read_pos (get_count r)

  pub length-contents : (r : RingBuffer T) → length (contents r) ≡ get_count r
  length-contents r = length-window r.buffer r.capacity r.read_pos (get_count r)

  pub is_empty-window : (buf : List T) (cap h n : ℕ) → is_empty (window buf cap h n) ≡ (n == 0)
  is_empty-window buf cap h zero = refl
  is_empty-window buf cap h (suc n) = ground arith
