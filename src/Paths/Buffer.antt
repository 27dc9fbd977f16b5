-- ===== src/Paths/Buffer.antt =====
-- The buffer that `normalizePath` reads and writes, at each moment of its loops: the written part,
-- a gap, and the unread part.
use lamina_fs.Prelude.{
  ℕ, zero, suc, ◌+◌, ◌-◌, ◌^◌, ◌≤◌, ◌<◌, Bool, true, false, some, List, [], ◌∷◌, ◌++◌, length,
  get_elem?, get_or, set, ◌==◌, if◌then◌else◌, ◌≡◌, refl, ap, ◌∙◌, arith,
}
use lamina_fs.Paths.{slash, add32, back, round}
use lamina_fs.Paths.Machine.{Kind, slashes, this, parent, plain, kind, pop, onto}

pub length-onto : (o y : List ℕ) → length (onto o y) ≡ length o + length y
length-onto [] y = omega arith
length-onto (c ∷ o) y = omega (arith, length-onto o (c ∷ y))

pub get_elem?-onto : (o y : List ℕ) (i : ℕ) → get_elem? (onto o y) (length o + i) ≡ get_elem? y i
get_elem?-onto [] y i = ap (get_elem? y) (omega arith)
get_elem?-onto (c ∷ o) y i =
    ap (get_elem? (onto o (c ∷ y))) (omega arith) ∙ get_elem?-onto o (c ∷ y) (suc i)

pub set-onto : (o y : List ℕ) (i v : ℕ) → set (onto o y) (length o + i) v ≡ onto o (set y i v)
set-onto [] y i v = ap (λ k. set y k v) (omega arith)
set-onto (c ∷ o) y i v =
    ap (λ k. set (onto o (c ∷ y)) k v) (omega arith) ∙ set-onto o (c ∷ y) (suc i) v

get_elem?-append : (xs ys : List ℕ) (i : ℕ) → get_elem? (xs ++ ys) (length xs + i) ≡ get_elem? ys i
get_elem?-append [] ys i = ap (get_elem? ys) (omega arith)
get_elem?-append (x ∷ xs) ys i =
    ap (get_elem? (x ∷ (xs ++ ys))) {y = suc (length xs + i)} (omega arith)
    ∙ get_elem?-append xs ys i

-- The end of a text reads as its terminator.
get_elem?-text :
    (s tail : List ℕ) (i : ℕ) → i ≤ length s → get_elem? (s ++ (0 ∷ tail)) i ≡ some (get_or s i 0)
get_elem?-text [] tail zero h = refl
get_elem?-text [] tail (suc i) h = absurd (omega arith)
get_elem?-text (c ∷ s) tail zero h = refl
get_elem?-text (c ∷ s) tail (suc i) h = get_elem?-text s tail i (omega arith)

-- `o` has been written, last character first, and `s` is unread from position `r` on.
pub record At (tail path o s : List ℕ) (r : ℕ) : Type 0 where
  pub gap : List ℕ
  pub shape : path ≡ onto o (gap ++ (s ++ (0 ∷ tail)))
  pub place : r ≡ length o + length gap
  pub fits : r + length s < 2 ^ 32

pub read :
    {tail path o s : List ℕ} {r : ℕ} (at : At tail path o s r) (i : ℕ)
    → i ≤ length s
    → get_elem? path (r + i) ≡ some (get_or s i 0)
read {tail} {path} {o} {s} {r} at i h =
    ap (λ p. get_elem? p (r + i)) at.shape
    ∙ ap (get_elem? (onto o (at.gap ++ (s ++ (0 ∷ tail))))) (omega (arith, at.place))
    ∙ get_elem?-onto o (at.gap ++ (s ++ (0 ∷ tail))) (length at.gap + i)
    ∙ get_elem?-append at.gap (s ++ (0 ∷ tail)) i
    ∙ get_elem?-text s tail i h

pub read_here :
    {tail path o s : List ℕ} {r : ℕ} (at : At tail path o s r)
    → get_elem? path r ≡ some (get_or s 0 0)
read_here {path = path} {r = r} at = ap (get_elem? path) (omega arith) ∙ read at 0 (omega arith)

pub read32 :
    {tail path o s : List ℕ} {r : ℕ} (at : At tail path o s r) (i : ℕ)
    → i ≤ length s
    → get_elem? path (add32 r i) ≡ some (get_or s i 0)
read32 {path = path} {s = s} {r = r} at i h =
    ap (get_elem? path) (omega (arith, at.fits)) ∙ read at i h

-- Where `back` stops.
abbrev back_pos : List ℕ → ℕ
back_pos [] = 0
back_pos (c ∷ o) = if c == slash then suc (length o) else back_pos o

back_pos-pop : (o : List ℕ) → back_pos o - 1 ≡ length (pop o)
back_pos-pop [] = refl
back_pos-pop (c ∷ o) = ground (arith, back_pos-pop o)

back-onto : (o y : List ℕ) → back (onto o y) (length o) ≡ some (back_pos o)
unfolding back
back-onto [] y = refl
back-onto (c ∷ o) y =
    let here : get_elem? (onto o (c ∷ y)) (length o) ≡ some c =
      ap (get_elem? (onto o (c ∷ y))) (omega arith) ∙ get_elem?-onto o (c ∷ y) 0 in
    ground (arith, here, back-onto o (c ∷ y))

back-At :
    {tail path o s : List ℕ} {r : ℕ} → At tail path o s r → back path (length o) ≡ some (back_pos o)
back-At {tail} {path} {o} {s} at = rw at.shape (back-onto o (at.gap ++ (s ++ (0 ∷ tail))))

-- What one round does, by the kind of the unread text.
abbrev pub outcome : Kind → List ℕ → ℕ → Bool × ℕ × ℕ
outcome slashes o r = (true, length o, r + 1)
outcome this o r = (true, length o, r + 2)
outcome parent o r = (true, length (pop o), r + 3)
outcome plain o r = (false, length o, r)

pub round-outcome :
    {tail path o : List ℕ} (s : List ℕ) {r : ℕ}
    → At tail path o s r
    → round path (length o) r ≡ some (outcome (kind s) o r)
unfolding round kind
round-outcome {o = o} [] {r} at = ground (arith, read_here at)
round-outcome {o = o} (a ∷ []) {r} at = ground (arith, read_here at, read32 at 1 (omega arith))
round-outcome {o = o} (a ∷ b ∷ []) {r} at = ground (
  arith,
  read_here at,
  read32 at 1 (omega arith),
  read32 at 2 (omega arith),
  back-At at,
  back_pos-pop o,
)
round-outcome {o = o} (a ∷ b ∷ c ∷ []) {r} at = ground (
  arith,
  read_here at,
  read32 at 1 (omega arith),
  read32 at 2 (omega arith),
  read32 at 3 (omega arith),
  back-At at,
  back_pos-pop o,
)
round-outcome {o = o} (a ∷ b ∷ c ∷ d ∷ s) {r} at = ground (
  arith,
  read_here at,
  read32 at 1 (omega arith),
  read32 at 2 (omega arith),
  read32 at 3 (omega arith),
  back-At at,
  back_pos-pop o,
)
