-- ===== src/Paths/Loops.antt =====
-- What each move of `normalizePath` does to the buffer.
use lamina_fs.Prelude.{
  ℕ, ◌+◌, ◌<◌, some, List, [], ◌∷◌, ◌++◌, append_assoc, length, length-append, set, ◌==◌, ◌≡◌, refl,
  sym, ap, ◌∙◌, arith, Bool-cases, inl, inr,
}
use lamina_fs.Paths.{slash, add32, store}
use lamina_fs.Paths.Machine.{pop, onto}
use lamina_fs.Paths.Buffer.{At, length-onto, set-onto}

-- `pop` drops a part of what was written, which then lies before the gap.
record Popped (o y : List ℕ) : Type 0 where
  dropped : List ℕ
  shape : onto o y ≡ onto (pop o) (dropped ++ y)
  place : length o ≡ length (pop o) + length dropped

pop-Popped : (o y : List ℕ) → Popped o y
pop-Popped [] y = record { dropped = []; shape = refl; place = refl }
pop-Popped (c ∷ o) y = elim (Bool-cases (c == slash)) [
  | inl e ↦ record { dropped = c ∷ []; shape = rw e refl; place = rw e (omega arith) }
  | inr e ↦
      let rest = pop-Popped o (c ∷ y) in
      record {
        dropped = rest.dropped ++ (c ∷ []);
        shape = rw e (rest.shape ∙ ap (onto (pop o)) (sym (append_assoc rest.dropped (c ∷ []) y)));
        place = rw e (omega (arith, rest.place, length-append rest.dropped (c ∷ [])));
      }
]

-- Unread text is skipped: it joins the gap.
pub advance-At :
    {tail path o : List ℕ} (k s : List ℕ) {r : ℕ}
    → At tail path o (k ++ s) r
    → At tail path o s (r + length k)
advance-At {tail} {o = o} k s at = record {
  gap = at.gap ++ k;
  shape = at.shape ∙ ap (onto o) (simp append_assoc refl);
  place = omega (arith, at.place, length-append at.gap k);
  fits = omega (arith, at.fits, length-append k s);
}

pub pop-At :
    {tail path : List ℕ} (o : List ℕ) {s : List ℕ} {r : ℕ}
    → At tail path o s r
    → At tail path (pop o) s r
pop-At {tail} o {s} at =
    let popped = pop-Popped o (at.gap ++ (s ++ (0 ∷ tail))) in
    record {
      gap = popped.dropped ++ at.gap;
      shape = at.shape ∙ popped.shape ∙ ap (onto (pop o)) (simp append_assoc refl);
      place = omega (arith, at.place, popped.place, length-append popped.dropped at.gap);
      fits = at.fits;
    }

-- A write at the end of what was written takes the first cell of the gap, or of the unread text.
write-char :
    (o gap s rest : List ℕ) (c : ℕ)
    → (gap' : List ℕ) × (set (onto o (gap ++ (c ∷ rest))) (length o) c
        ≡ onto (c ∷ o) (gap' ++ rest))
      × (length gap' ≡ length gap)
write-char o [] s rest c =
    ([], ap (λ k. set (onto o (c ∷ rest)) k c) (omega arith) ∙ set-onto o (c ∷ rest) 0 c, refl)
write-char o (g ∷ gap) s rest c = (
  gap ++ (c ∷ []),
  ap (λ k. set (onto o (g ∷ (gap ++ (c ∷ rest)))) k c) (omega arith)
      ∙ set-onto o (g ∷ (gap ++ (c ∷ rest))) 0 c
      ∙ ap (onto (c ∷ o)) (simp append_assoc refl),
  omega (arith, length-append gap (c ∷ [])),
)

length-path : {tail path o s : List ℕ} {r : ℕ} → At tail path o s r → length o < length path
length-path {tail} {path} {o} {s} at = rw at.shape (
    omega (
      arith,
      length-onto o (at.gap ++ (s ++ (0 ∷ tail))),
      length-append at.gap (s ++ (0 ∷ tail)),
      length-append s (0 ∷ tail),
    ))

pub store-char :
    {tail path o : List ℕ} (a : ℕ) {s : List ℕ} {r : ℕ}
    → At tail path o (a ∷ s) r
    → (path' : List ℕ) × (store path (length o) a ≡ some path')
      × At tail path' (a ∷ o) s (add32 r 1)
unfolding store
store-char {tail} {path} {o} a {s} {r} at =
    let (gap', shape, place) = write-char o at.gap s (s ++ (0 ∷ tail)) a in
    (
      set path (length o) a,
      ground (arith, length-path at),
      record {
        gap = gap';
        shape = ap (λ p. set p (length o) a) at.shape ∙ shape;
        place = omega (arith, at.place, place, at.fits);
        fits = omega (arith, at.fits);
      },
    )

pub store-end :
    {tail path o : List ℕ} {r : ℕ}
    → At tail path o [] r
    → (t : List ℕ) × (store path (length o) 0 ≡ some (onto o (0 ∷ t)))
      × (length o + length t ≡ r + length tail)
unfolding store
store-end {tail} {path} {o} {r} at =
    let (gap', shape, size) = write-char o at.gap [] tail 0 in
    (
      gap' ++ tail,
      ground (arith, length-path at, ap (λ p. set p (length o) 0) at.shape ∙ shape),
      omega (arith, at.place, size, length-append gap' tail),
    )
