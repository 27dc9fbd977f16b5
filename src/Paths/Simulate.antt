-- ===== src/Paths/Simulate.antt =====
-- The loops of `normalizePath` on the buffer take the steps of the list machine, within the buffer
-- and within their fuel.
use lamina_fs.Prelude.{
  ℕ, zero, suc, ◌+◌, ◌≤◌, ◌<◌, true, false, Option, some, List, [], ◌∷◌, length, ltb, ◌>>=◌, ◌≡◌,
  ◌≢◌, refl, ap, ◌∙◌, arith, Bool-cases, inl, inr,
}
use lamina_fs.Paths.{add32, store, skip, copy_char, copy}
use lamina_fs.Paths.Canonical.{IsText}
use lamina_fs.Paths.Machine.{
  plain, kind, pop, onto, Runs, stop, run_slashes, run_this, run_parent, run_plain,
}
use lamina_fs.Paths.Buffer.{At, read_here, outcome, round-outcome}
use lamina_fs.Paths.Loops.{advance-At, pop-At, store-char, store-end}

-- The body of the outer loop where `skip` has `g` rounds and the loop `f` more turns left.
abbrev turn : ℕ → ℕ → ℕ → List ℕ → ℕ → ℕ → Option (List ℕ × ℕ)
turn f g input_len path w r = skip g path w r >>= copy_char (copy f input_len) path

-- The loop ends with `out` written before a terminator, in a buffer of `size + 1` cells.
pub record Ends (size : ℕ) (result : Option (List ℕ × ℕ)) (out : List ℕ) : Type 0 where
  pub rest : List ℕ
  pub same_size : length out + length rest ≡ size
  pub ends : result ≡ some (onto out (0 ∷ rest), length out)

Runs-nil : {o s o' : List ℕ} → Runs o s o' → s ≡ [] → o' ≡ o
Runs-nil stop e = refl
Runs-nil (run_slashes k r) e = cc
Runs-nil (run_this k r) e = cc
Runs-nil (run_parent k r) e = cc
Runs-nil (run_plain k r) e = cc

turn-stop :
    (f g input_len : ℕ) {tail path o : List ℕ} {r : ℕ}
    → At tail path o [] r
    → Ends (r + length tail) (turn f (suc g) input_len path (length o) r) o
unfolding skip copy_char kind
turn-stop f g input_len at =
    let (t, stored, size) = store-end at in
    record {
      rest = t;
      same_size = size;
      ends = ground (arith, round-outcome [] at, read_here at, stored);
    }

-- The rounds that go on.
turn-skip :
    (f g input_len : ℕ) {tail path o s : List ℕ} {r : ℕ} (w' r' : ℕ)
    → At tail path o s r
    → outcome (kind s) o r ≡ (true, w', r')
    → turn f (suc g) input_len path (length o) r ≡ turn f g input_len path w' r'
unfolding skip
turn-skip f g input_len {s = s} w' r' at e = rw (round-outcome s at, e) refl

turn-plain :
    (f g input_len a : ℕ) {tail path o s path' : List ℕ} {r : ℕ}
    → At tail path o (a ∷ s) r
    → kind (a ∷ s) ≡ plain
    → a ≢ 0
    → store path (length o) a ≡ some path'
    → turn f (suc g) input_len path (length o) r
      ≡ copy f input_len path' (add32 (length o) 1) (add32 r 1)
unfolding skip copy_char
turn-plain f g input_len a {s = s} at k ne stored =
    let round_plain = round-outcome (a ∷ s) at in
    rw (round_plain, k) (ground (arith, read_here at, stored))

copy-more :
    (f n : ℕ) (path : List ℕ) (w r : ℕ)
    → ltb w n ≡ true
    → copy (suc f) n path w r ≡ turn f (suc n) n path w r
unfolding copy
copy-more f n path w r e = ground arith

copy-done :
    (f n : ℕ) (path : List ℕ) (w r : ℕ) → ltb w n ≡ false → copy (suc f) n path w r ≡ some (path, w)
unfolding copy
copy-done f n path w r e = ground arith

eq-nil : (xs : List ℕ) → length xs ≡ 0 → xs ≡ []
eq-nil [] e = refl
eq-nil (x ∷ xs) e = absurd (omega arith)

-- The outer loop goes on unless the text is used up.
pub copy-next :
    (f n : ℕ) {tail path o s out : List ℕ} {r : ℕ}
    → Runs o s out
    → At tail path o s r
    → r + length s ≡ n
    → Ends (n + length tail) (turn f (suc n) n path (length o) r) out
    → Ends (n + length tail) (copy (suc f) n path (length o) r) out
copy-next f n {tail} {path} {o} {s} {out} {r} runs at total rest =
    elim (Bool-cases (ltb (length o) n)) [
      | inl e ↦ record {
        rest = rest.rest;
        same_size = rest.same_size;
        ends = copy-more f n path (length o) r e ∙ rest.ends;
      }
      | inr e ↦
          let place = at.place in
          let no_text : s ≡ [] = eq-nil s (ground arith) in
          let no_gap : at.gap ≡ [] = eq-nil at.gap (ground arith) in
          let same : out ≡ o = Runs-nil runs no_text in
          let whole : path ≡ onto o (0 ∷ tail) = at.shape ∙ rw (no_gap, no_text) refl in
          record {
            rest = tail;
            same_size = rw same (ground arith);
            ends = copy-done f n path (length o) r e ∙ rw (same, whole) refl;
          }
    ]

pub simulate :
    {o s out : List ℕ}
    → Runs o s out
    → IsText s
    → (f g n : ℕ) {tail path : List ℕ} {r : ℕ} → At tail path o s r
    → length s ≤ f
    → length s < g
    → r + length s ≡ n
    → Ends (n + length tail) (turn f g n path (length o) r) out
simulate runs h f zero n at few some_left total = absurd (omega arith)
simulate stop h f (suc g) n at few some_left total =
    let rest = turn-stop f g n at in
    record { rest = rest.rest; same_size = omega (arith, rest.same_size); ends = rest.ends }
simulate (run_slashes {a} {o} {s} k runs) h f (suc g) n {r = r} at few some_left total =
    let rest =
      simulate runs h.1 f g n (advance-At (a ∷ []) s at) (omega arith) (omega arith)
        (omega arith) in
    record {
      rest = rest.rest;
      same_size = rest.same_size;
      ends = turn-skip f g n (length o) (r + 1) at (rw k refl) ∙ rest.ends;
    }
simulate (run_this {a} {b} {o} {s} k runs) h f (suc g) n {r = r} at few some_left total =
    let rest =
      simulate runs h.1.1 f g n (advance-At (a ∷ b ∷ []) s at) (omega arith) (omega arith)
        (omega arith) in
    record {
      rest = rest.rest;
      same_size = rest.same_size;
      ends = turn-skip f g n (length o) (r + 2) at (rw k refl) ∙ rest.ends;
    }
simulate (run_parent {a} {b} {c} {o} {s} k runs) h f (suc g) n {r = r} at few some_left total =
    let rest =
      simulate runs h.1.1.1 f g n (pop-At o (advance-At (a ∷ b ∷ c ∷ []) s at)) (omega arith)
        (omega arith) (omega arith) in
    record {
      rest = rest.rest;
      same_size = rest.same_size;
      ends = turn-skip f g n (length (pop o)) (r + 3) at (rw k refl) ∙ rest.ends;
    }
simulate (run_plain k runs) h zero (suc g) n at few some_left total = absurd (omega arith)
simulate (run_plain {a} {o} {s} k runs) h (suc f) (suc g) n {r = r} at few some_left total =
    let (path', stored, at') = store-char a at in
    let next : add32 (length o) 1 ≡ suc (length o) = omega (arith, at.place, at.fits) in
    let total' : add32 r 1 + length s ≡ n = omega (arith, at.fits) in
    let later = simulate runs h.1 f (suc n) n at' (omega arith) (omega arith) total' in
    let rest = copy-next f n runs at' total' later in
    record {
      rest = rest.rest;
      same_size = rest.same_size;
      ends =
          turn-plain (suc f) g n a at k h.0 stored
          ∙ ap (λ w. copy (suc f) n path' w (add32 r 1)) next
          ∙ rest.ends;
    }
