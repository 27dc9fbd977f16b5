-- ===== src/Paths/Correct.antt =====
-- `normalizePath` computes the canonical path, in place.
use lamina_fs.Prelude.{
  ℕ, suc, ◌+◌, ◌%◌, ◌^◌, ◌≤◌, ◌<◌, Option, some, List, [], ◌∷◌, ◌++◌, length, length-append, ◌>>=◌,
  ◌≡◌, refl, ap, ◌∙◌, subst, arith, inl, inr, ◌⊎◌,
}
use lamina_fs.Paths.{slash, strlen, copy, trim_slash, fix_root, normalize_path}
use lamina_fs.Paths.Canonical.{
  IsText, split, joined, resolve, unwind, or_root, canonical, joined-split, split-AllNames,
}
use lamina_fs.Paths.Buffer.{At, length-onto}
use lamina_fs.Paths.Machine.{onto, trail, Runs, Runs-name}
use lamina_fs.Paths.Resolving.{resolves}
use lamina_fs.Paths.Simulate.{Ends, simulate, copy-next}
use lamina_fs.Paths.Finish.{
  AllKept, resolve-AllKept, NoSlash, trail-NoSlash, unwind-IsText, onto-trail, trim-same,
  trim-slash, fix-text, fix-empty,
}

strlen-text : (p tail : List ℕ) → IsText p → strlen (p ++ (0 ∷ tail)) ≡ some (length p)
unfolding strlen
strlen-text [] tail h = refl
strlen-text (c ∷ p) tail h = ground (arith, strlen-text p tail h.1)

-- The path is `result`, then a terminator, in `size + 1` cells.
record Holds (size : ℕ) (after : Option (List ℕ)) (result : List ℕ) : Type 0 where
  rest : List ℕ
  same_size : length result + length rest ≡ size
  holds : after ≡ some (result ++ (0 ∷ rest))

transport-Holds :
    {size size' : ℕ} {after after' : Option (List ℕ)} {result result' : List ℕ}
    → Holds size after result
    → size ≡ size'
    → after' ≡ after
    → result' ≡ result
    → Holds size' after' result'
transport-Holds h e f g = record {
  rest = h.rest;
  same_size = rw g (h.same_size ∙ e);
  holds = f ∙ rw g h.holds;
}

-- The end of the function, where a path `q` has been written.
fix-Holds :
    (n c : ℕ) (p q t : List ℕ)
    → 1 ≤ n
    → 1 ≤ length q + length t
    → IsText q
    → Holds (length q + length t) (fix_root n (q ++ (0 ∷ t))) (or_root (c ∷ p) q)
fix-Holds n c p [] [] h k text = absurd (omega arith)
fix-Holds n c p [] (u ∷ t) h k text = record {
  rest = t;
  same_size = omega arith;
  holds = fix-empty n u t h;
}
fix-Holds n c p (d ∷ q) t h k text = record {
  rest = t;
  same_size = refl;
  holds = fix-text n (d ∷ q) t text (λ e. cc);
}

-- Both ways in which the loops end, where `o` has been written and reads `q` forwards.
module _ (n c : ℕ) (p q t o : List ℕ) where
  record Reads : Type 0 where
    forwards : (y : List ℕ) → onto o y ≡ q ++ y
    text : IsText q
    no_slash : NoSlash o
    some_input : 1 ≤ n

  length-forwards : Reads → length q ≡ length o
  length-forwards r =
      omega (arith, ap (length {A = ℕ}) (r.forwards []), length-onto o [], length-append q [])

  finish-same :
      Reads
      → 1 ≤ length o + length t
      → Holds
          (length o + length t)
          (trim_slash (onto o (0 ∷ t)) (length o) >>= fix_root n)
          (or_root (c ∷ p) q)
  finish-same r k =
      let size = length-forwards r in
      let fixed = fix-Holds n c p q t r.some_input (omega arith) r.text in
      record {
        rest = fixed.rest;
        same_size = omega (arith, fixed.same_size);
        holds = rw (trim-same o t r.no_slash) (ap (fix_root n) (r.forwards (0 ∷ t)) ∙ fixed.holds);
      }

finish-slash :
    (n c : ℕ) (p q t o : List ℕ)
    → Reads n c p q t o
    → Holds
        (suc (length o) + length t)
        (trim_slash (onto (slash ∷ o) (0 ∷ t)) (suc (length o)) >>= fix_root n)
        (or_root (c ∷ p) q)
unfolding fix_root trim_slash
finish-slash n c p [] t [] r = record { rest = t; same_size = refl; holds = refl }
finish-slash n c p (d ∷ q) t [] r = absurd (cc (r.forwards []))
finish-slash n c p q t (d ∷ o) r =
    let size = length-forwards n c p q t (d ∷ o) r in
    let fixed = fix-Holds n c p q (0 ∷ t) r.some_input (omega arith) r.text in
    record {
      rest = fixed.rest;
      same_size = omega (arith, fixed.same_size);
      holds =
          ap (λ m. m >>= fix_root n) (trim-slash d o t)
          ∙ ap (fix_root n) (r.forwards (0 ∷ 0 ∷ t))
          ∙ fixed.holds;
    }

-- The loops, from the start of a text to the trail of its resolved names.
record Loops (tail path : List ℕ) : Type 0 where
  out : List ℕ
  ends :
      Ends
        (length path + length tail)
        (copy (suc (length path)) (length path) (path ++ (0 ∷ tail)) 0 0)
        out
  root : List ℕ
  stack : List (List ℕ)
  kept : AllKept root stack
  canon : canonical path ≡ or_root path (unwind root stack)
  reads : (out ≡ trail root stack) ⊎ (out ≡ slash ∷ trail root stack)

loops : (tail path : List ℕ) → IsText path → length path < 2 ^ 32 → Loops tail path
unfolding canonical
loops tail path text small =
    let first = (split path).0 in
    let names = (split path).1 in
    let (is_name, all_names) = split-AllNames path text in
    let r = resolves first [] names is_name tt all_names in
    let runs : Runs [] path r.out =
      subst (λ s. Runs [] s r.out) (joined-split path)
        (Runs-name first [] (joined names) r.out is_name r.runs) in
    let n = length path in
    let at : At tail (path ++ (0 ∷ tail)) [] path 0 = record {
      gap = [];
      shape = refl;
      place = omega arith;
      fits = omega arith;
    } in
    let start = simulate runs text n (suc n) n at (omega arith) (omega arith) (omega arith) in
    record {
      out = r.out;
      ends = copy-next n n runs at (omega arith) start;
      root = (resolve first [] names).0;
      stack = (resolve first [] names).1;
      kept = resolve-AllKept first [] names is_name all_names;
      canon = refl;
      reads = r.ends;
    }

normalize-steps :
    (path tail : List ℕ)
    → IsText path
    → length path < 2 ^ 32
    → (b : List ℕ) (w : ℕ)
    → copy (suc (length path)) (length path) (path ++ (0 ∷ tail)) 0 0 ≡ some (b, w)
    → normalize_path (path ++ (0 ∷ tail)) ≡ (trim_slash b w >>= fix_root (length path))
unfolding normalize_path
normalize-steps path tail text small b w e =
    let n : length path % 2 ^ 32 ≡ length path = omega arith in
    rw (strlen-text path tail text, n, e) refl

normalize-nil : (tail : List ℕ) → normalize_path (0 ∷ tail) ≡ some (0 ∷ tail)
unfolding normalize_path strlen copy trim_slash fix_root
normalize-nil tail = refl

canonical-nil : canonical [] ≡ []
unfolding canonical
canonical-nil = refl

normalize-Holds :
    (path tail : List ℕ)
    → IsText path
    → length path < 2 ^ 32
    → Holds (length path + length tail) (normalize_path (path ++ (0 ∷ tail))) (canonical path)
normalize-Holds [] tail text small = record {
  rest = tail;
  same_size = rw canonical-nil refl;
  holds = rw canonical-nil (normalize-nil tail);
}
normalize-Holds (c ∷ path) tail text small =
    let l = loops tail (c ∷ path) text small in
    let e = l.ends in
    let steps =
      normalize-steps (c ∷ path) tail text small (onto l.out (0 ∷ e.rest)) (length l.out) e.ends in
    let o = trail l.root l.stack in
    let q = unwind l.root l.stack in
    let r : Reads (suc (length path)) c path q e.rest o = record {
      forwards = onto-trail l.root l.stack;
      text = unwind-IsText l.root l.stack l.kept;
      no_slash = trail-NoSlash l.root l.stack l.kept;
      some_input = omega arith;
    } in
    elim l.reads [
      | inl same ↦
          let size = ap (length {A = ℕ}) same in
          transport-Holds
            (finish-same (suc (length path)) c path q e.rest o r (omega (arith, e.same_size, size)))
            (omega (arith, e.same_size, size)) (steps ∙ rw same refl) l.canon
      | inr more ↦
          transport-Holds (finish-slash (suc (length path)) c path q e.rest o r)
            (omega (arith, e.same_size, ap (length {A = ℕ}) more)) (steps ∙ rw more refl) l.canon
    ]

-- A C string of fewer than 2 ^ 32 bytes is normalised to its canonical path: the loops end,
-- nothing outside the buffer is read or written, the buffer keeps its size, and it then holds the
-- canonical path and a terminator.
pub normalize_path-canonical :
    (path tail : List ℕ)
    → IsText path
    → length path < 2 ^ 32
    → (rest : List ℕ) × (normalize_path (path ++ (0 ∷ tail)) ≡ some (canonical path ++ (0 ∷ rest)))
      × (length (canonical path ++ (0 ∷ rest)) ≡ length (path ++ (0 ∷ tail)))
normalize_path-canonical path tail text small =
    let h = normalize-Holds path tail text small in
    (
      h.rest,
      h.holds,
      omega (
        arith,
        h.same_size,
        length-append (canonical path) (0 ∷ h.rest),
        length-append path (0 ∷ tail),
      ),
    )
