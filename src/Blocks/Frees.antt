-- ===== src/Blocks/Frees.antt =====
-- What `free` and the loops over it leave, counted for each address.
use lamina_fs.Prelude.{
  ℕ, ◌+◌, ◌<◌, ◌≡◌, refl, sym, ap, subst, Option, some, List, [], ◌∷◌, ◌==◌, occurrences, arith,
  Bool-cases, inl, inr, ◌>>=◌,
}
use lamina_fs.Blocks.{free, free_all, free_mounts}

-- `o` is what is left, which has each address as often as `f` says.
pub record Leaves (f : ℕ → ℕ) (o : Option (List ℕ)) : Type 0 where
  pub left : List ℕ
  pub answers : o ≡ some left
  pub exact : (q : ℕ) → occurrences q left ≡ f q

pub then-Leaves :
    (f g : ℕ → ℕ) (o : Option (List ℕ)) (k : List ℕ → Option (List ℕ))
    → Leaves f o
    → ((l : List ℕ) → ((q : ℕ) → occurrences q l ≡ f q) → Leaves g (k l))
    → Leaves g (o >>= k)
then-Leaves f g o k r next = subst (λ a. Leaves g (a >>= k)) (sym r.answers) (next r.left r.exact)

free-live :
    (p : ℕ) (l : List ℕ)
    → 0 < occurrences p l
    → (left : List ℕ) × (free p l ≡ some left)
      × ((q : ℕ) → occurrences q l ≡ occurrences q (p ∷ left))
unfolding free
free-live p [] lt = absurd (omega arith)
free-live p (x ∷ l) lt = elim (Bool-cases (p == x)) [
  | inl e ↦
      let same : x ≡ p = ground arith in (l, rw e refl, λ q. ap (λ y. occurrences q (y ∷ l)) same)
  | inr e ↦
      let less : 0 < occurrences p l = ground arith in
      let (left, answers, exact) = free-live p l less in
      (x ∷ left, rw (e, answers) refl, λ q. ground (arith, exact q))
]

pub free-Leaves :
    (p : ℕ) (l : List ℕ) (f : ℕ → ℕ)
    → ((q : ℕ) → occurrences q l ≡ occurrences q (p ∷ []) + f q)
    → Leaves f (free p l)
free-Leaves p l f h =
    let here : 0 < occurrences p l = ground (arith, h p) in
    let (left, answers, exact) = free-live p l here in
    record { left = left; answers = answers; exact = λ q. ground (arith, exact q, h q) }

pub free_all-Leaves :
    (ps l : List ℕ) (f : ℕ → ℕ)
    → ((q : ℕ) → occurrences q l ≡ occurrences q ps + f q)
    → Leaves f (free_all ps l)
unfolding free_all
free_all-Leaves [] l f h = record { left = l; answers = refl; exact = λ q. omega (arith, h q) }
free_all-Leaves (p ∷ ps) l f h =
    then-Leaves (λ q. occurrences q ps + f q) f (free p l) (free_all ps)
      (free-Leaves p l (λ q. occurrences q ps + f q) (λ q. ground (arith, h q)))
      (λ l' exact. free_all-Leaves ps l' f exact)

-- The blocks of the mounts, in the order in which they are freed.
abbrev pub mount_blocks : List (ℕ × ℕ) → List ℕ
mount_blocks [] = []
mount_blocks (e ∷ es) = e.1 ∷ e.0 ∷ mount_blocks es

pub free_mounts-Leaves :
    (es : List (ℕ × ℕ)) (l : List ℕ) (f : ℕ → ℕ)
    → ((q : ℕ) → occurrences q l ≡ occurrences q (mount_blocks es) + f q)
    → Leaves f (free_mounts es l)
unfolding free_mounts
free_mounts-Leaves [] l f h = record { left = l; answers = refl; exact = λ q. omega (arith, h q) }
free_mounts-Leaves (e ∷ es) l f h =
    let after : ℕ → ℕ = λ q. occurrences q (mount_blocks es) + f q in
    let between : ℕ → ℕ = λ q. occurrences q (e.0 ∷ []) + after q in
    then-Leaves between f (free e.1 l) (λ l₁. free e.0 l₁ >>= free_mounts es)
      (free-Leaves e.1 l between (λ q. omega (arith, h q)))
      (λ l₁ exact₁.
        then-Leaves after f (free e.0 l₁) (free_mounts es) (free-Leaves e.0 l₁ after exact₁)
          (λ l₂ exact₂. free_mounts-Leaves es l₂ f exact₂))
