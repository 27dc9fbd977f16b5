-- ===== src/Paths/Finish.antt =====
-- After the loops of `normalizePath`: the last slash is removed, and an empty path becomes the root.
use lamina_fs.Prelude.{
  ℕ, suc, ◌+◌, ◌-◌, ◌≤◌, some, List, [], ◌∷◌, ◌++◌, append_assoc, length, get_elem?, set, ◌≡◌, ◌≢◌,
  refl, sym, ap, ◌∙◌, arith, Bool-cases, inl, inr,
}
use lamina_fs.Paths.{slash, store, trim_slash, fix_root}
use lamina_fs.Paths.Canonical.{
  IsText, IsName, AllNames, is_this, is_parent, parent_root, parent_stack, resolve, unwind,
}
use lamina_fs.Paths.Machine.{onto, trail}
use lamina_fs.Paths.Buffer.{length-onto, get_elem?-onto, set-onto}

-- What stands before the first slash is a name, and no name that stays is empty.
abbrev pub AllKept : List ℕ → List (List ℕ) → Type 0
AllKept root [] = IsName root
AllKept root (n ∷ stack) = (n ≢ []) × IsName n × AllKept root stack

pub parent-AllKept :
    (root : List ℕ) (stack : List (List ℕ))
    → AllKept root stack
    → AllKept (parent_root root stack) (parent_stack stack)
parent-AllKept root [] h = tt
parent-AllKept root (n ∷ stack) h = h.2

pub resolve-AllKept :
    (root : List ℕ) (stack names : List (List ℕ))
    → AllKept root stack
    → AllNames names
    → AllKept (resolve root stack names).0 (resolve root stack names).1
unfolding resolve
resolve-AllKept root stack [] k h = k
resolve-AllKept root stack ([] ∷ names) k h = resolve-AllKept root stack names k h.1
resolve-AllKept root stack ((a ∷ n) ∷ names) k h = elim (Bool-cases (is_this (a ∷ n))) [
  | inl e ↦ rw e (resolve-AllKept root stack names k h.1)
  | inr e ↦ elim (Bool-cases (is_parent (a ∷ n))) [
    | inl f ↦
        rw (e, f)
          (resolve-AllKept (parent_root root stack) (parent_stack stack) names
            (parent-AllKept root stack k) h.1)
    | inr f ↦ rw (e, f) (resolve-AllKept root ((a ∷ n) ∷ stack) names ((λ p. cc), h.0, k) h.1)
  ]
]

-- The last character written is no slash.
abbrev pub NoSlash : List ℕ → Type 0
NoSlash [] = Unit
NoSlash (c ∷ o) = c ≢ slash

onto-NoSlash : (n o : List ℕ) → IsName n → NoSlash o → NoSlash (onto n o)
onto-NoSlash [] o h e = e
onto-NoSlash (c ∷ n) o h e = onto-NoSlash n (c ∷ o) h.2 h.1

pub trail-NoSlash :
    (root : List ℕ) (stack : List (List ℕ)) → AllKept root stack → NoSlash (trail root stack)
trail-NoSlash root [] k = onto-NoSlash root [] k tt
trail-NoSlash root ([] ∷ stack) k = absurd (k.0 refl)
trail-NoSlash root ((c ∷ n) ∷ stack) k = onto-NoSlash n (c ∷ slash ∷ trail root stack) k.1.2 k.1.1

IsText-append : (s t : List ℕ) → IsText s → IsText t → IsText (s ++ t)
IsText-append [] t h k = k
IsText-append (c ∷ s) t h k = (h.0, IsText-append s t h.1 k)

IsName-IsText : (n : List ℕ) → IsName n → IsText n
IsName-IsText [] h = tt
IsName-IsText (c ∷ n) h = (h.0, IsName-IsText n h.2)

pub unwind-IsText :
    (root : List ℕ) (stack : List (List ℕ)) → AllKept root stack → IsText (unwind root stack)
unfolding unwind
unwind-IsText root [] k = IsName-IsText root k
unwind-IsText root (n ∷ stack) k =
    IsText-append (unwind root stack) (slash ∷ n) (unwind-IsText root stack k.2)
      (ground arith, IsName-IsText n k.1)

onto-onto : (n o y : List ℕ) → onto (onto n o) y ≡ onto o (n ++ y)
onto-onto [] o y = refl
onto-onto (c ∷ n) o y = onto-onto n (c ∷ o) y

pub onto-trail :
    (root : List ℕ) (stack : List (List ℕ)) (y : List ℕ)
    → onto (trail root stack) y ≡ unwind root stack ++ y
unfolding unwind
onto-trail root [] y = onto-onto root [] y
onto-trail root (n ∷ stack) y =
    onto-onto n (slash ∷ trail root stack) y
    ∙ onto-trail root stack (slash ∷ (n ++ y))
    ∙ sym (append_assoc (unwind root stack) (slash ∷ n) y)

pub trim-same :
    (o t : List ℕ) → NoSlash o → trim_slash (onto o (0 ∷ t)) (length o) ≡ some (onto o (0 ∷ t))
unfolding trim_slash
trim-same [] t h = refl
trim-same (c ∷ []) t h = refl
trim-same (c ∷ d ∷ o) t h =
    let index : length (c ∷ d ∷ o) - 1 ≡ length (d ∷ o) + 0 = omega arith in
    ground (
      arith,
      ap (get_elem? (onto (d ∷ o) (c ∷ 0 ∷ t))) index ∙ get_elem?-onto (d ∷ o) (c ∷ 0 ∷ t) 0,
    )

pub trim-slash :
    (d : ℕ) (o t : List ℕ)
    → trim_slash (onto (slash ∷ d ∷ o) (0 ∷ t)) (suc (suc (length o)))
      ≡ some (onto (d ∷ o) (0 ∷ 0 ∷ t))
unfolding trim_slash store
trim-slash d o t =
    let path = onto (d ∷ o) (slash ∷ 0 ∷ t) in
    let index : suc (suc (length o)) - 1 ≡ length (d ∷ o) + 0 = omega arith in
    let here : get_elem? path (suc (suc (length o)) - 1) ≡ some slash =
      ap (get_elem? path) index ∙ get_elem?-onto (d ∷ o) (slash ∷ 0 ∷ t) 0 in
    let stored : set path (suc (suc (length o)) - 1) 0 ≡ onto (d ∷ o) (0 ∷ 0 ∷ t) =
      ap (λ k. set path k 0) index ∙ set-onto (d ∷ o) (slash ∷ 0 ∷ t) 0 0 in
    ground (arith, here, stored, length-onto (d ∷ o) (slash ∷ 0 ∷ t))

pub fix-text :
    (n : ℕ) (q t : List ℕ) → IsText q → q ≢ [] → fix_root n (q ++ (0 ∷ t)) ≡ some (q ++ (0 ∷ t))
unfolding fix_root
fix-text n [] t h ne = absurd (ne refl)
fix-text n (c ∷ q) t h ne = ground arith

pub fix-empty : (n u : ℕ) (t : List ℕ) → 1 ≤ n → fix_root n (0 ∷ u ∷ t) ≡ some (slash ∷ 0 ∷ t)
unfolding fix_root store
fix-empty n u t h = ground arith
