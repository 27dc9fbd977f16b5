-- ===== src/Paths/Canonical.antt =====
-- What src/FileContext.cpp's `normalizePath` means by a normalised path: the path is cut at its
-- slashes, empty names and "." are dropped, and ".." drops the name before it.
use lamina_fs.Prelude.{
  ℕ, Bool, false, ◌&&◌, List, [], ◌∷◌, ◌++◌, ◌==◌, if◌then◌else◌, ◌≡◌, ◌≢◌, refl, arith, Bool-cases,
  inl, inr,
}
use lamina_fs.Paths.{slash, dot}

-- What stands before the first slash, and the names after the slashes.
unfoldable pub split : List ℕ → List ℕ × List (List ℕ)
split [] = ([], [])
split (c ∷ s) =
    let (first, names) = split s in if c == slash then ([], first ∷ names) else (c ∷ first, names)

abbrev pub is_this : List ℕ → Bool
is_this (a ∷ []) = a == dot
is_this _ = false

abbrev pub is_parent : List ℕ → Bool
is_parent (a ∷ b ∷ []) = a == dot && b == dot
is_parent _ = false

-- ".." with no name left drops what stands before the first slash.
abbrev pub parent_root : List ℕ → List (List ℕ) → List ℕ
parent_root root [] = []
parent_root root (n ∷ stack) = root

abbrev pub parent_stack : List (List ℕ) → List (List ℕ)
parent_stack [] = []
parent_stack (n ∷ stack) = stack

-- The names that stay, the last one first, after what stands before the first slash.
unfoldable pub resolve : List ℕ → List (List ℕ) → List (List ℕ) → List ℕ × List (List ℕ)
resolve root stack [] = (root, stack)
resolve root stack ([] ∷ names) = resolve root stack names
resolve root stack ((a ∷ n) ∷ names) =
    let kept = resolve root stack names in
    let dropped = resolve (parent_root root stack) (parent_stack stack) names in
    let pushed = resolve root ((a ∷ n) ∷ stack) names in
    if is_this (a ∷ n) then kept else if is_parent (a ∷ n) then dropped else pushed

unfoldable pub unwind : List ℕ → List (List ℕ) → List ℕ
unwind root [] = root
unwind root (n ∷ stack) = unwind root stack ++ (slash ∷ n)

-- A path that is left with nothing is the root.
abbrev pub or_root : List ℕ → List ℕ → List ℕ
or_root [] [] = []
or_root (c ∷ path) [] = slash ∷ []
or_root path (c ∷ q) = c ∷ q

unfoldable pub canonical : List ℕ → List ℕ
unfolding split resolve unwind
canonical path =
    let (first, names) = split path in
    let (root, stack) = resolve first [] names in or_root path (unwind root stack)

-- The inverse of `split`.
abbrev pub joined : List (List ℕ) → List ℕ
joined [] = []
joined (n ∷ names) = slash ∷ (n ++ joined names)

-- Every character is one of a C string.
abbrev pub IsText : List ℕ → Type 0
IsText [] = Unit
IsText (c ∷ s) = (c ≢ 0) × IsText s

-- A text without a slash.
abbrev pub IsName : List ℕ → Type 0
IsName [] = Unit
IsName (c ∷ s) = (c ≢ 0) × (c ≢ slash) × IsName s

abbrev pub AllNames : List (List ℕ) → Type 0
AllNames [] = Unit
AllNames (n ∷ names) = IsName n × AllNames names

pub joined-split : (path : List ℕ) → (split path).0 ++ joined (split path).1 ≡ path
unfolding split
joined-split [] = refl
joined-split (c ∷ s) = elim (Bool-cases (c == slash)) [
  | inl e ↦ let here : c ≡ slash = ground arith in rw e (ground (arith, joined-split s))
  | inr e ↦ rw e (ground (arith, joined-split s))
]

pub split-AllNames : (path : List ℕ) → IsText path → IsName (split path).0 × AllNames (split path).1
unfolding split
split-AllNames [] h = (tt, tt)
split-AllNames (c ∷ s) h = elim (Bool-cases (c == slash)) [
  | inl e ↦ let (first, names) = split-AllNames s h.1 in rw e (tt, (first, names))
  | inr e ↦ let (first, names) = split-AllNames s h.1 in rw e ((h.0, ground arith, first), names)
]
