-- ===== src/Paths/Machine.antt =====
-- `normalizePath` as steps on two lists: what has been written, last character first, and what is
-- left to read.
use lamina_fs.Prelude.{
  ℕ, ◌&&◌, ◌||◌, List, [], ◌∷◌, ◌++◌, get_or, ◌==◌, if◌then◌else◌, ◌≡◌, refl, arith,
}
use lamina_fs.Paths.{slash, dot}
use lamina_fs.Paths.Canonical.{
  is_this, is_parent, parent_root, parent_stack, joined, IsName, AllNames,
}

pub data Kind : Type 0 where
  slashes this parent plain : Kind

-- What the text starts with; the end reads as the terminator.
unfoldable pub kind : List ℕ → Kind
kind s =
    if get_or s 0 0 == slash
    then if get_or s 1 0 == slash
      then slashes
      else if get_or s 1 0 == dot
      then if get_or s 2 0 == dot && (get_or s 3 0 == 0 || get_or s 3 0 == slash)
        then parent
        else if get_or s 2 0 == slash || get_or s 2 0 == 0
        then this
        else plain
      else plain
    else plain

-- The last slash is dropped, with all that follows it.
abbrev pub pop : List ℕ → List ℕ
pop [] = []
pop (c ∷ out) = if c == slash then out else pop out

pub data Runs : List ℕ → List ℕ → List ℕ → Type 0 where
  stop : {o : List ℕ} → Runs o [] o
  run_slashes : {a : ℕ} {o s o' : List ℕ} → kind (a ∷ s) ≡ slashes → Runs o s o' → Runs o (a ∷ s) o'
  run_this :
      {a b : ℕ} {o s o' : List ℕ} → kind (a ∷ b ∷ s) ≡ this → Runs o s o' → Runs o (a ∷ b ∷ s) o'
  run_parent :
      {a b c : ℕ} {o s o' : List ℕ}
      → kind (a ∷ b ∷ c ∷ s) ≡ parent
      → Runs (pop o) s o'
      → Runs o (a ∷ b ∷ c ∷ s) o'
  run_plain :
      {a : ℕ} {o s o' : List ℕ} → kind (a ∷ s) ≡ plain → Runs (a ∷ o) s o' → Runs o (a ∷ s) o'

-- The characters of the first list, last one first, on the second.
abbrev pub onto : List ℕ → List ℕ → List ℕ
onto [] o = o
onto (c ∷ s) o = onto s (c ∷ o)

-- `unwind`, last character first.
abbrev pub trail : List ℕ → List (List ℕ) → List ℕ
trail root [] = onto root []
trail root (n ∷ stack) = onto n (slash ∷ trail root stack)

pop-onto : (n o : List ℕ) → IsName n → pop (onto n o) ≡ pop o
pop-onto [] o h = refl
pop-onto (c ∷ n) o h = ground (arith, pop-onto n (c ∷ o) h.2)

pub pop-trail :
    (root : List ℕ) (stack : List (List ℕ))
    → IsName root
    → AllNames stack
    → pop (trail root stack) ≡ trail (parent_root root stack) (parent_stack stack)
pop-trail root [] h hs = pop-onto root [] h
pop-trail root (n ∷ stack) h hs = ground (arith, pop-onto n (slash ∷ trail root stack) hs.0)

pub Runs-name : (n o s o' : List ℕ) → IsName n → Runs (onto n o) s o' → Runs o (n ++ s) o'
unfolding kind
Runs-name [] o s o' h r = r
Runs-name (c ∷ n) o s o' h r = run_plain (ground arith) (Runs-name n (c ∷ o) s o' h.2 r)

abbrev kind_of : List ℕ → Kind
kind_of n = if is_this n then this else if is_parent n then parent else plain

pub kind-joined :
    (a : ℕ) (n : List ℕ) (names : List (List ℕ))
    → IsName (a ∷ n)
    → kind (joined ((a ∷ n) ∷ names)) ≡ kind_of (a ∷ n)
unfolding kind
kind-joined a [] [] h = ground arith
kind-joined a [] (m ∷ names) h = ground arith
kind-joined a (b ∷ []) [] h = ground arith
kind-joined a (b ∷ []) (m ∷ names) h = ground arith
kind-joined a (b ∷ c ∷ n) names h = ground arith
