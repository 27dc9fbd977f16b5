-- ===== src/Paths/Resolving.antt =====
-- The steps of `normalizePath` on a list resolve the names of the path.
use lamina_fs.Prelude.{ℕ, true, false, List, [], ◌∷◌, ◌==◌, ◌≡◌, refl, Bool-cases, inl, inr, ◌⊎◌}
use lamina_fs.Paths.{slash, dot}
use lamina_fs.Paths.Canonical.{
  is_this, is_parent, parent_root, parent_stack, resolve, joined, IsName, AllNames,
}
use lamina_fs.Paths.Machine.{
  slashes, kind, Runs, stop, run_slashes, run_this, run_parent, run_plain, trail, pop-trail,
  Runs-name, kind-joined,
}

-- What is written at the end: the trail of what is resolved, and a last slash perhaps.
pub record Resolves (root : List ℕ) (stack names : List (List ℕ)) : Type 0 where
  pub out : List ℕ
  pub runs : Runs (trail root stack) (joined names) out
  pub ends :
      (out ≡ trail (resolve root stack names).0 (resolve root stack names).1)
      ⊎ (out ≡ slash ∷ trail (resolve root stack names).0 (resolve root stack names).1)

parent-IsName :
    (root : List ℕ) (stack : List (List ℕ)) → IsName root → IsName (parent_root root stack)
parent-IsName root [] h = tt
parent-IsName root (n ∷ stack) h = h

parent-AllNames : (stack : List (List ℕ)) → AllNames stack → AllNames (parent_stack stack)
parent-AllNames [] h = tt
parent-AllNames (n ∷ stack) h = h.1

resolve-empty :
    {root : List ℕ} {stack names : List (List ℕ)}
    → Resolves root stack names
    → kind (slash ∷ joined names) ≡ slashes
    → Resolves root stack ([] ∷ names)
unfolding resolve
resolve-empty r e = record { out = r.out; runs = run_slashes e r.runs; ends = r.ends }

resolve-this :
    (a : ℕ) {root : List ℕ} {stack names : List (List ℕ)}
    → a == dot ≡ true
    → IsName (a ∷ [])
    → Resolves root stack names
    → Resolves root stack ((a ∷ []) ∷ names)
unfolding resolve
resolve-this a {names = names} e h r = record {
  out = r.out;
  runs = run_this (rw (kind-joined a [] names h, e)) r.runs;
  ends = rw e r.ends;
}

resolve-parent :
    (a b : ℕ) (root : List ℕ) (stack names : List (List ℕ))
    → is_parent (a ∷ b ∷ []) ≡ true
    → IsName (a ∷ b ∷ [])
    → IsName root
    → AllNames stack
    → Resolves (parent_root root stack) (parent_stack stack) names
    → Resolves root stack ((a ∷ b ∷ []) ∷ names)
unfolding resolve
resolve-parent a b root stack names e h hr hs r = record {
  out = r.out;
  runs =
      run_parent (rw (kind-joined a (b ∷ []) names h, e)) (rw (pop-trail root stack hr hs) r.runs);
  ends = rw e r.ends;
}

resolve-name :
    (a : ℕ) (n root : List ℕ) (stack names : List (List ℕ))
    → is_this (a ∷ n) ≡ false
    → is_parent (a ∷ n) ≡ false
    → IsName (a ∷ n)
    → Resolves root ((a ∷ n) ∷ stack) names
    → Resolves root stack ((a ∷ n) ∷ names)
unfolding resolve
resolve-name a n root stack names e f h r = record {
  out = r.out;
  runs =
      run_plain (rw (kind-joined a n names h, e, f))
        (Runs-name (a ∷ n) (slash ∷ trail root stack) (joined names) r.out h r.runs);
  ends = rw (e, f) r.ends;
}

pub resolves :
    (root : List ℕ) (stack names : List (List ℕ))
    → IsName root
    → AllNames stack
    → AllNames names
    → Resolves root stack names
unfolding resolve kind
resolves root stack [] hr hs h = record { out = trail root stack; runs = stop; ends = inl refl }
resolves root stack ([] ∷ []) hr hs h = record {
  out = slash ∷ trail root stack;
  runs = run_plain refl stop;
  ends = inr refl;
}
resolves root stack ([] ∷ m ∷ names) hr hs h =
    resolve-empty (resolves root stack (m ∷ names) hr hs h.1) refl
resolves root stack ((a ∷ []) ∷ names) hr hs h = elim (Bool-cases (a == dot)) [
  | inl e ↦ resolve-this a e h.0 (resolves root stack names hr hs h.1)
  | inr e ↦
      resolve-name a [] root stack names e refl h.0
        (resolves root ((a ∷ []) ∷ stack) names hr (h.0, hs) h.1)
]
resolves root stack ((a ∷ b ∷ []) ∷ names) hr hs h = elim (Bool-cases (is_parent (a ∷ b ∷ []))) [
  | inl e ↦ resolve-parent a b root stack names e h.0 hr hs (
      resolves (parent_root root stack) (parent_stack stack) names (parent-IsName root stack hr)
        (parent-AllNames stack hs) h.1)
  | inr e ↦
      resolve-name a (b ∷ []) root stack names refl e h.0
        (resolves root ((a ∷ b ∷ []) ∷ stack) names hr (h.0, hs) h.1)
]
resolves root stack ((a ∷ b ∷ c ∷ n) ∷ names) hr hs h =
    resolve-name a (b ∷ c ∷ n) root stack names refl refl h.0
      (resolves root ((a ∷ b ∷ c ∷ n) ∷ stack) names hr (h.0, hs) h.1)
