-- ===== src/Mounts/Match.antt =====
-- Which paths a mount serves, and under which path its device sees them.
use lamina_fs.Prelude.{
  ℕ, zero, suc, Bool, true, false, ◌&&◌, ◌||◌, ◌≡◌, ◌≢◌, refl, ap, none, some, Option-cases, [],
  ◌∷◌, ◌++◌, length, get_or, drop, ◌==◌, arith, Bool-cases, inl, inr,
}
use lamina_fs.Types.{Text}
use lamina_fs.Mounts.{MountInfo, starts_with, strstr, matches, device_path}

-- The whole test of the code, with `strstr` read as the test for a prefix.
abbrev pub serves : {W : Type 0} → Text → MountInfo W → Bool
serves path m =
    starts_with m.prefix path && (get_or path m.prefix_len 0 == b'/' || m.prefix_len == 1)

strstr-at_start :
    (s p : Text) (b : Bool)
    → (elim (strstr s p) [ none ↦ false | some at ↦ at == 0 && b ]) ≡ (starts_with p s && b)
unfolding strstr
strstr-at_start [] p b = ground arith
strstr-at_start (c ∷ s) p b = elim (Bool-cases (starts_with p (c ∷ s))) [
  | inl e ↦ rw e refl
  | inr e ↦ elim (Option-cases (strstr s p)) [
    | inl f ↦ rw (e, f) refl
    | inr (i, f) ↦ rw (e, f) (ground arith)
  ]
]

pub matches-serves : {W : Type 0} (path : Text) (m : MountInfo W) → matches path m ≡ serves path m
unfolding matches
matches-serves path m =
    strstr-at_start path m.prefix (get_or path m.prefix_len 0 == b'/' || m.prefix_len == 1)

-- A prefix, and what follows it.
starts_with-split : (p s : Text) → starts_with p s ≡ true → p ++ drop (length p) s ≡ s
starts_with-split [] s h = refl
starts_with-split (c ∷ p) [] h = cc
starts_with-split (c ∷ p) (d ∷ s) h =
    let same : c ≡ d = ground arith in
    rw same (ap (λ r. d ∷ r) (starts_with-split p s (ground arith)))

head-drop : (n : ℕ) (s : Text) → get_or s n 0 ≡ get_or (drop n s) 0 0
head-drop zero s = refl
head-drop (suc n) [] = refl
head-drop (suc n) (c ∷ s) = head-drop n s

-- A mount whose prefix is not one character long serves only paths that go on with a slash after
-- the prefix: the prefix and the path that the device sees make up the path, and the latter
-- starts with a slash.
pub matches-device_path :
    {W : Type 0} (path : Text) (m : MountInfo W)
    → m.prefix_len ≡ length m.prefix
    → length m.prefix ≢ 1
    → matches path m ≡ true
    → (m.prefix ++ device_path path m ≡ path) × (get_or (device_path path m) 0 0 ≡ b'/')
unfolding device_path
matches-device_path path m size long h =
    let serving : serves path m ≡ true = rw (← matches-serves path m) h in
    let not_one : (m.prefix_len == 1) ≡ false = ground arith in
    rw (not_one, size)
      (
        starts_with-split m.prefix path (ground arith),
        rw (← head-drop (length m.prefix) path) (ground arith),
      )

-- The root mount serves every absolute path, and its device sees the whole path.
pub matches_root :
    {W : Type 0} (rest : Text) (m : MountInfo W)
    → m.prefix ≡ b'/' ∷ []
    → m.prefix_len ≡ 1
    → (matches (b'/' ∷ rest) m ≡ true) × (device_path (b'/' ∷ rest) m ≡ b'/' ∷ rest)
unfolding device_path
matches_root rest m p size =
    (rw (matches-serves (b'/' ∷ rest) m, p, size) (ground arith), rw size refl)
