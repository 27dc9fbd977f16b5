-- ===== src/Paths/Tests.antt =====
-- The strings of tests/tests_cpp.cpp and tests/tests_c.c.
use Prim.Native.Char.{code}
use Prim.Native.String.{String}
use lamina_fs.Prelude.{
  ℕ, ◌≡◌, refl, Option, some, List, [], ◌∷◌, ◌++◌, ◌>>=◌, ◌==◌, if◌then◌else◌, length, arith,
}
use lamina_fs.Paths.Canonical.{canonical}
use lamina_fs.Paths.Correct.{normalize_path-canonical}
use lamina_fs.Paths.{
  normalize_path, strlen, store, back, round, skip, copy_char, copy, trim_slash, fix_root,
}

abbrev bytes : String → List ℕ
bytes String.[] = []
bytes (String.◌∷◌ c s) = code c ∷ bytes s

abbrev text : List ℕ → List ℕ
text [] = []
text (c ∷ cs) = if c == 0 then [] else c ∷ text cs

abbrev normalized : String → Option (List ℕ)
normalized s = do path ← normalize_path (bytes s ++ (0 ∷ [])); some (text path)

abbrev Gives : String → String → Type 0
Gives s t = normalized s ≡ some (bytes t)

normalization :
    Gives "//path//with/a/////lot/of/slashes///" "/path/with/a/lot/of/slashes"
    × Gives "///path//with/a/////../lot/of/../../slashes///file.txt" "/path/with/slashes/file.txt"
    × Gives "/.." "/"
    × Gives "/////./././../boop/../some_other_dir" "/some_other_dir"
    × Gives "/////" "/"
    × Gives "/.thing" "/.thing"
    × Gives "///..first/second" "/..first/second"
    × Gives "a/../b" "/b"
unfolding normalize_path strlen store back round skip copy_char copy trim_slash fix_root
normalization = (refl, refl, refl, refl, refl, refl, refl, refl)

normalize_path-canonical_example :
    (rest : List ℕ) × (normalize_path (bytes "/a/../b/" ++ (0 ∷ 7 ∷ []))
      ≡ some (canonical (bytes "/a/../b/") ++ (0 ∷ rest)))
    × (length (canonical (bytes "/a/../b/") ++ (0 ∷ rest))
        ≡ length (bytes "/a/../b/" ++ (0 ∷ 7 ∷ [])))
normalize_path-canonical_example =
    normalize_path-canonical (bytes "/a/../b/") (7 ∷ []) (ground arith) (omega arith)
