-- ===== src/Paths/Text.antt =====
-- A normalised path as the C string that a work item keeps.
use lamina_fs.Prelude.{ℕ, List, [], ◌∷◌, arith}
use lamina_fs.Paths.Canonical.{IsText, split, or_root, canonical, split-AllNames}
use lamina_fs.Paths.Finish.{resolve-AllKept, unwind-IsText}

or_root-IsText : (path q : List ℕ) → IsText q → IsText (or_root path q)
or_root-IsText [] [] h = tt
or_root-IsText (c ∷ path) [] h = (ground arith, tt)
or_root-IsText [] (d ∷ q) h = h
or_root-IsText (c ∷ path) (d ∷ q) h = h

pub canonical-IsText : (path : List ℕ) → IsText path → IsText (canonical path)
unfolding canonical
canonical-IsText path text =
    let (is_name, all_names) = split-AllNames path text in
    or_root-IsText path _
      (unwind-IsText _ _ (resolve-AllKept (split path).0 [] (split path).1 is_name all_names))
