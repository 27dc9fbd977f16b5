-- ===== src/Mounts/Search.antt =====
-- The search of `findNextMountAndPath`, call after call.
use lamina_fs.Prelude.{
  ℕ, Bool, true, false, ◌&&◌, ◌≡◌, ◌≢◌, refl, sym, ◌∙◌, Option, none, some, List, [], ◌∷◌, ◌++◌,
  reverse, length, length-append, ◌==◌, if◌then◌else◌, arith, Bool-cases, inl, inr,
}
use mathlib.Core.List.{reverse-append}
use lamina_fs.Types.{Text, mount_read}
use lamina_fs.Mounts.{MountInfo, has, matches, device_path, find_next_from}

module _ {W : Type 0} where
  abbrev pub candidate : Text → MountInfo W → Bool
  candidate path m = has m.permissions mount_read && matches path m

  -- The mounts that can be read and serve the path.
  unfoldable pub readable : Text → List (MountInfo W) → List (MountInfo W)
  readable path [] = []
  readable path (m ∷ ms) = if candidate path m then m ∷ readable path ms else readable path ms

  abbrev pub Fresh : ℕ → List (MountInfo W) → Type 0
  Fresh a [] = Unit
  Fresh a (m ∷ ms) = (m.address ≢ a) × Fresh a ms

  -- No two mounts have the same address.
  abbrev pub Distinct : List (MountInfo W) → Type 0
  Distinct [] = Unit
  Distinct (m ∷ ms) = Fresh m.address ms × Distinct ms

  pub Fresh-append :
      (a : ℕ) (ms ns : List (MountInfo W)) → Fresh a ms → Fresh a ns → Fresh a (ms ++ ns)
  Fresh-append a [] ns h k = k
  Fresh-append a (m ∷ ms) ns h k = (h.0, Fresh-append a ms ns h.1 k)

  pub Distinct-snoc :
      (ms : List (MountInfo W)) (m : MountInfo W)
      → Distinct ms
      → Fresh m.address ms
      → Distinct (ms ++ (m ∷ []))
  Distinct-snoc [] m d f = (tt, tt)
  Distinct-snoc (n ∷ ms) m d f =
      (Fresh-append n.address ms (m ∷ []) d.0 ((λ e. f.0 (sym e)), tt), Distinct-snoc ms m d.1 f.1)

  -- A mount in the middle differs from those before it.
  pub Fresh-before :
      (pre : List (MountInfo W)) (m : MountInfo W) (post : List (MountInfo W))
      → Distinct (pre ++ (m ∷ post))
      → Fresh m.address pre
  Fresh-before [] m post d = tt
  Fresh-before (n ∷ pre) m post d = (ne pre d.0, Fresh-before pre m post d.1)
    where
      ne :
          (pre' : List (MountInfo W)) → Fresh n.address (pre' ++ (m ∷ post)) → n.address ≢ m.address
      ne [] f = λ e. f.0 (sym e)
      ne (k ∷ pre') f = ne pre' f.1

  -- One step of the search, by case.
  find-unreadable :
      (path : Text) (start : Option ℕ) (m : MountInfo W) (ms : List (MountInfo W))
      → has m.permissions mount_read ≡ false
      → find_next_from path start (m ∷ ms) ≡ find_next_from path start ms
  unfolding find_next_from
  find-unreadable path start m ms e = rw (e, find_next_from)

  find-after :
      (path : Text) (a : ℕ) (m : MountInfo W) (ms : List (MountInfo W))
      → has m.permissions mount_read ≡ true
      → find_next_from path (some a) (m ∷ ms)
        ≡ find_next_from path (if m.address == a then none else some a) ms
  unfolding find_next_from
  find-after path a m ms e = rw (e, find_next_from)

  pub find-candidate :
      (path : Text) (m : MountInfo W) (ms : List (MountInfo W))
      → candidate path m ≡ true
      → find_next_from path none (m ∷ ms) ≡ some (m, device_path path m)
  unfolding find_next_from
  find-candidate path m ms e =
      let reads : has m.permissions mount_read ≡ true = ground arith in
      let fits : matches path m ≡ true = ground arith in rw (reads, fits, find_next_from)

  pub find-other :
      (path : Text) (m : MountInfo W) (ms : List (MountInfo W))
      → candidate path m ≡ false
      → find_next_from path none (m ∷ ms) ≡ find_next_from path none ms
  unfolding find_next_from
  find-other path m ms e = elim (Bool-cases (has m.permissions mount_read)) [
    | inl reads ↦
        let misses : matches path m ≡ false = ground arith in rw (reads, misses, find_next_from)
    | inr blind ↦ rw (blind, find_next_from)
  ]

  -- The search that starts after a mount goes on behind it.
  pub find-resume :
      (path : Text) (pre : List (MountInfo W)) (m : MountInfo W) (post : List (MountInfo W))
      → Fresh m.address pre
      → has m.permissions mount_read ≡ true
      → find_next_from path (some m.address) (pre ++ (m ∷ post)) ≡ find_next_from path none post
  find-resume path [] m post f e =
      let same : (m.address == m.address) ≡ true = ground arith in
      find-after path m.address m post e ∙ rw same refl
  find-resume path (n ∷ pre) m post f e = elim (Bool-cases (has n.permissions mount_read)) [
    | inl r ↦
        let other : (n.address == m.address) ≡ false = ground arith in
        find-after path m.address n (pre ++ (m ∷ post)) r
        ∙ rw other (find-resume path pre m post f.1 e)
    | inr r ↦
        find-unreadable path (some m.address) n (pre ++ (m ∷ post)) r
        ∙ find-resume path pre m post f.1 e
  ]

  reverse-cons :
      (m : MountInfo W) (ms : List (MountInfo W)) → reverse (m ∷ ms) ≡ reverse ms ++ (m ∷ [])
  reverse-cons m ms = reverse-append (m ∷ []) ms

  Fresh-reverse : (a : ℕ) (ms : List (MountInfo W)) → Fresh a ms → Fresh a (reverse ms)
  Fresh-reverse a [] f = tt
  Fresh-reverse a (m ∷ ms) f =
      rw (reverse-cons m ms)
        (Fresh-append a (reverse ms) (m ∷ []) (Fresh-reverse a ms f.1) (f.0, tt))

  pub Distinct-reverse : (ms : List (MountInfo W)) → Distinct ms → Distinct (reverse ms)
  Distinct-reverse [] d = tt
  Distinct-reverse (m ∷ ms) d =
      rw (reverse-cons m ms)
        (Distinct-snoc (reverse ms) m (Distinct-reverse ms d.1) (Fresh-reverse m.address ms d.0))

  pub length-reverse : (ms : List (MountInfo W)) → length (reverse ms) ≡ length ms
  length-reverse [] = refl
  length-reverse (m ∷ ms) =
      rw (reverse-cons m ms) (omega (arith, length-append (reverse ms) (m ∷ []), length-reverse ms))
