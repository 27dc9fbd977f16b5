-- ===== src/Processing/Visit.antt =====
-- The loops of `processingFunc` over the mounts of a path.
use lamina_fs.Prelude.{
  ℕ, zero, suc, ◌≤◌, Bool, true, false, ◌≡◌, refl, sym, ap, ◌∙◌, Option, none, some, List, [], ◌∷◌,
  ◌++◌, append_assoc, reverse, length, arith, Bool-cases, inl, inr, ◌>>=◌,
}
use lamina_fs.Types.{Text, mount_read}
use lamina_fs.Mounts.{MountInfo, has, device_path, find_next_from, find_next}
use lamina_fs.Mounts.Search.{
  candidate, readable, Distinct, Fresh-before, find-candidate, find-other, find-resume,
  Distinct-reverse, length-reverse,
}
use lamina_fs.Processing.{visit}

module _ {ℓ} {W : Type 0} {S : Type ℓ} where
  -- The mounts in turn, each with its device path, until the body breaks.
  unfoldable pub overlay :
      (MountInfo W → Text → S → Option (Bool × S)) → Text → List (MountInfo W) → S → Option S
  overlay body path [] s = some s
  overlay body path (m ∷ ms) s = body m (device_path path m) s >>= λ (found, s'). elim found [
    | true ↦ some s'
    | false ↦ overlay body path ms s'
  ]

module _ {W : Type 0} (mounts : List (MountInfo W)) (path : Text) where
  start_at_end : find_next mounts path none ≡ find_next_from path none (reverse mounts)
  unfolding find_next
  start_at_end = refl

  resume :
      (pre : List (MountInfo W)) (m : MountInfo W) (post : List (MountInfo W))
      → reverse mounts ≡ pre ++ (m ∷ post)
      → Distinct (pre ++ (m ∷ post))
      → has m.permissions mount_read ≡ true
      → find_next mounts path (some m.address) ≡ find_next_from path none post
  unfolding find_next
  resume pre m post whole d e = rw whole (find-resume path pre m post (Fresh-before pre m post d) e)

module _ {ℓ} {W : Type 0} {S : Type ℓ} (body : MountInfo W → Text → S → Option (Bool × S))
    (mounts : List (MountInfo W)) (path : Text) where
  visit-found :
      (fuel : ℕ) (m : MountInfo W) (start : Option ℕ) (s : S)
      → find_next mounts path start ≡ some (m, device_path path m)
      → visit (suc fuel) body mounts path start s ≡ (
          body m (device_path path m) s >>= λ (found, s'). elim found [
            | true ↦ some s'
            | false ↦ visit fuel body mounts path (some m.address) s'
          ])
  unfolding visit
  visit-found fuel m start s e = rw (e, visit)

  visit-end :
      (fuel : ℕ) (start : Option ℕ) (s : S)
      → find_next mounts path start ≡ none
      → visit (suc fuel) body mounts path start s ≡ some s
  unfolding visit
  visit-end fuel start s e = rw (e, visit)

  -- Two continuations that agree make the same step.
  continue-eq :
      (r : Option (Bool × S)) (f g : S → Option S)
      → ((s : S) → f s ≡ g s)
      → (r >>= λ (found, s'). elim found [ true ↦ some s' | false ↦ f s' ])
        ≡ (r >>= λ (found, s'). elim found [ true ↦ some s' | false ↦ g s' ])
  continue-eq none f g h = refl
  continue-eq (some (true, s)) f g h = refl
  continue-eq (some (false, s)) f g h = h s

  readable-candidate :
      (m : MountInfo W) (ms : List (MountInfo W))
      → candidate path m ≡ true
      → readable path (m ∷ ms) ≡ m ∷ readable path ms
  unfolding readable
  readable-candidate m ms e = rw e refl

  readable-other :
      (m : MountInfo W) (ms : List (MountInfo W))
      → candidate path m ≡ false
      → readable path (m ∷ ms) ≡ readable path ms
  unfolding readable
  readable-other m ms e = rw e refl

  readable-nil : readable {W = W} path [] ≡ []
  unfolding readable
  readable-nil = refl

  overlay-nil : (s : S) → overlay body path (readable path []) s ≡ some s
  unfolding overlay
  overlay-nil s = rw readable-nil refl

  overlay-cons :
      (m : MountInfo W) (ms : List (MountInfo W)) (s : S)
      → overlay body path (m ∷ ms) s ≡ (
          body m (device_path path m) s >>= λ (found, s'). elim found [
            | true ↦ some s'
            | false ↦ overlay body path ms s'
          ])
  unfolding overlay
  overlay-cons m ms s = refl

  find-nil : (start : Option ℕ) → find_next_from {W = W} path start [] ≡ none
  unfolding find_next_from
  find-nil start = refl

  visit-overlay :
      (pre post : List (MountInfo W)) (fuel : ℕ) (start : Option ℕ) (s : S)
      → reverse mounts ≡ pre ++ post
      → Distinct (pre ++ post)
      → length post ≤ fuel
      → find_next mounts path start ≡ find_next_from path none post
      → visit (suc fuel) body mounts path start s ≡ overlay body path (readable path post) s
  visit-overlay pre [] fuel start s whole d few at =
      visit-end fuel start s (at ∙ find-nil none) ∙ sym (overlay-nil s)
  visit-overlay pre (m ∷ post) zero start s whole d few at = absurd (omega arith)
  visit-overlay pre (m ∷ post) (suc fuel) start s whole d few at =
      let shift : pre ++ (m ∷ post) ≡ (pre ++ (m ∷ [])) ++ post = simp append_assoc refl in
      let whole' : reverse mounts ≡ (pre ++ (m ∷ [])) ++ post = whole ∙ shift in
      let d' : Distinct ((pre ++ (m ∷ [])) ++ post) = rw (← shift) d in
      elim (Bool-cases (candidate path m)) [
        | inl e ↦
            let next = resume mounts path pre m post whole d (ground arith) in
            visit-found (suc fuel) m start s (at ∙ find-candidate path m post e)
            ∙ continue-eq (body m (device_path path m) s)
                (visit (suc fuel) body mounts path (some m.address))
                (overlay body path (readable path post))
                (λ s'.
                  visit-overlay (pre ++ (m ∷ [])) post fuel (some m.address) s' whole' d'
                    (omega arith) next)
            ∙ sym (overlay-cons m (readable path post) s)
            ∙ ap (λ l. overlay body path l s) (sym (readable-candidate m post e))
        | inr e ↦
            visit-overlay (pre ++ (m ∷ [])) post (suc fuel) start s whole' d' (omega arith)
              (at ∙ find-other path m post e)
            ∙ ap (λ l. overlay body path l s) (sym (readable-other m post e))
      ]

  -- The loop of an operation that reads, over mounts with different addresses, ends within its fuel
  -- and tries the mounts that can be read and serve the path, the newest first, each once, until
  -- one breaks it.
  pub visit-eq-overlay :
      (s : S)
      → Distinct mounts
      → visit (suc (length mounts)) body mounts path none s
        ≡ overlay body path (readable path (reverse mounts)) s
  visit-eq-overlay s d =
      visit-overlay [] (reverse mounts) (length mounts) none s refl (Distinct-reverse mounts d)
        (omega (arith, length-reverse mounts)) (start_at_end mounts path)
