-- ===== src/Mounts/Release.antt =====
-- What `releaseMount` leaves of the mounts.
use lamina_fs.Prelude.{
  ℕ, Bool, true, false, ◌≡◌, ◌≢◌, refl, none, some, Option-cases, List, [], ◌∷◌, ◌==◌, ◌++◌, ap,
  ◌∙◌, sym, arith, Bool-cases, inl, inr,
}
use lamina_fs.Prelude.{subst}
use lamina_fs.Mounts.{MountInfo, remove_mount, release_mount}
use lamina_fs.Mounts.Search.{Fresh, Distinct}
use lamina_fs.Mounts.Sound.{IsSound, AllSound, AreSound}

module _ {W : Type 0} where
  remove-Fresh :
      (a b : ℕ) (ms : List (MountInfo W)) (m : MountInfo W) (others : List (MountInfo W))
      → Fresh b ms
      → remove_mount a ms ≡ some (m, others)
      → Fresh b others
  unfolding remove_mount
  remove-Fresh a b [] m others f e = cc
  remove-Fresh a b (n ∷ ms) m others f e = elim (Bool-cases (n.address == a)) [
    | inl t ↦
        let shown : remove_mount a (n ∷ ms) ≡ some (n, ms) = rw (t, remove_mount) refl in
        let same : ms ≡ others = cc in subst (Fresh b) same f.1
    | inr t ↦ elim (Option-cases (remove_mount a ms)) [
      | inl r ↦ let shown : remove_mount a (n ∷ ms) ≡ none = rw (t, remove_mount, r) refl in cc
      | inr ((k, rest), r) ↦
          let shown : remove_mount a (n ∷ ms) ≡ some (k, n ∷ rest) = rw (t, remove_mount, r) refl in
          let same : n ∷ rest ≡ others = cc in
          subst (Fresh b) same (f.0, remove-Fresh a b ms k rest f.1 r)
    ]
  ]

  -- The mount with the address is gone, and the others are left as they were.
  pub remove-AreSound :
      (a : ℕ) (ms : List (MountInfo W)) (m : MountInfo W) (others : List (MountInfo W))
      → AllSound ms
      → Distinct ms
      → remove_mount a ms ≡ some (m, others)
      → IsSound m × (m.address ≡ a) × AllSound others × Distinct others × Fresh a others
  unfolding remove_mount
  remove-AreSound a [] m others h d e = cc
  remove-AreSound a (n ∷ ms) m others h d e = elim (Bool-cases (n.address == a)) [
    | inl t ↦
        let shown : remove_mount a (n ∷ ms) ≡ some (n, ms) = rw (t, remove_mount) refl in
        let same : ms ≡ others = cc in
        let mount : n ≡ m = cc in
        let here : n.address ≡ a = ground arith in
        let left : AllSound ms × Distinct ms × Fresh a ms =
          (h.1, d.1, subst (λ b. Fresh b ms) here d.0) in
        let rest = subst (λ l. AllSound l × Distinct l × Fresh a l) same left in
        let first = subst (λ k. IsSound k × (k.address ≡ a)) mount (h.0, here) in
        (first.0, first.1, rest.0, rest.1, rest.2)
    | inr t ↦ elim (Option-cases (remove_mount a ms)) [
      | inl r ↦ let shown : remove_mount a (n ∷ ms) ≡ none = rw (t, remove_mount, r) refl in cc
      | inr ((k, rest), r) ↦
          let shown : remove_mount a (n ∷ ms) ≡ some (k, n ∷ rest) = rw (t, remove_mount, r) refl in
          let same : n ∷ rest ≡ others = cc in
          let mount : k ≡ m = cc in
          let inner = remove-AreSound a ms k rest h.1 d.1 r in
          let ne : n.address ≢ a = ground arith in
          let left : AllSound (n ∷ rest) × Distinct (n ∷ rest) × Fresh a (n ∷ rest) =
            ((h.0, inner.2), (remove-Fresh a n.address ms k rest d.0 r, inner.3), (ne, inner.4)) in
          let others' = subst (λ l. AllSound l × Distinct l × Fresh a l) same left in
          let first = subst (λ j. IsSound j × (j.address ≡ a)) mount (inner.0, inner.1) in
          (first.0, first.1, others'.0, others'.1, others'.2)
    ]
  ]

  remove-none : (a : ℕ) (ms : List (MountInfo W)) → remove_mount a ms ≡ none → Fresh a ms
  unfolding remove_mount
  remove-none a [] e = tt
  remove-none a (n ∷ ms) e = elim (Bool-cases (n.address == a)) [
    | inl t ↦ let shown : remove_mount a (n ∷ ms) ≡ some (n, ms) = rw (t, remove_mount) refl in cc
    | inr t ↦ elim (Option-cases (remove_mount a ms)) [
      | inl r ↦ let ne : n.address ≢ a = ground arith in (ne, remove-none a ms r)
      | inr ((k, rest), r) ↦
          let shown : remove_mount a (n ∷ ms) ≡ some (k, n ∷ rest) = rw (t, remove_mount, r) refl in
          cc
    ]
  ]

  -- The mount that is taken stood among the others, which keep their order.
  remove-splits :
      (a : ℕ) (ms : List (MountInfo W)) (m : MountInfo W) (others : List (MountInfo W))
      → remove_mount a ms ≡ some (m, others)
      → (before after : List (MountInfo W)) × (ms ≡ before ++ (m ∷ after))
        × (others ≡ before ++ after)
  unfolding remove_mount
  remove-splits a [] m others e = cc
  remove-splits a (n ∷ ms) m others e = elim (Bool-cases (n.address == a)) [
    | inl t ↦
        let shown : remove_mount a (n ∷ ms) ≡ some (n, ms) = rw (t, remove_mount) refl in
        let same : ms ≡ others = cc in
        let mount : n ≡ m = cc in ([], ms, ap (λ k. k ∷ ms) mount, sym same)
    | inr t ↦ elim (Option-cases (remove_mount a ms)) [
      | inl r ↦ let shown : remove_mount a (n ∷ ms) ≡ none = rw (t, remove_mount, r) refl in cc
      | inr ((k, rest), r) ↦
          let shown : remove_mount a (n ∷ ms) ≡ some (k, n ∷ rest) = rw (t, remove_mount, r) refl in
          let same : n ∷ rest ≡ others = cc in
          let mount : k ≡ m = cc in
          let (before, after, all, left) = remove-splits a ms k rest r in
          (
            n ∷ before,
            after,
            ap (λ l. n ∷ l) (all ∙ ap (λ j. before ++ (j ∷ after)) mount),
            sym same ∙ ap (λ l. n ∷ l) left,
          )
    ]
  ]

  -- `releaseMount` on sound mounts calls no null function and leaves sound mounts. It returns
  -- false only if no mount has the address, and then nothing changes. If it returns true, one mount
  -- has the address: that mount's device is destroyed, by its own interface, and the mount is taken
  -- out of the list, in which the others stay, in their order; none of them has the address.
  pub release_mount-AreSound :
      (a : ℕ) (ms : List (MountInfo W)) (w : W)
      → AreSound ms
      → (found : Bool) × (others : List (MountInfo W)) × (w' : W) × (release_mount a ms w
          ≡ some (found, others, w'))
        × AreSound others
        × (found ≡ true
            → (m : MountInfo W) × (before after : List (MountInfo W)) × (destroy : ℕ → W → W)
              × (m.address ≡ a)
              × (ms ≡ before ++ (m ∷ after))
              × (others ≡ before ++ after)
              × (m.interface.destroy ≡ some destroy)
              × (w' ≡ destroy m.device w)
              × Fresh a others)
        × (found ≡ false → Fresh a ms × (others ≡ ms) × (w' ≡ w))
  unfolding release_mount
  release_mount-AreSound a ms w h = elim (Option-cases (remove_mount a ms)) [
    | inl e ↦ (
      false,
      ms,
      w,
      rw (e, release_mount) refl,
      h,
      λ f. cc,
      λ f. (remove-none a ms e, refl, refl),
    )
    | inr ((m, others), e) ↦
        let r = remove-AreSound a ms m others h.each h.distinct e in
        let (before, after, all, left) = remove-splits a ms m others e in
        elim (Option-cases m.interface.destroy) [
          | inl n ↦ absurd (ground (arith, r.0.registered.destroys))
          | inr (destroy, s) ↦ (
            true,
            others,
            destroy m.device w,
            rw (e, s, release_mount) refl,
            record { each = r.2; distinct = r.3 },
            λ f. (m, before, after, destroy, r.1, all, left, s, refl, r.4),
            λ f. cc,
          )
        ]
  ]
