-- ===== src/Processing/Safety.antt =====
-- The null functions that `processingFunc` might call.
use lamina_fs.Prelude.{
  ℕ, suc, Bool, true, false, not, ◌&&◌, ◌≡◌, ◌≢◌, refl, sym, ◌∙◌, Option, none, some, List, [], ◌∷◌,
  ◌++◌, reverse, length, arith, Bool-cases, Option-cases, inl, inr,
}
use lamina_fs.Prelude.{subst}
use mathlib.Core.List.{reverse-append}
use lamina_fs.Types.{
  ErrorCode, Text, Operation, exists, size, read, write, append, write_segment, delete, create_dir,
  delete_dir, mount_write_file,
}
use lamina_fs.Device.{DeviceInterface}
use lamina_fs.WorkItem.{WorkItem}
use lamina_fs.Mounts.{
  MountInfo, is_some, has, matches, denied, device_path, find_mutable, find_mutable_from,
}
use lamina_fs.Mounts.Search.{candidate, readable}
use lamina_fs.Mounts.Sound.{IsSound, AllSound, AllSound-snoc, AreSound}
use lamina_fs.Processing.{
  visit, try_exists, try_size, try_read, perform_exists, perform_size, perform_read, perform_write,
  perform_change, perform,
}
use lamina_fs.Processing.Visit.{overlay, visit-eq-overlay}

granted : (b : Bool) → not b ≡ false → b ≡ true
granted b h = ground arith

module _ {W : Type 0} where
  AllSound-reverse : (ms : List (MountInfo W)) → AllSound ms → AllSound (reverse ms)
  AllSound-reverse [] h = tt
  AllSound-reverse (m ∷ ms) h =
      rw (reverse-append (m ∷ []) ms) (AllSound-snoc (reverse ms) m (AllSound-reverse ms h.1) h.0)

  AllSound-readable :
      (path : Text) (ms : List (MountInfo W)) → AllSound ms → AllSound (readable path ms)
  unfolding readable
  AllSound-readable path [] h = tt
  AllSound-readable path (m ∷ ms) h = elim (Bool-cases (candidate path m)) [
    | inl e ↦ rw (e, readable) (h.0, AllSound-readable path ms h.1)
    | inr e ↦ rw (e, readable) (AllSound-readable path ms h.1)
  ]

module _ {ℓ} {W : Type 0} {S : Type ℓ} (body : MountInfo W → Text → S → Option (Bool × S))
    (good : (m : MountInfo W) (path : Text) (s : S) → IsSound m → is_some (body m path s) ≡ true)
    (path : Text) where
  overlay-returns :
      (ms : List (MountInfo W)) (s : S) → AllSound ms → is_some (overlay body path ms s) ≡ true
  unfolding overlay
  overlay-returns [] s h = refl
  overlay-returns (m ∷ ms) s h = elim (Option-cases (body m (device_path path m) s)) [
    | inl e ↦ let g = good m (device_path path m) s h.0 in absurd (ground arith)
    | inr ((true, s'), e) ↦ rw (e, overlay) refl
    | inr ((false, s'), e) ↦ rw (e, overlay) (overlay-returns ms s' h.1)
  ]

  visit-returns :
      (ms : List (MountInfo W)) (s : S)
      → AreSound ms
      → is_some (visit (suc (length ms)) body ms path none s) ≡ true
  visit-returns ms s h = rw (visit-eq-overlay body ms path s h.distinct) (
      overlay-returns (readable path (reverse ms)) s
        (AllSound-readable path (reverse ms) (AllSound-reverse ms h.each)))

module _ {W : Type 0} where
  exists-returns :
      (m : MountInfo W) (path : Text) (s : WorkItem × W)
      → IsSound m
      → is_some (try_exists m path s) ≡ true
  unfolding try_exists
  exists-returns m path (item, w) h = ground (arith, h.registered.exists)

  size-returns :
      (m : MountInfo W) (path : Text) (s : WorkItem × W)
      → IsSound m
      → is_some (try_size m path s) ≡ true
  unfolding try_size
  size-returns m path (item, w) h = ground (arith, h.registered.sizes)

  read-returns :
      (max_bytes : ℕ) (m : MountInfo W) (path : Text) (s : WorkItem × W)
      → IsSound m
      → is_some (try_read max_bytes m path s) ≡ true
  unfolding try_read
  read-returns max_bytes m path (item, w) h = ground (arith, h.registered.reads)

  -- The mount that an operation changes: one of the context's, that serves the path and is not denied.
  pub find_mutable_from-some :
      (path : Text) (op : Operation) (ms : List (MountInfo W)) (m : MountInfo W) (at : Text)
      → AllSound ms
      → find_mutable_from path op ms ≡ some (m, at)
      → IsSound m × (matches path m ≡ true) × (denied op m.permissions ≡ false)
  unfolding find_mutable_from
  find_mutable_from-some path op [] m at h e = cc
  find_mutable_from-some path op (n ∷ ms) m at h e =
      elim (Bool-cases (matches path n && not (denied op n.permissions))) [
        | inl t ↦
            let shown : find_mutable_from path op (n ∷ ms) ≡ some (n, device_path path n) =
              rw (t, find_mutable_from) refl in
            let same : n ≡ m = cc in
            let serves : matches path n ≡ true = ground arith in
            let free : denied op n.permissions ≡ false = ground arith in
            subst (λ k. IsSound k × (matches path k ≡ true) × (denied op k.permissions ≡ false))
              same (h.0, serves, free)
        | inr t ↦
            find_mutable_from-some path op ms m at h.1 (sym (rw (t, find_mutable_from) refl) ∙ e)
      ]

  chosen :
      (ms : List (MountInfo W)) (path : Text) (op : Operation) (m : MountInfo W) (at : Text)
      → AreSound ms
      → find_mutable ms path op ≡ some (m, at)
      → IsSound m × (matches path m ≡ true) × (denied op m.permissions ≡ false)
  unfolding find_mutable
  chosen ms path op m at h e =
      find_mutable_from-some path op (reverse ms) m at (AllSound-reverse ms h.each) e

  write-returns :
      (ms : List (MountInfo W)) (item : WorkItem) (w : W)
      → ((m : MountInfo W)
          → IsSound m
          → denied item.operation m.permissions ≡ false
          → is_some m.interface.write_file ≡ true)
      → AreSound ms
      → is_some (perform_write ms item w) ≡ true
  unfolding perform_write
  write-returns ms item w able h =
      elim (Option-cases (find_mutable ms item.filename item.operation)) [
        | inl e ↦ rw (e, perform_write) refl
        | inr ((m, at), e) ↦
            let c = chosen ms item.filename item.operation m at h e in
            rw (e, perform_write) (ground (arith, able m c.0 c.2))
      ]

  change-returns :
      (pick : DeviceInterface W → Option (ℕ → Text → W → ErrorCode × W)) (ms : List (MountInfo W))
      (item : WorkItem) (w : W)
      → ((m : MountInfo W)
          → IsSound m
          → denied item.operation m.permissions ≡ false
          → is_some (pick m.interface) ≡ true)
      → AreSound ms
      → is_some (perform_change pick ms item w) ≡ true
  unfolding perform_change
  change-returns pick ms item w able h =
      elim (Option-cases (find_mutable ms item.filename item.operation)) [
        | inl e ↦ rw (e, perform_change) refl
        | inr ((m, at), e) ↦
            let c = chosen ms item.filename item.operation m at h e in
            rw (e, perform_change) (ground (arith, able m c.0 c.2))
      ]

  -- Over sound mounts `processingFunc` calls no null function, whatever the operation but the
  -- writing of a segment, and every loop ends within its fuel.
  pub perform-safe :
      (ms : List (MountInfo W)) (item : WorkItem) (w : W)
      → AreSound ms
      → item.operation ≢ write_segment
      → is_some (perform ms item w) ≡ true
  unfolding perform perform_exists perform_size perform_read denied
  perform-safe ms item w h ne = go item.operation refl
    where
      go : (op : Operation) → item.operation ≡ op → is_some (perform ms item w) ≡ true
      go exists e = rw (e, perform) (visit-returns try_exists exists-returns item.filename ms _ h)
      go size e = rw (e, perform) (visit-returns try_size size-returns item.filename ms _ h)
      go read e =
          rw (e, perform)
            (visit-returns (try_read item.buffer_bytes) (read-returns item.buffer_bytes)
              item.filename ms _ h)
      go write e =
          rw (e, perform)
            (write-returns ms item w (λ m s d. s.allows.writes (granted _ (rw e at d))) h)
      go append e =
          rw (e, perform)
            (write-returns ms item w (λ m s d. s.allows.writes (granted _ (rw e at d))) h)
      go write_segment e = absurd (ne e)
      go delete e =
          rw (e, perform)
            (change-returns (λ i. i.delete_file) ms item w
              (λ m s d. s.allows.deletes (granted _ (rw e at d))) h)
      go create_dir e =
          rw (e, perform)
            (change-returns (λ i. i.create_dir) ms item w
              (λ m s d. s.allows.creates (granted _ (rw e at d))) h)
      go delete_dir e =
          rw (e, perform)
            (change-returns (λ i. i.delete_dir) ms item w
              (λ m s d. s.allows.removes (granted _ (rw e at d))) h)

  -- The newest mount, if it serves the path, gets the writing of a segment, whatever its permissions.
  newest-segment :
      (ms : List (MountInfo W)) (m : MountInfo W) (path : Text)
      → matches path m ≡ true
      → find_mutable (ms ++ (m ∷ [])) path write_segment ≡ some (m, device_path path m)
  unfolding find_mutable find_mutable_from denied
  newest-segment ms m path h = rw (reverse-append ms (m ∷ []), h) refl

  -- The writing of a segment to a path that the newest mount serves calls a null function if that
  -- mount is sound and its device cannot write, although the mount has no permission to write.
  pub segment-fault :
      (ms : List (MountInfo W)) (m : MountInfo W) (item : WorkItem) (w : W)
      → IsSound m
      → m.interface.write_file ≡ none
      → matches item.filename m ≡ true
      → item.operation ≡ write_segment
      → (has m.permissions mount_write_file ≡ false) × (perform (ms ++ (m ∷ [])) item w ≡ none)
  unfolding perform perform_write
  segment-fault ms m item w sound unable serves op = (
    elim (Bool-cases (has m.permissions mount_write_file)) [
      | inl e ↦ absurd (ground (arith, sound.allows.writes e))
      | inr e ↦ e
    ],
    rw (op, perform, perform_write, op, newest-segment ms m item.filename serves, unable) refl,
  )
