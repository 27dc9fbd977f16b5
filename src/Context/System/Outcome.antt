-- ===== src/Context/System/Outcome.antt =====
-- What the work items of a queue come to, in their order: an account of the thread of
-- src/FileContext.cpp without its queue and its pool.
use lamina_fs.Prelude.{
  ℕ, ◌<◌, true, ◌≡◌, refl, ap, ◌∙◌, Option, some, List, [], ◌∷◌, ◌++◌, arith, occurrences, ◌>>=◌,
  fun_ext,
}
use lamina_fs.WorkItem.{WorkItem}
use lamina_fs.Mounts.{MountInfo}
use lamina_fs.Processing.{perform}
use lamina_fs.Context.System.Invariant.{occurrences-head}
use lamina_fs.Context.System.Told.{call_for}

module _ {W : Type 0} where
  -- What performing the items at `ps`, one after the other, makes of callbacks and of the devices.
  pub outcome :
      List (MountInfo W) → (ℕ → WorkItem) → List ℕ → W → Option (List (ℕ × ℕ × WorkItem) × W)
  outcome ms items [] w = some ([], w)
  outcome ms items (p ∷ ps) w = do
    (item, w') ← perform ms (items p) w
    (calls, after) ← outcome ms items ps w'
    some (call_for (items p).callback_user_data (items p).callback item ++ calls, after)

  pub outcome-nil :
      (ms : List (MountInfo W)) (items : ℕ → WorkItem) (w : W)
      → outcome ms items [] w ≡ some ([], w)
  unfolding outcome
  outcome-nil ms items w = refl

  pub outcome-cons :
      (ms : List (MountInfo W)) (items : ℕ → WorkItem) (p : ℕ) (ps : List ℕ) (w : W)
      (item : WorkItem) (w' : W) (calls : List (ℕ × ℕ × WorkItem)) (after : W)
      → perform ms (items p) w ≡ some (item, w')
      → outcome ms items ps w' ≡ some (calls, after)
      → outcome ms items (p ∷ ps) w
        ≡ some (call_for (items p).callback_user_data (items p).callback item ++ calls, after)
  unfolding outcome
  outcome-cons ms items p ps w item w' calls after e f = rw (e, outcome) (rw f refl)

  -- The items that are not taken have no part in it.
  pub outcome-same :
      (ms : List (MountInfo W)) (items items' : ℕ → WorkItem) (ps : List ℕ) (w : W)
      → ((q : ℕ) → 0 < occurrences q ps → items' q ≡ items q)
      → outcome ms items' ps w ≡ outcome ms items ps w
  unfolding outcome
  outcome-same ms items items' [] w h = refl
  outcome-same ms items items' (p ∷ ps) w h =
      ap
        (λ (i : WorkItem). perform ms i w >>= λ r. outcome ms items' ps r.1 >>= λ o.
          some (call_for i.callback_user_data i.callback r.0 ++ o.0, o.1))
        (h p (occurrences-head p ps))
      ∙ ap
          (λ (k : W → Option (List (ℕ × ℕ × WorkItem) × W)). perform ms (items p) w >>= λ r.
            k r.1 >>= λ o.
            some (call_for (items p).callback_user_data (items p).callback r.0 ++ o.0, o.1))
          (fun_ext (λ v. outcome-same ms items items' ps v (λ q lt. h q (ground arith))))

  -- An item that has been performed, in some state of the devices, and completed.
  abbrev pub Performed : List (MountInfo W) → WorkItem → WorkItem → Type 0
  Performed ms item item' =
      (done : WorkItem) × (v w : W) × (perform ms item v ≡ some (done, w))
      × (item' ≡ record done { completed = true })
