-- ===== src/Context/System/Faults.antt =====
-- What the calls return in a context that is in use.
use lamina_fs.Prelude.{
  ◌⊎◌, Bool-cases, ◌==◌, inl, inr, ℕ, ◌^◌, ◌<◌, true, ◌≡◌, ◌≢◌, refl, sym, ap, ◌∙◌, List, [], ◌∷◌,
  length, arith, occurrences,
}
use lamina_fs.Mounts.{is_some}
use lamina_fs.Paths.Canonical.{IsText}
use lamina_fs.Context.{
  FileContext, Request, alloc_work_item_common, push_item, release_work_item, turn,
  release_work_item_internal,
}
use lamina_fs.Context.Turn.{queued, idle_turn}
use lamina_fs.Context.Finish.{slot_not_null, release_freed}
use lamina_fs.Context.Submit.{alloc_work_item-cases}
use lamina_fs.Context.System.{System, CanRun, IsReachable}
use lamina_fs.Context.System.Invariant.{IsConsistent}
use lamina_fs.Context.System.Queueing.{push_item-cases}
use lamina_fs.Context.System.Releasing.{release-internal}
use lamina_fs.Context.System.Told.{Turn-Tells}
use lamina_fs.Context.System.Safety.{reachable-IsConsistent}

module _ {W : Type 0} where
  -- The item that the next turn takes, if the queue holds one, can run.
  abbrev pub NextCanRun : FileContext W → Type 0
  NextCanRun ctx = (p : ℕ) (rest : List ℕ) → queued ctx ≡ p ∷ rest → CanRun (ctx.items p)

  turn-safe :
      (s : System W) (q : List ℕ)
      → IsConsistent s
      → queued s.ctx ≡ q
      → NextCanRun s.ctx
      → is_some (turn s.ctx) ≡ true
  turn-safe s [] h e can =
      let (queue, idle, empty, valid) = idle_turn s.ctx h.ready e in ap is_some idle
  turn-safe s (p ∷ rest) h e can =
      let tells = Turn-Tells s p rest h e (can p rest e) in ap is_some tells.turns.takes

  push_item-safe : (s : System W) (p : ℕ) → IsConsistent s → is_some (push_item p s.ctx) ≡ true
  push_item-safe s p h =
      let (done, queue, semaphore, found, valid, holds) = push_item-cases s.ctx p h.ready in
      ap is_some found

  release-safe :
      (s : System W) (p : ℕ)
      → IsConsistent s
      → 0 < occurrences p s.held
      → is_some (release_work_item p s.ctx) ≡ true
  release-safe s p h lt =
      let (i, at, inside) = h.owned p (omega arith) in
      let (pool, released, frees) = release_freed s.ctx i h.ready.pool h.ready.not_null inside in
      let not_null : p ≢ 0 = λ null. slot_not_null s.ctx i h.ready (sym at ∙ null) in
      let plain = h.finished p lt in
      let answer = release-internal s.ctx p not_null plain.0 in
      ap is_some (answer ∙ ap (λ a. release_work_item_internal a s.ctx) at ∙ released)

  alloc-safe :
      (s : System W) (q : Request)
      → IsConsistent s
      → IsText q.path
      → length q.path < 2 ^ 32
      → is_some (alloc_work_item_common q s.ctx) ≡ true
  alloc-safe s q h text small = elim (alloc_work_item-cases q s.ctx h.ready text small) [
    | inl full ↦ ap is_some full
    | inr (i, pool, got, takes) ↦ ap is_some got
  ]

  -- In a context that is in use as the steps say, whatever requests were made before, no round of
  -- `push` faults, nor the release of an item that a client holds, nor the allocation of an item for
  -- a C string of fewer than 2 ^ 32 bytes. Nor does a turn of the thread, where the item that it takes,
  -- if any, is not one of `LFS_OP_WRITE_SEGMENT`, and has an allocator if its buffer is to be freed.
  pub reachable-safe :
      (s : System W) (p : ℕ) (q : Request)
      → IsReachable s
      → NextCanRun s.ctx
      → IsText q.path
      → length q.path < 2 ^ 32
      → (is_some (turn s.ctx) ≡ true)
        × (is_some (push_item p s.ctx) ≡ true)
        × ((occurrences p s.held ≡ 0) ⊎ (is_some (release_work_item p s.ctx) ≡ true))
        × (is_some (alloc_work_item_common q s.ctx) ≡ true)
  reachable-safe s p q reached can text small =
      let h = reachable-IsConsistent s reached in
      (
        turn-safe s (queued s.ctx) h refl can,
        push_item-safe s p h,
        elim (Bool-cases (occurrences p s.held == 0)) [
          | inl e ↦ inl (ground arith)
          | inr e ↦ inr (release-safe s p h (ground arith))
        ],
        alloc-safe s q h text small,
      )
