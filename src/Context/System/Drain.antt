-- ===== src/Context/System/Drain.antt =====
-- The loop of `processingFunc` in src/FileContext.cpp, up to the turn that finds the queue empty.
use lamina_fs.Prelude.{
  ℕ, zero, suc, ◌<◌, Bool, true, false, ◌≡◌, refl, sym, ap, ◌∙◌, subst, Option, some, List, [], ◌∷◌,
  length, arith, occurrences, ◌>>=◌,
}
use lamina_fs.Context.{FileContext, turn}
use lamina_fs.Context.Turn.{queued, idle_turn}
use lamina_fs.Context.System.{System, CanRun, IsReachable, turns, idles, next}
use lamina_fs.Context.System.Invariant.{IsConsistent, occurrences-head}
use lamina_fs.Context.System.Told.{Tells, Turn-Tells, alone}
use lamina_fs.Context.System.Drained.{Drains, after_turn, turn-Drains, idle-Drains}
use lamina_fs.Context.System.Safety.{reachable-IsConsistent}

module _ {W : Type 0} where
  -- The loop: whether the thread has come to wait, and the context. The fuel bounds the turns.
  pub drain : ℕ → FileContext W → Option (Bool × FileContext W)
  drain zero ctx = some (false, ctx)
  drain (suc fuel) ctx =
      turn ctx >>= λ r. elim r.0 [ true ↦ drain fuel r.1 | false ↦ some (true, r.1) ]

  drain-idle :
      (fuel : ℕ) (ctx ctx' : FileContext W)
      → turn ctx ≡ some (false, ctx')
      → drain (suc fuel) ctx ≡ some (true, ctx')
  unfolding drain
  drain-idle fuel ctx ctx' e = rw e refl

  drain-turn :
      (fuel : ℕ) (ctx ctx' : FileContext W)
      → turn ctx ≡ some (true, ctx')
      → drain (suc fuel) ctx ≡ drain fuel ctx'
  unfolding drain
  drain-turn fuel ctx ctx' e = rw e refl

  abbrev pub AllCanRun : FileContext W → Type 0
  AllCanRun ctx = (p : ℕ) → 0 < occurrences p (queued ctx) → CanRun (ctx.items p)

  rest-CanRun :
      (s : System W) (p : ℕ) (rest : List ℕ)
      → IsConsistent s
      → queued s.ctx ≡ p ∷ rest
      → (tells : Tells s.ctx p rest) → AllCanRun s.ctx
      → AllCanRun tells.after
  rest-CanRun s p rest h e tells can q lt =
      let lt' : 0 < occurrences q rest = subst (λ ps. 0 < occurrences q ps) tells.turns.queue lt in
      subst CanRun (sym (tells.turns.others q (alone s p rest h e q lt')))
        (can q (ground (arith, ap (occurrences q) e)))

  drain-Drains_by :
      (fuel : ℕ) (s : System W) (q : List ℕ)
      → IsReachable s
      → AllCanRun s.ctx
      → queued s.ctx ≡ q
      → length q < fuel
      → (t : System W) × (drain fuel s.ctx ≡ some (true, t.ctx)) × Drains s t
  drain-Drains_by zero s q reached can e lt = absurd (omega arith)
  drain-Drains_by (suc fuel) s [] reached can e lt =
      let (queue, idle, empty, valid) =
        idle_turn s.ctx (reachable-IsConsistent s reached).ready e in
      let ctx = record s.ctx { queue = queue } in
      (
        record s { ctx = ctx },
        drain-idle fuel s.ctx ctx idle,
        idle-Drains s ctx e (next reached (idles s ctx e idle)) empty refl refl refl,
      )
  drain-Drains_by (suc fuel) s (p ∷ rest) reached can e lt =
      let h = reachable-IsConsistent s reached in
      let front : 0 < occurrences p (queued s.ctx) = rw e (occurrences-head p rest) in
      let tells = Turn-Tells s p rest h e (can p front) in
      let ctx = tells.after in
      let takes = tells.turns in
      let (t, drained, d) =
        drain-Drains_by fuel (after_turn s p ctx) rest
          (next reached (turns s p rest ctx e takes.takes)) (rest-CanRun s p rest h e tells can)
          takes.queue (omega arith) in
      (t, drain-turn fuel s.ctx ctx takes.takes ∙ drained, turn-Drains s t p rest h e tells d)

  -- The thread of a context in use, left to itself with fuel for more turns than there are queued
  -- items, comes to wait with an empty queue, where no queued item is one of `LFS_OP_WRITE_SEGMENT`
  -- and those whose buffer is to be freed have an allocator. It has then taken the queued items in
  -- their order and performed each, the devices being left as the operations leave them, one after
  -- the other; it has made the callbacks of those that have one, once each and in that order and no
  -- others, each with what performing the item gave, completed; and those without a
  -- callback are left as performing them gave, completed, and given back to be released, besides the
  -- ones that were to be released before.
  pub drain-Drains :
      (s : System W) (fuel : ℕ)
      → IsReachable s
      → AllCanRun s.ctx
      → length (queued s.ctx) < fuel
      → (t : System W) × (drain fuel s.ctx ≡ some (true, t.ctx)) × Drains s t
  drain-Drains s fuel reached can lt = drain-Drains_by fuel s (queued s.ctx) reached can refl lt
