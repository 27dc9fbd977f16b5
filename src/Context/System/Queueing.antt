-- ===== src/Context/System/Queueing.antt =====
-- A client pushes an item or finds the queue full, and the thread finds it empty.
use lamina_fs.Prelude.{
  ℕ, ◌+◌, Bool, true, false, ◌≡◌, refl, sym, ap, ◌∙◌, subst, some, List, [], ◌∷◌, ◌++◌, length,
  ◌==◌, if◌then◌else◌, arith, occurrences, Bool-cases, inl, inr, append_assoc,
}
use lamina_fs.RingBuffer
use lamina_fs.RingBuffer.{RingBuffer}
use lamina_fs.RingBuffer.Queue
use lamina_fs.RingBuffer.Bounds
use lamina_fs.RingBuffer.Contents.{contents}
use lamina_fs.RingBuffer.Refine.{push_refines}
use lamina_fs.Mounts.Reachable
use lamina_fs.Mounts.Reachable.{Registry, Step-IsGood}
use lamina_fs.Context.{FileContext, notify, push_item}
use lamina_fs.Context.Turn.{IsReady, queued, slot_address}
use lamina_fs.Context.System.{System, registry, configured}
use lamina_fs.Context.System.Invariant.{IsConsistent, occurrences-between, occurrences-last}

module _ {W : Type 0} where
  -- The context with another queue.
  abbrev requeued : FileContext W → RingBuffer ℕ → ℕ → FileContext W
  requeued ctx queue semaphore = record ctx { queue = queue; semaphore = semaphore }

  pub requeued-IsConsistent :
      (s : System W) (queue : RingBuffer ℕ) (semaphore : ℕ) (pending pushes : List ℕ)
      → IsConsistent s
      → RingBuffer.Bounds.IsValid queue
      → ((p : ℕ)
          → occurrences p pending + occurrences p (contents 0 queue)
            ≡ occurrences p s.pending + occurrences p (queued s.ctx))
      → pushes ≡ s.taken ++ contents 0 queue
      → IsConsistent
          (record s { ctx = requeued s.ctx queue semaphore; pending = pending; pushed = pushes })
  requeued-IsConsistent s queue semaphore pending pushes h valid same order = record {
    ready = record {
      sound = h.ready.sound;
      pool = h.ready.pool;
      queue = valid;
      not_null = h.ready.not_null;
    };
    registered = h.registered;
    accounts = λ i lt. omega (arith, h.accounts i lt, same (slot_address s.ctx i));
    owned = λ p lt. h.owned p (omega (arith, same p));
    waiting = λ p lt. h.waiting p (omega (arith, same p));
    finished = h.finished;
    order = order;
  }

  -- The two ways in which one round of `push` ends.
  pub push_item-cases :
      (ctx : FileContext W) (p : ℕ)
      → IsReady ctx
      → (done : Bool) × (queue : RingBuffer ℕ) × (semaphore : ℕ) × (push_item p ctx
          ≡ some (done, requeued ctx queue semaphore))
        × RingBuffer.Bounds.IsValid queue
        × (contents 0 queue ≡ (if done then queued ctx ++ (p ∷ []) else queued ctx))
  unfolding push_item Queue.push
  push_item-cases ctx p ready =
      let (queue, pushes, holds, valid, same) = push_refines 0 p ctx.queue ready.queue in
      elim (Bool-cases (length (queued ctx) == ctx.queue.capacity)) [
        | inl e ↦
            (false, queue, ctx.semaphore, rw (rw e at pushes, push_item) refl, valid, rw e at holds)
        | inr e ↦ (
          true,
          queue,
          (if Queue.is_empty (queued ctx) then notify ctx.semaphore else ctx.semaphore),
          rw (rw e at pushes, push_item) refl,
          valid,
          rw e at holds,
        )
      ]

  pub pushes-IsConsistent :
      (s : System W) (before after : List ℕ) (p : ℕ) (ctx : FileContext W)
      → s.pending ≡ before ++ (p ∷ after)
      → push_item p s.ctx ≡ some (true, ctx)
      → IsConsistent s
      → IsConsistent
          (record s { ctx = ctx; pending = before ++ after; pushed = s.pushed ++ (p ∷ []) })
  pushes-IsConsistent s before after p ctx split e h =
      let (done, queue, semaphore, found, valid, holds) = push_item-cases s.ctx p h.ready in
      let accepted : done ≡ true = cc in
      let there : requeued s.ctx queue semaphore ≡ ctx = cc in
      let holds' : contents 0 queue ≡ queued s.ctx ++ (p ∷ []) =
        holds ∙ ap (λ b. if b then queued s.ctx ++ (p ∷ []) else queued s.ctx) accepted in
      subst
        (λ (c : FileContext W).
          IsConsistent
            (record s { ctx = c; pending = before ++ after; pushed = s.pushed ++ (p ∷ []) }))
        there
        (requeued-IsConsistent s queue semaphore (before ++ after) (s.pushed ++ (p ∷ [])) h valid
          (λ k. omega (
            arith,
            ap (occurrences k) holds',
            occurrences-last k p (queued s.ctx),
            ap (occurrences k) split,
            occurrences-between k p before after,
          ))
          (ap (λ xs. xs ++ (p ∷ [])) h.order
            ∙ append_assoc s.taken (queued s.ctx) (p ∷ [])
            ∙ ap (λ xs. s.taken ++ xs) (sym holds')))

  pub spins-IsConsistent :
      (s : System W) (p : ℕ) (ctx : FileContext W)
      → push_item p s.ctx ≡ some (false, ctx)
      → IsConsistent s
      → IsConsistent (record s { ctx = ctx })
  spins-IsConsistent s p ctx e h =
      let (done, queue, semaphore, found, valid, holds) = push_item-cases s.ctx p h.ready in
      let refused : done ≡ false = cc in
      let there : requeued s.ctx queue semaphore ≡ ctx = cc in
      let holds' : contents 0 queue ≡ queued s.ctx =
        holds ∙ ap (λ b. if b then queued s.ctx ++ (p ∷ []) else queued s.ctx) refused in
      subst (λ (c : FileContext W). IsConsistent (record s { ctx = c })) there
        (requeued-IsConsistent s queue semaphore s.pending s.pushed h valid
          (λ k. omega (arith, ap (occurrences k) holds'))
          (h.order ∙ ap (λ xs. s.taken ++ xs) (sym holds')))

  pub configures-IsConsistent :
      (s : System W) (r : Registry W)
      → Reachable.Step (registry s.ctx) r
      → IsConsistent s
      → IsConsistent (record s { ctx = configured s.ctx r })
  configures-IsConsistent s r step h =
      let good = Step-IsGood step (h.registered, h.ready.sound) in
      record {
        ready = record {
          sound = good.1;
          pool = h.ready.pool;
          queue = h.ready.queue;
          not_null = h.ready.not_null;
        };
        registered = good.0;
        accounts = h.accounts;
        owned = h.owned;
        waiting = h.waiting;
        finished = h.finished;
        order = h.order;
      }
