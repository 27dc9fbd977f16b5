-- ===== src/Context/Queued.antt =====
-- A request that gets a work item.
use lamina_fs.Prelude.{
  ℕ, ◌^◌, ◌<◌, true, false, ◌≡◌, ◌≢◌, refl, sym, ap, ◌∙◌, some, inl, inr, [], ◌∷◌, ◌++◌, length,
  ◌==◌, if◌then◌else◌, arith,
}
use lamina_fs.Paths.Canonical.{IsText}
use lamina_fs.PoolAllocator
use lamina_fs.PoolAllocator.{PoolAllocator}
use lamina_fs.PoolAllocator.Slots
use lamina_fs.PoolAllocator.Alloc.{Takes, alloc_lem}
use lamina_fs.RingBuffer
use lamina_fs.RingBuffer.Queue
use lamina_fs.RingBuffer.Queue.{is_empty}
use lamina_fs.RingBuffer.Bounds
use lamina_fs.RingBuffer.Contents.{contents}
use lamina_fs.RingBuffer.Refine.{push_refines}
use lamina_fs.Context.{
  FileContext, Request, work_item_size, update, notify, alloc_work_item_common, push_item, submit,
}
use lamina_fs.Context.Turn.{IsReady, queued, slot_address, update_self, update_other}
use lamina_fs.Context.Submit.{requested, init_work_item-requested}

module _ {W : Type 0} where
  pub pushed :
      (ctx : FileContext W) (p : ℕ)
      → RingBuffer.Bounds.IsValid ctx.queue
      → length (queued ctx) ≢ ctx.queue.capacity
      → (queue : RingBuffer.RingBuffer ℕ) × (RingBuffer.push p ctx.queue
          ≡ some (true, is_empty (queued ctx), queue))
        × (contents 0 queue ≡ queued ctx ++ (p ∷ []))
        × RingBuffer.Bounds.IsValid queue
        × (queue.capacity ≡ ctx.queue.capacity)
  unfolding Queue.push
  pushed ctx p valid room =
      let (queue, pushes, holds, valid', same) = push_refines 0 p ctx.queue valid in
      let has_room : (length (queued ctx) == ctx.queue.capacity) ≡ false = ground arith in
      (queue, rw has_room at pushes, rw has_room at holds, valid', same)

  -- What a request that has got slot `i` leaves: the item is filled and queued behind the others,
  -- and the semaphore is notified when the queue was empty.
  pub record Submits (q : Request) (ctx : FileContext W) (i : ℕ) (ctx' : FileContext W)
      : Type 0 where
    pub answers : submit q ctx ≡ some (slot_address ctx i, true, ctx')
    pub takes : Takes ctx.pool ctx'.pool i
    pub queue : queued ctx' ≡ queued ctx ++ (slot_address ctx i ∷ [])
    pub item : ctx'.items (slot_address ctx i) ≡ q.fill (requested q)
    pub others : (p : ℕ) → p ≢ slot_address ctx i → ctx'.items p ≡ ctx.items p
    pub wakes :
        ctx'.semaphore ≡ (if is_empty (queued ctx) then notify ctx.semaphore else ctx.semaphore)
    pub calls : ctx'.calls ≡ ctx.calls
    pub ready : IsReady ctx'

  submit-Submits :
      (q : Request) (ctx : FileContext W) (i : ℕ) (pool : PoolAllocator)
      → IsReady ctx
      → IsText q.path
      → length q.path < 2 ^ 32
      → length (queued ctx) ≢ ctx.queue.capacity
      → PoolAllocator.alloc work_item_size ctx.pool ≡ some (slot_address ctx i, pool)
      → Takes ctx.pool pool i
      → (ctx' : FileContext W) × Submits q ctx i ctx'
  unfolding submit alloc_work_item_common push_item
  submit-Submits q ctx i pool ready text small room allocated takes =
      let p = slot_address ctx i in
      let (queue, pushes, holds, valid, same) = pushed ctx p ready.queue room in
      let other : (slot_address ctx i == 0) ≡ false = let ne = ready.not_null in ground arith in
      let here = update_self ctx.items p (requested q) in
      (
        record ctx {
          pool = pool;
          items =
              update (update ctx.items p (requested q)) p
                (q.fill (update ctx.items p (requested q) p));
          queue = queue;
          semaphore = if is_empty (queued ctx) then notify ctx.semaphore else ctx.semaphore;
        },
        record {
          answers =
              rw (allocated, init_work_item-requested q text small, other, pushes) (rw other refl);
          takes = takes;
          queue = holds;
          item =
              update_self (update ctx.items p (requested q)) p
                (q.fill (update ctx.items p (requested q) p))
              ∙ ap q.fill here;
          others = λ k ne.
              update_other (update ctx.items p (requested q)) p k
                (q.fill (update ctx.items p (requested q) p)) ne
              ∙ update_other ctx.items p k (requested q) ne;
          wakes = refl;
          calls = refl;
          ready = record {
            sound = ready.sound;
            pool = takes.valid;
            queue = valid;
            not_null = λ e. ready.not_null (sym takes.same_place.0 ∙ e);
          };
        },
      )

  -- In a ready context with a free slot and room in the queue, a request for a C string of fewer
  -- than 2 ^ 32 bytes takes the lowest free slot, fills its item with the normalised path and the
  -- request's fields, and queues it behind the items that are there. Nothing faults.
  pub submit-queued :
      (q : Request) (ctx : FileContext W) (i : ℕ)
      → IsReady ctx
      → IsText q.path
      → length q.path < 2 ^ 32
      → length (queued ctx) ≢ ctx.queue.capacity
      → PoolAllocator.Slots.free_slot ctx.pool i ≡ 1
      → (j : ℕ) × (ctx' : FileContext W) × Submits q ctx j ctx'
  submit-queued q ctx i ready text small room free =
      elim (alloc_lem work_item_size ctx.pool ready.pool) [
        | inl (same, all) ↦ absurd (omega (arith, all i, free))
        | inr (j, pool, allocated, takes) ↦
            let (ctx', submits) =
              submit-Submits q ctx j pool ready text small room allocated takes in
            (j, ctx', submits)
      ]
