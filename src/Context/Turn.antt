-- ===== src/Context/Turn.antt =====
-- One turn of the processing thread, `FileContext::processingFunc`.
use lamina_fs.Prelude.{
  ℕ, ◌+◌, ◌*◌, true, false, ◌≡◌, ◌≢◌, refl, ◌∙◌, none, some, Option-cases, inl, inr, List, [], ◌∷◌,
  ◌==◌, arith, ◌>>=◌,
}
use lamina_fs.Types.{write_segment}
use lamina_fs.PoolAllocator
use lamina_fs.PoolAllocator.{PoolAllocator}
use lamina_fs.PoolAllocator.Slots
use lamina_fs.RingBuffer
use lamina_fs.RingBuffer.Queue
use lamina_fs.RingBuffer.Bounds
use lamina_fs.RingBuffer.Contents.{contents}
use lamina_fs.RingBuffer.Refine.{pop_refines}
use lamina_fs.WorkItem.{WorkItem}
use lamina_fs.Mounts.Sound.{AreSound}
use lamina_fs.Processing.{perform}
use lamina_fs.Processing.Safety.{perform-safe}
use lamina_fs.Processing.Keeps.{Keeps, perform-Keeps}
use lamina_fs.Context.{FileContext, work_item_size, update, finish_item, turn}

pub update_self : (items : ℕ → WorkItem) (p : ℕ) (item : WorkItem) → update items p item p ≡ item
update_self items p item = let same : (p == p) ≡ true = ground arith in rw same refl

pub update_other :
    (items : ℕ → WorkItem) (p q : ℕ) (item : WorkItem) → q ≢ p → update items p item q ≡ items q
update_other items p q item ne = let other : (p == q) ≡ false = ground arith in rw other refl

module _ {W : Type 0} where
  -- What the thread relies on: the mounts are sound, and the pool and the queue are valid.
  pub record IsReady (ctx : FileContext W) : Type 0 where
    pub sound : AreSound ctx.mounts
    pub pool : PoolAllocator.Slots.IsValid ctx.pool
    pub queue : RingBuffer.Bounds.IsValid ctx.queue
    pub not_null : ctx.pool.storage ≢ 0

  -- The addresses that the queue holds, the next one first.
  abbrev pub queued : FileContext W → List ℕ
  queued ctx = contents 0 ctx.queue

  abbrev pub slot_address : FileContext W → ℕ → ℕ
  slot_address ctx i = ctx.pool.storage + i * work_item_size

  pub idle_turn :
      (ctx : FileContext W)
      → IsReady ctx
      → queued ctx ≡ []
      → (queue : RingBuffer.RingBuffer ℕ) × (turn ctx ≡ some (false, record ctx { queue = queue }))
        × (contents 0 queue ≡ [])
        × RingBuffer.Bounds.IsValid queue
  unfolding turn Queue.pop
  idle_turn ctx ready empty =
      let (q, popped, holds, valid, same) = pop_refines 0 0 ctx.queue ready.queue in
      let none_popped : RingBuffer.pop 0 ctx.queue ≡ some (0, q) = rw empty at popped in
      (q, rw (none_popped, turn) refl, rw holds (rw empty refl), valid)

  -- In a ready context, a turn that finds the queue empty leaves it empty, changes nothing else,
  -- and sends the thread to wait.
  pub turn-idle :
      (ctx : FileContext W)
      → IsReady ctx
      → queued ctx ≡ []
      → (queue : RingBuffer.RingBuffer ℕ) × (turn ctx ≡ some (false, record ctx { queue = queue }))
        × (contents 0 queue ≡ [])
  turn-idle ctx ready empty =
      let (q, idles, holds, valid) = idle_turn ctx ready empty in (q, idles, holds)

  pub pop_item :
      (ctx : FileContext W) (p : ℕ) (rest : List ℕ)
      → IsReady ctx
      → queued ctx ≡ p ∷ rest
      → (queue : RingBuffer.RingBuffer ℕ) × (RingBuffer.pop 0 ctx.queue ≡ some (p, queue))
        × (contents 0 queue ≡ rest)
        × RingBuffer.Bounds.IsValid queue
        × (queue.capacity ≡ ctx.queue.capacity)
  unfolding Queue.pop
  pop_item ctx p rest ready e =
      let (q, popped, holds, valid, same) = pop_refines 0 0 ctx.queue ready.queue in
      (q, rw e at popped, rw e at holds, valid, same)

  -- The context when the item at `p` has been processed.
  abbrev pub processed : FileContext W → ℕ → RingBuffer.RingBuffer ℕ → WorkItem → W → FileContext W
  processed ctx p queue item w = record ctx {
    queue = queue;
    items = update ctx.items p (record item { completed = true });
    world = w;
  }

  pub turn-finish :
      (ctx : FileContext W) (p : ℕ) (queue : RingBuffer.RingBuffer ℕ) (item : WorkItem) (w : W)
      → p ≢ 0
      → RingBuffer.pop 0 ctx.queue ≡ some (p, queue)
      → perform ctx.mounts (ctx.items p) ctx.world ≡ some (item, w)
      → turn ctx ≡ (finish_item p (processed ctx p queue item w) >>= λ ctx'. some (true, ctx'))
  unfolding turn
  turn-finish ctx p queue item w ne popped done =
      let other : (p == 0) ≡ false = ground arith in rw (popped, turn) (rw (done, other) refl)

  finish-plain :
      (ctx : FileContext W) (p : ℕ)
      → (ctx.items p).callback ≡ none
      → finish_item p ctx ≡ some (record ctx { notified = ctx.notified + 1 })
  unfolding finish_item
  finish-plain ctx p e = rw (e, finish_item) refl

  -- What a turn that has taken an item does whatever the item.
  pub record Turns (ctx : FileContext W) (p : ℕ) (rest : List ℕ) (ctx' : FileContext W)
      : Type 0 where
    pub takes : turn ctx ≡ some (true, ctx')
    pub queue : queued ctx' ≡ rest
    pub ready : IsReady ctx'
    pub others : (q : ℕ) → q ≢ p → ctx'.items q ≡ ctx.items q
    pub interfaces : ctx'.interfaces ≡ ctx.interfaces
    pub mounts : ctx'.mounts ≡ ctx.mounts
    pub same_room : ctx'.queue.capacity ≡ ctx.queue.capacity
    pub same_slots :
        (ctx'.pool.storage ≡ ctx.pool.storage) × (ctx'.pool.capacity ≡ ctx.pool.capacity)

  pub performed :
      (ctx : FileContext W) (p : ℕ)
      → IsReady ctx
      → (ctx.items p).operation ≢ write_segment
      → (r : WorkItem × W) × (perform ctx.mounts (ctx.items p) ctx.world ≡ some r)
  performed ctx p ready ne = elim (Option-cases (perform ctx.mounts (ctx.items p) ctx.world)) [
    | inl e ↦
        let safe = perform-safe ctx.mounts (ctx.items p) ctx.world ready.sound ne in
        absurd (ground (arith, rw e at safe))
    | inr (r, e) ↦ (r, e)
  ]

  -- A turn whose item cannot be performed is one that faults.
  pub turn-performs :
      (ctx ctx' : FileContext W) (p : ℕ) (rest : List ℕ)
      → IsReady ctx
      → queued ctx ≡ p ∷ rest
      → p ≢ 0
      → turn ctx ≡ some (true, ctx')
      → (r : WorkItem × W) × (perform ctx.mounts (ctx.items p) ctx.world ≡ some r)
  unfolding turn
  turn-performs ctx ctx' p rest ready e ne t =
      let (q, popped, holds, valid, same) = pop_item ctx p rest ready e in
      let other : (p == 0) ≡ false = ground arith in
      elim (Option-cases (perform ctx.mounts (ctx.items p) ctx.world)) [
        | inl f ↦ let faults : turn ctx ≡ none = rw (popped, turn) (rw (f, other) refl) in cc
        | inr found ↦ found
      ]

  -- What a turn leaves that takes an item without a callback, once performing it gives `item`.
  abbrev pub PlainTurn : FileContext W → ℕ → List ℕ → WorkItem → W → Type 0
  PlainTurn ctx p rest item w =
      (ctx' : FileContext W) × Turns ctx p rest ctx'
      × (ctx'.items p ≡ record item { completed = true })
      × (ctx'.world ≡ w)
      × (ctx'.pool ≡ ctx.pool)
      × (ctx'.calls ≡ ctx.calls)
      × (ctx'.notified ≡ ctx.notified + 1)
      × Keeps (ctx.items p) item

  pub performed_plain :
      (ctx : FileContext W) (p : ℕ) (rest : List ℕ) (item : WorkItem) (w : W)
      → IsReady ctx
      → queued ctx ≡ p ∷ rest
      → p ≢ 0
      → perform ctx.mounts (ctx.items p) ctx.world ≡ some (item, w)
      → (ctx.items p).callback ≡ none
      → PlainTurn ctx p rest item w
  performed_plain ctx p rest item w ready e ne done plain =
      let (q, popped, holds, valid, same) = pop_item ctx p rest ready e in
      let keeps = perform-Keeps (ctx.items p) ctx.mounts ctx.world (item, w) done in
      let here = update_self ctx.items p (record item { completed = true }) in
      let none_there : (update ctx.items p (record item { completed = true }) p).callback ≡ none =
        rw here (keeps.callback ∙ plain) in
      (
        record (processed ctx p q item w) { notified = ctx.notified + 1 },
        record {
          takes =
              turn-finish ctx p q item w ne popped done
              ∙ rw (finish-plain (processed ctx p q item w) p none_there) refl;
          queue = holds;
          ready = record {
            sound = ready.sound;
            pool = ready.pool;
            queue = valid;
            not_null = ready.not_null;
          };
          others = λ k. update_other ctx.items p k (record item { completed = true });
          interfaces = refl;
          mounts = refl;
          same_room = same;
          same_slots = (refl, refl);
        },
        here,
        refl,
        refl,
        refl,
        refl,
        keeps,
      )

  -- In a ready context, a turn that takes an item without a callback, whose operation is not
  -- `LFS_OP_WRITE_SEGMENT`, performs the operation: the item becomes what performing it gives, and
  -- completed, and the devices what it leaves of them. The turn notifies the clients that wait, and
  -- leaves the pool and the other items as they are.
  pub turn-plain :
      (ctx : FileContext W) (p : ℕ) (rest : List ℕ)
      → IsReady ctx
      → queued ctx ≡ p ∷ rest
      → p ≢ 0
      → (ctx.items p).operation ≢ write_segment
      → (ctx.items p).callback ≡ none
      → (item : WorkItem) × (w : W) × (perform ctx.mounts (ctx.items p) ctx.world ≡ some (item, w))
        × PlainTurn ctx p rest item w
  turn-plain ctx p rest ready e ne op plain =
      let ((item, w), done) = performed ctx p ready op in
      (item, w, done, performed_plain ctx p rest item w ready e ne done plain)
