-- ===== src/Context/Finish.antt =====
-- The end of a turn that has an item with a callback, in `processingFunc` of src/FileContext.cpp.
use lamina_fs.Prelude.{
  ℕ, ◌+◌, ◌*◌, ◌<◌, true, false, ◌≡◌, ◌≢◌, refl, sym, ap, ◌∙◌, Option, none, some, Option-cases,
  inl, inr, [], ◌∷◌, ◌++◌, ◌==◌, arith, ◌>>=◌,
}
use lamina_fs.Types.{BufferAction, free_buffer, do_not_free_buffer}
use lamina_fs.PoolAllocator
use lamina_fs.PoolAllocator.{PoolAllocator}
use lamina_fs.PoolAllocator.Slots
use lamina_fs.PoolAllocator.Free.{Frees, free_lem}
use lamina_fs.WorkItem.{WorkItem, free_item_buffer}
use lamina_fs.Mounts.{is_some}
use lamina_fs.Context.{FileContext, work_item_size, update, release_work_item_internal, finish_item}
use lamina_fs.Context.Turn.{IsReady, slot_address}

-- The buffer is freed where the request says so.
abbrev pub after_callback : WorkItem → Option WorkItem
after_callback item = elim item.callback_buffer_action [
  | free_buffer ↦ free_item_buffer item
  | do_not_free_buffer ↦ some item
]

pub after_callback-some :
    (item : WorkItem)
    → (item.callback_buffer_action ≡ free_buffer → is_some item.allocator ≡ true)
    → (item' : WorkItem) × (after_callback item ≡ some item')
unfolding free_item_buffer
after_callback-some item h = elim (Option-cases (after_callback item)) [
  | inl e ↦ absurd (ground (arith, e, returns item.callback_buffer_action refl))
  | inr found ↦ found
]
  where
    returns :
        (a : BufferAction) → item.callback_buffer_action ≡ a → is_some (after_callback item) ≡ true
    returns do_not_free_buffer e = rw e refl
    returns free_buffer e = elim (Option-cases item.buffer) [
      | inl b ↦ rw (e, b) refl
      | inr (bytes, b) ↦ elim (Option-cases item.allocator) [
        | inl a ↦ absurd (ground (arith, h e))
        | inr (alloc, a) ↦ rw (e, b, a) refl
      ]
    ]

module _ {W : Type 0} where
  -- The slot of a freed item, as the context's pool sees it.
  pub release_freed :
      (ctx : FileContext W) (i : ℕ)
      → PoolAllocator.Slots.IsValid ctx.pool
      → ctx.pool.storage ≢ 0
      → i < ctx.pool.capacity
      → (pool : PoolAllocator) × (release_work_item_internal (slot_address ctx i) ctx
          ≡ some (record ctx { pool = pool }))
        × Frees ctx.pool pool i
  unfolding release_work_item_internal
  release_freed ctx i valid ne lt =
      let (pool, freed, frees) = free_lem work_item_size ctx.pool valid i 0 lt (omega arith) ne in
      let at : ctx.pool.storage + i * work_item_size + 0 ≡ slot_address ctx i = omega arith in
      let freed' : PoolAllocator.free work_item_size (slot_address ctx i) ctx.pool ≡ some pool =
        rw at at freed in
      let other : (slot_address ctx i == 0) ≡ false = ground arith in
      (pool, rw (freed', other) refl, frees)

  -- The context when the callback has been called and the buffer freed.
  abbrev pub called : FileContext W → ℕ → ℕ → WorkItem → FileContext W
  called ctx p callback item' = record ctx {
    calls = ctx.calls ++ ((callback, (ctx.items p).callback_user_data, ctx.items p) ∷ []);
    items = update ctx.items p item';
  }

  abbrev by_callback : FileContext W → ℕ → Option ℕ → Option (FileContext W)
  by_callback ctx p o = elim o [
    | none ↦ some (record ctx { notified = ctx.notified + 1 })
    | some callback ↦ after_callback (ctx.items p) >>= λ item'.
        release_work_item_internal p (called ctx p callback item')
  ]

  finish_item-by_callback :
      (ctx : FileContext W) (p : ℕ) → finish_item p ctx ≡ by_callback ctx p (ctx.items p).callback
  unfolding finish_item
  finish_item-by_callback ctx p = refl

  finish-called :
      (ctx : FileContext W) (p callback : ℕ) (item' : WorkItem)
      → (ctx.items p).callback ≡ some callback
      → after_callback (ctx.items p) ≡ some item'
      → finish_item p ctx ≡ release_work_item_internal p (called ctx p callback item')
  finish-called ctx p callback item' e after =
      finish_item-by_callback ctx p
      ∙ ap (by_callback ctx p) e
      ∙ ap (λ o. o >>= λ i. release_work_item_internal p (called ctx p callback i)) after

  pub finish-callback :
      (ctx : FileContext W) (i callback : ℕ) (item' : WorkItem)
      → PoolAllocator.Slots.IsValid ctx.pool
      → ctx.pool.storage ≢ 0
      → i < ctx.pool.capacity
      → (ctx.items (slot_address ctx i)).callback ≡ some callback
      → after_callback (ctx.items (slot_address ctx i)) ≡ some item'
      → (pool : PoolAllocator) × (finish_item (slot_address ctx i) ctx
          ≡ some (record ctx {
            calls =
                ctx.calls
                ++ ((
                  callback,
                  (ctx.items (slot_address ctx i)).callback_user_data,
                  ctx.items (slot_address ctx i),
                )
                    ∷ []);
            items = update ctx.items (slot_address ctx i) item';
            pool = pool;
          }))
        × Frees ctx.pool pool i
  finish-callback ctx i callback item' valid ne lt e after =
      let p = slot_address ctx i in
      let (pool, released, frees) = release_freed (called ctx p callback item') i valid ne lt in
      (pool, finish-called ctx p callback item' e after ∙ released, frees)

  pub freed-not_null :
      (ctx : FileContext W) (i : ℕ) (pool : PoolAllocator)
      → ctx.pool.storage ≢ 0
      → Frees ctx.pool pool i
      → pool.storage ≢ 0
  freed-not_null ctx i pool ne frees = λ e. ne (sym frees.same_place.0 ∙ e)

  pub slot_not_null : (ctx : FileContext W) (i : ℕ) → IsReady ctx → slot_address ctx i ≢ 0
  slot_not_null ctx i ready = λ e. ready.not_null (omega arith)

  pub finish-faults :
      (ctx : FileContext W) (p callback : ℕ)
      → (ctx.items p).callback ≡ some callback
      → after_callback (ctx.items p) ≡ none
      → finish_item p ctx ≡ none
  finish-faults ctx p callback e after =
      finish_item-by_callback ctx p
      ∙ ap (by_callback ctx p) e
      ∙ ap (λ o. o >>= λ i. release_work_item_internal p (called ctx p callback i)) after
