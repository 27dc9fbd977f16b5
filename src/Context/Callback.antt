-- ===== src/Context/Callback.antt =====
-- A turn of the processing thread that calls a callback.
use lamina_fs.Prelude.{
  ℕ, ◌<◌, true, ◌≡◌, ◌≢◌, refl, sym, ap, ◌∙◌, none, some, Option-cases, inl, inr, List, [], ◌∷◌,
  ◌++◌, ◌>>=◌,
}
use lamina_fs.Types.{write_segment, free_buffer}
use lamina_fs.PoolAllocator.Free.{Frees}
use lamina_fs.WorkItem.{WorkItem}
use lamina_fs.Mounts.{is_some}
use lamina_fs.Processing.{perform}
use lamina_fs.Processing.Keeps.{Keeps, perform-Keeps}
use lamina_fs.Context.{FileContext, update, turn}
use lamina_fs.Context.Turn.{
  IsReady, queued, slot_address, update_self, update_other, pop_item, processed, turn-finish,
  performed, turn-performs, Turns,
}
use lamina_fs.Context.Finish.{
  after_callback, after_callback-some, called, finish-callback, freed-not_null, finish-faults,
  slot_not_null,
}

module _ {W : Type 0} where
  -- What a turn leaves that takes an item with a callback, once performing it gives `item`.
  abbrev pub CallbackTurn : FileContext W → ℕ → ℕ → List ℕ → WorkItem → W → Type 0
  CallbackTurn ctx i callback rest item w =
      (ctx' : FileContext W) × Turns ctx (slot_address ctx i) rest ctx'
      × (ctx'.calls
          ≡ ctx.calls
            ++ ((
              callback,
              (ctx.items (slot_address ctx i)).callback_user_data,
              record item { completed = true },
            )
                ∷ []))
      × (ctx'.world ≡ w)
      × Keeps (ctx.items (slot_address ctx i)) item
      × Frees ctx.pool ctx'.pool i

  performed_freed :
      (ctx : FileContext W) (i callback : ℕ) (rest : List ℕ) (item : WorkItem) (w : W)
      (item' : WorkItem)
      → IsReady ctx
      → i < ctx.pool.capacity
      → queued ctx ≡ slot_address ctx i ∷ rest
      → perform ctx.mounts (ctx.items (slot_address ctx i)) ctx.world ≡ some (item, w)
      → (ctx.items (slot_address ctx i)).callback ≡ some callback
      → after_callback (record item { completed = true }) ≡ some item'
      → CallbackTurn ctx i callback rest item w
  performed_freed ctx i callback rest item w item' ready lt e performs call after =
      let p = slot_address ctx i in
      let (q, popped, holds, valid, same) = pop_item ctx p rest ready e in
      let keeps = perform-Keeps (ctx.items p) ctx.mounts ctx.world (item, w) performs in
      let done = record item { completed = true } in
      let here : update ctx.items p done p ≡ done = update_self ctx.items p done in
      let (pool, finishes, frees) =
        finish-callback (processed ctx p q item w) i callback item' ready.pool ready.not_null lt
          (ap (λ j. j.callback) here ∙ keeps.callback ∙ call) (ap after_callback here ∙ after) in
      (
        record (called (processed ctx p q item w) p callback item') { pool = pool },
        record {
          takes =
              turn-finish ctx p q item w (slot_not_null ctx i ready) popped performs
              ∙ ap (λ o. o >>= λ c. some (true, c)) finishes;
          queue = holds;
          ready = record {
            sound = ready.sound;
            pool = frees.valid;
            queue = valid;
            not_null = freed-not_null ctx i pool ready.not_null frees;
          };
          others = λ k other.
              update_other (update ctx.items p done) p k item' other
              ∙ update_other ctx.items p k done other;
          interfaces = refl;
          mounts = refl;
          same_room = same;
          same_slots = frees.same_place;
        },
        ap (λ j. ctx.calls ++ ((callback, j.callback_user_data, j) ∷ [])) here
            ∙ ap (λ u. ctx.calls ++ ((callback, u, done) ∷ [])) keeps.user_data,
        refl,
        keeps,
        frees,
      )

  pub performed_callback :
      (ctx : FileContext W) (i callback : ℕ) (rest : List ℕ) (item : WorkItem) (w : W)
      → IsReady ctx
      → i < ctx.pool.capacity
      → queued ctx ≡ slot_address ctx i ∷ rest
      → perform ctx.mounts (ctx.items (slot_address ctx i)) ctx.world ≡ some (item, w)
      → (ctx.items (slot_address ctx i)).callback ≡ some callback
      → ((ctx.items (slot_address ctx i)).callback_buffer_action ≡ free_buffer
          → is_some (ctx.items (slot_address ctx i)).allocator ≡ true)
      → CallbackTurn ctx i callback rest item w
  performed_callback ctx i callback rest item w ready lt e performs call able =
      let keeps =
        perform-Keeps (ctx.items (slot_address ctx i)) ctx.mounts ctx.world (item, w) performs in
      let (item', after) =
        after_callback-some (record item { completed = true })
          (λ f. ap is_some keeps.allocator ∙ able (sym keeps.action ∙ f)) in
      performed_freed ctx i callback rest item w item' ready lt e performs call after

  -- A turn that has taken an item with a callback has performed it and freed what was to be freed.
  pub turned-CallbackTurn :
      (ctx ctx' : FileContext W) (i callback : ℕ) (rest : List ℕ)
      → IsReady ctx
      → i < ctx.pool.capacity
      → queued ctx ≡ slot_address ctx i ∷ rest
      → (ctx.items (slot_address ctx i)).callback ≡ some callback
      → turn ctx ≡ some (true, ctx')
      → (item : WorkItem) × (w : W) × CallbackTurn ctx i callback rest item w
  turned-CallbackTurn ctx ctx' i callback rest ready lt e call t =
      let p = slot_address ctx i in
      let ne = slot_not_null ctx i ready in
      let ((item, w), performs) = turn-performs ctx ctx' p rest ready e ne t in
      let (q, popped, holds, valid, same) = pop_item ctx p rest ready e in
      let keeps = perform-Keeps (ctx.items p) ctx.mounts ctx.world (item, w) performs in
      let done = record item { completed = true } in
      let here : update ctx.items p done p ≡ done = update_self ctx.items p done in
      elim (Option-cases (after_callback done)) [
        | inl f ↦
            let faults : turn ctx ≡ none =
              turn-finish ctx p q item w ne popped performs
              ∙ ap (λ o. o >>= λ c. some (true, c))
                  (finish-faults (processed ctx p q item w) p callback
                    (ap (λ j. j.callback) here ∙ keeps.callback ∙ call)
                    (ap after_callback here ∙ f)) in
            cc
        | inr (item', after) ↦ (
          item,
          w,
          performed_freed ctx i callback rest item w item' ready lt e performs call after,
        )
      ]

  -- In a ready context, a turn that takes an item with a callback, whose operation is not
  -- `LFS_OP_WRITE_SEGMENT` and which has an allocator if its buffer is to be freed, performs the
  -- operation, which leaves the devices as the turn does; it calls the callback once, with what
  -- performing the item gives, completed, and frees the item's slot and no other.
  pub turn-callback :
      (ctx : FileContext W) (i callback : ℕ) (rest : List ℕ)
      → IsReady ctx
      → i < ctx.pool.capacity
      → queued ctx ≡ slot_address ctx i ∷ rest
      → (ctx.items (slot_address ctx i)).operation ≢ write_segment
      → (ctx.items (slot_address ctx i)).callback ≡ some callback
      → ((ctx.items (slot_address ctx i)).callback_buffer_action ≡ free_buffer
          → is_some (ctx.items (slot_address ctx i)).allocator ≡ true)
      → (item : WorkItem) × (w : W) × (perform ctx.mounts (ctx.items (slot_address ctx i)) ctx.world
          ≡ some (item, w))
        × CallbackTurn ctx i callback rest item w
  turn-callback ctx i callback rest ready lt e op call able =
      let ((item, w), performs) = performed ctx (slot_address ctx i) ready op in
      (
        item,
        w,
        performs,
        performed_callback ctx i callback rest item w ready lt e performs call able,
      )
