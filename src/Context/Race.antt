-- ===== src/Context/Race.antt =====
-- The end of a turn in src/FileContext.cpp sets `_completed` under the lock, and reads `_callback`
-- after it has let go of the lock: what a client can do in between.
mod Tests
use lamina_fs.Prelude.{
  ℕ, ◌+◌, ◌*◌, ◌^◌, ◌<◌, true, false, ◌≡◌, ◌≢◌, refl, sym, ap, ◌∙◌, subst, Option, none, some, List,
  [], ◌∷◌, ◌++◌, length, ◌==◌, if◌then◌else◌, arith,
}
use lamina_fs.Types.{free_buffer, do_not_free_buffer}
use lamina_fs.Paths.Canonical.{IsText}
use lamina_fs.PoolAllocator.{PoolAllocator}
use lamina_fs.PoolAllocator.Slots.{free_slot}
use lamina_fs.PoolAllocator.Free.{Frees}
use lamina_fs.PoolAllocator.Alloc.{Takes}
use lamina_fs.WorkItem.{WorkItem, is_completed, free_item_buffer}
use lamina_fs.Context.{FileContext, Request, release_work_item, submit, finish_item}
use lamina_fs.Context.Turn.{IsReady, queued, slot_address}
use lamina_fs.Context.Submit.{requested}
use lamina_fs.Context.Finish.{release_freed, slot_not_null, finish-callback, after_callback, called}
use lamina_fs.Context.Queued.{Submits, submit-queued}
use lamina_fs.Context.System.Releasing.{release-internal}

kept_buffer :
    (item : WorkItem)
    → item.callback_buffer_action ≡ do_not_free_buffer
    → after_callback item ≡ some item
kept_buffer item e =
    ap
      (λ a. elim a as (λ b. Option WorkItem) [
        | free_buffer ↦ free_item_buffer item
        | do_not_free_buffer ↦ some item
      ])
      e

module _ {W : Type 0} where
  same_slot :
      (ctx : FileContext W) (i j : ℕ) (pool pool' : PoolAllocator)
      → ((k : ℕ) → k < i → free_slot ctx.pool k ≡ 0)
      → Frees ctx.pool pool i
      → Takes pool pool' j
      → j ≡ i
  same_slot ctx i j pool pool' lowest frees takes =
      ground (arith, frees.after i, frees.after j, takes.was_free, takes.lowest i, lowest j)

  -- In a ready context in which the thread has completed the item of slot `i`, which has no callback
  -- and below which no slot is free, and with room in the queue: a client may release the item, and
  -- request another operation, with a callback and a buffer that is not to be freed, for a C string
  -- of fewer than 2 ^ 32 bytes, before the thread comes to the end of the turn. The request gets slot
  -- `i`, and the end of the turn calls the new request's callback with the item that has not been
  -- processed, and frees the slot while it is queued.
  pub finish-early_release :
      (ctx : FileContext W) (i callback : ℕ) (q : Request)
      → IsReady ctx
      → i < ctx.pool.capacity
      → ((k : ℕ) → k < i → free_slot ctx.pool k ≡ 0)
      → length (queued ctx) ≢ ctx.queue.capacity
      → (ctx.items (slot_address ctx i)).callback ≡ none
      → is_completed (some (ctx.items (slot_address ctx i))) ≡ true
      → IsText q.path
      → length q.path < 2 ^ 32
      → (q.fill (requested q)).callback ≡ some callback
      → (q.fill (requested q)).callback_buffer_action ≡ do_not_free_buffer
      → (released : FileContext W) × (asked : FileContext W) × (ended : FileContext W)
        × (release_work_item (slot_address ctx i) ctx ≡ some released)
        × (submit q released ≡ some (slot_address ctx i, true, asked))
        × (finish_item (slot_address ctx i) asked ≡ some ended)
        × (ended.calls
            ≡ ctx.calls
              ++ ((callback, (q.fill (requested q)).callback_user_data, q.fill (requested q)) ∷ []))
        × (free_slot ended.pool i ≡ 1)
        × (queued ended ≡ queued ctx ++ (slot_address ctx i ∷ []))
  finish-early_release ctx i callback q ready inside lowest room plain complete text small call
        action =
      let p = slot_address ctx i in
      let (pool, freed, frees) = release_freed ctx i ready.pool ready.not_null inside in
      let released : FileContext W = record ctx { pool = pool } in
      let again : IsReady released = record {
        sound = ready.sound;
        pool = frees.valid;
        queue = ready.queue;
        not_null = λ e. ready.not_null (sym frees.same_place.0 ∙ e);
      } in
      let free : free_slot pool i ≡ 1 = ground (arith, frees.after i) in
      let (j, asked, submits) = submit-queued q released i again text small room free in
      let same = same_slot ctx i j pool asked.pool lowest frees submits.takes in
      let there : slot_address released j ≡ p =
        ap (λ a. a + j * 128) frees.same_place.0 ∙ ap (λ k. ctx.pool.storage + k * 128) same in
      let here : slot_address asked i ≡ p =
        ap (λ a. a + i * 128) (submits.takes.same_place.0 ∙ frees.same_place.0) in
      let item : asked.items (slot_address asked i) ≡ q.fill (requested q) =
        ap asked.items (here ∙ sym there) ∙ submits.item in
      let (last, finished, frees') =
        finish-callback asked i callback (asked.items (slot_address asked i)) submits.ready.pool
          submits.ready.not_null
          (subst (λ n. i < n) (sym (submits.takes.same_place.1 ∙ frees.same_place.1)) inside)
          (ap (λ (o : WorkItem). o.callback) item ∙ call)
          (kept_buffer (asked.items (slot_address asked i))
            (ap (λ (o : WorkItem). o.callback_buffer_action) item ∙ action)) in
      (
        released,
        asked,
        record (called asked (slot_address asked i) callback (asked.items (slot_address asked i))) {
          pool = last;
        },
        release-internal ctx p (slot_not_null ctx i ready) plain ∙ freed,
        submits.answers ∙ ap (λ a. some (a, true, asked)) there,
        ap (λ a. finish_item a asked) (sym here) ∙ finished,
        ap (λ (o : WorkItem). asked.calls ++ ((callback, o.callback_user_data, o) ∷ [])) item
            ∙ ap
                (λ cs.
                  cs
                  ++ ((callback, (q.fill (requested q)).callback_user_data, q.fill (requested q))
                      ∷ []))
                submits.calls,
        ground (arith, frees'.after i),
        submits.queue ∙ ap (λ a. queued ctx ++ (a ∷ [])) there,
      )
