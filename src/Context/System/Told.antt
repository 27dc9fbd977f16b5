-- ===== src/Context/System/Told.antt =====
-- What a turn of src/FileContext.cpp, `processingFunc`, performs, and the callback that it makes.
use lamina_fs.Prelude.{
  ℕ, ◌+◌, ◌<◌, true, ◌≡◌, ◌≢◌, refl, sym, ap, ◌∙◌, subst, Option, none, some, List, [], ◌∷◌, ◌++◌,
  append-nil, ◌==◌, if◌then◌else◌, arith, occurrences, inl, inr, Option-cases, Bool-cases,
}
use lamina_fs.PoolAllocator.Slots.{free_slot}
use lamina_fs.WorkItem.{WorkItem}
use lamina_fs.Processing.{perform}
use lamina_fs.Context.{FileContext}
use lamina_fs.Context.Turn.{queued, slot_address, Turns, PlainTurn, turn-plain}
use lamina_fs.Context.Finish.{slot_not_null}
use lamina_fs.Context.Callback.{CallbackTurn, turn-callback}
use lamina_fs.Context.System.{System, CanRun}
use lamina_fs.Context.System.Invariant.{owners, IsConsistent, occurrences-head}

-- The callback that a turn makes for an item, given what performing it has left of the item.
abbrev pub call_for : ℕ → Option ℕ → WorkItem → List (ℕ × ℕ × WorkItem)
call_for user_data none item = []
call_for user_data (some callback) item =
    (callback, user_data, record item { completed = true }) ∷ []

module _ {W : Type 0} where
  -- A turn that takes `p`: what it performs, and the callback that it makes.
  pub record Tells (ctx : FileContext W) (p : ℕ) (rest : List ℕ) : Type 0 where
    pub after : FileContext W
    pub item : WorkItem
    pub performs : perform ctx.mounts (ctx.items p) ctx.world ≡ some (item, after.world)
    pub turns : Turns ctx p rest after
    pub calls :
        after.calls
        ≡ ctx.calls ++ call_for (ctx.items p).callback_user_data (ctx.items p).callback item
    pub leaves : (ctx.items p).callback ≡ none → after.items p ≡ record item { completed = true }

  plain-Tells :
      (ctx : FileContext W) (p : ℕ) (rest : List ℕ) (item : WorkItem) (w : W)
      → (ctx.items p).callback ≡ none
      → perform ctx.mounts (ctx.items p) ctx.world ≡ some (item, w)
      → PlainTurn ctx p rest item w
      → Tells ctx p rest
  plain-Tells ctx p rest item w plain performs
        (ctx', turns, done, world, same, calls, notified, keeps) =
      record {
        after = ctx';
        item = item;
        performs = performs ∙ ap (λ v. some (item, v)) (sym world);
        turns = turns;
        calls =
            calls
            ∙ sym (append-nil ctx.calls)
            ∙ ap (λ o. ctx.calls ++ call_for (ctx.items p).callback_user_data o item) (sym plain);
        leaves = λ e. done;
      }

  callback-Tells :
      (ctx : FileContext W) (i callback : ℕ) (rest : List ℕ) (item : WorkItem) (w : W)
      → (ctx.items (slot_address ctx i)).callback ≡ some callback
      → perform ctx.mounts (ctx.items (slot_address ctx i)) ctx.world ≡ some (item, w)
      → CallbackTurn ctx i callback rest item w
      → Tells ctx (slot_address ctx i) rest
  callback-Tells ctx i callback rest item w call performs
        (ctx', turns, calls, world, keeps, frees) =
      record {
        after = ctx';
        item = item;
        performs = performs ∙ ap (λ v. some (item, v)) (sym world);
        turns = turns;
        calls =
            calls
            ∙ ap
                (λ o.
                  ctx.calls ++ call_for (ctx.items (slot_address ctx i)).callback_user_data o item)
                (sym call);
        leaves = λ e. let none_there : some callback ≡ none = sym call ∙ e in cc;
      }

  pub Turn-Tells :
      (s : System W) (p : ℕ) (rest : List ℕ)
      → IsConsistent s
      → queued s.ctx ≡ p ∷ rest
      → CanRun (s.ctx.items p)
      → Tells s.ctx p rest
  Turn-Tells s p rest h e can =
      let front : 0 < occurrences p (queued s.ctx) = rw e (occurrences-head p rest) in
      let (i, at, inside) = h.owned p (omega arith) in
      elim (Option-cases (s.ctx.items p).callback) [
        | inl plain ↦
            let not_null : p ≢ 0 = λ null. slot_not_null s.ctx i h.ready (sym at ∙ null) in
            let (item, w, performs, turned) =
              turn-plain s.ctx p rest h.ready e not_null can.no_segment plain in
            plain-Tells s.ctx p rest item w plain performs turned
        | inr (callback, call) ↦
            let able : CanRun (s.ctx.items (slot_address s.ctx i)) =
              subst (λ a. CanRun (s.ctx.items a)) at can in
            let call' : (s.ctx.items (slot_address s.ctx i)).callback ≡ some callback =
              subst (λ a. (s.ctx.items a).callback ≡ some callback) at call in
            let (item, w, performs, turned) =
              turn-callback s.ctx i callback rest h.ready inside (e ∙ ap (λ a. a ∷ rest) at)
                able.no_segment call' able.freeable in
            subst (λ a. Tells s.ctx a rest) (sym at)
              (callback-Tells s.ctx i callback rest item w call' performs turned)
      ]

  pub alone :
      (s : System W) (p : ℕ) (rest : List ℕ)
      → IsConsistent s
      → queued s.ctx ≡ p ∷ rest
      → (q : ℕ) → 0 < occurrences q rest
      → q ≢ p
  alone s p rest h e q lt same =
      let lt' : 0 < occurrences p rest = subst (λ a. 0 < occurrences a rest) same lt in
      let front : occurrences p (queued s.ctx) ≡ (if p == p then 1 else 0) + occurrences p rest =
        ap (occurrences p) e in
      let (i, at, inside) = h.owned p (ground arith) in
      let once =
        subst (λ a. free_slot s.ctx.pool i + owners s a ≡ 1) (sym at) (h.accounts i inside) in
      ground arith

  pub not_again :
      (s : System W) (p : ℕ) (rest : List ℕ)
      → IsConsistent s
      → queued s.ctx ≡ p ∷ rest
      → occurrences p rest ≡ 0
  not_again s p rest h e = elim (Bool-cases (occurrences p rest == 0)) [
    | inl none_there ↦ ground arith
    | inr some_there ↦ absurd (alone s p rest h e p (ground arith) refl)
  ]
