-- ===== src/Context/System/Turning.antt =====
-- The thread takes the next item, or goes to wait.
use lamina_fs.Prelude.{
  ℕ, ◌+◌, ◌*◌, ◌<◌, ◌≤◌, true, false, ◌≡◌, ◌≢◌, refl, sym, ap, ◌∙◌, subst, Option, none, some, List,
  [], ◌∷◌, ◌++◌, ◌==◌, if◌then◌else◌, arith, occurrences, Bool-cases, inl, inr, append_assoc,
  Option-cases,
}
use lamina_fs.PoolAllocator.Slots.{free_slot}
use lamina_fs.Mounts.Sound.{AllRegistered}
use lamina_fs.WorkItem.{WorkItem}
use lamina_fs.Context.{FileContext, turn}
use lamina_fs.Context.Turn.{queued, slot_address, idle_turn, Turns, turn-performs, performed_plain}
use lamina_fs.Context.Finish.{slot_not_null}
use lamina_fs.Context.Callback.{turned-CallbackTurn}
use lamina_fs.Context.System.{System, hand_back}
use lamina_fs.Context.System.Invariant.{owners, IsConsistent, slot_address-==, occurrences-head}
use lamina_fs.Context.System.Queueing.{requeued-IsConsistent}

module _ {W : Type 0} where
  -- The system when the thread has taken `p` and `held` are the clients' items.
  abbrev turned : System W → ℕ → FileContext W → List ℕ → System W
  turned s p ctx held = record s { ctx = ctx; held = held; taken = s.taken ++ (p ∷ []) }

  module _ (s : System W) (p : ℕ) (rest : List ℕ) (ctx : FileContext W) (held : List ℕ)
      (h : IsConsistent s) (e : queued s.ctx ≡ p ∷ rest) (turns : Turns s.ctx p rest ctx)
      (moves : (k : ℕ)
        → k < s.ctx.pool.capacity
        → free_slot ctx.pool k + occurrences (slot_address s.ctx k) held
          ≡ free_slot s.ctx.pool k
            + occurrences (slot_address s.ctx k) s.held
            + (if p == slot_address s.ctx k then 1 else 0))
      (bounded : (k : ℕ) → occurrences k held ≤ occurrences k s.held + (if p == k then 1 else 0))
      (done : 0 < occurrences p held
        → ((ctx.items p).callback ≡ none) × ((ctx.items p).completed ≡ true)) where
    slots : (k : ℕ) → slot_address ctx k ≡ slot_address s.ctx k
    slots k = ap (λ a. a + k * 128) turns.same_slots.0

    queue_counts :
        (k : ℕ)
        → occurrences k (queued s.ctx) ≡ (if p == k then 1 else 0) + occurrences k (queued ctx)
    queue_counts k =
        ap (occurrences k) e
        ∙ ap (λ n. (if p == k then 1 else 0) + n) (ap (occurrences k) (sym turns.queue))

    turned-accounts :
        (k : ℕ)
        → k < s.ctx.pool.capacity
        → free_slot ctx.pool k + owners (turned s p ctx held) (slot_address s.ctx k) ≡ 1
    turned-accounts k lt =
        omega (arith, moves k lt, h.accounts k lt, queue_counts (slot_address s.ctx k))

    turned-owned :
        (k : ℕ)
        → 0 < owners (turned s p ctx held) k
        → (i : ℕ) × (k ≡ slot_address s.ctx i) × (i < s.ctx.pool.capacity)
    turned-owned k lt = h.owned k (omega (arith, bounded k, queue_counts k))

    not_taken : (k : ℕ) → 0 < occurrences k s.pending + occurrences k (queued ctx) → k ≢ p
    not_taken k lt same =
        let here : (p == k) ≡ true = ground arith in
        let (i, at, inside) = h.owned k (omega (arith, queue_counts k)) in
        let once =
          subst (λ a. free_slot s.ctx.pool i + owners s a ≡ 1) (sym at) (h.accounts i inside) in
        ground (arith, queue_counts k, once)

    turned-waiting :
        (k : ℕ)
        → 0 < occurrences k s.pending + occurrences k (queued ctx)
        → (ctx.items k).completed ≡ false
    turned-waiting k lt =
        ap (λ (j : WorkItem). j.completed) (turns.others k (not_taken k lt))
        ∙ h.waiting k (omega (arith, queue_counts k))

    turned-finished :
        (k : ℕ)
        → 0 < occurrences k held
        → ((ctx.items k).callback ≡ none) × ((ctx.items k).completed ≡ true)
    turned-finished k lt = elim (Bool-cases (p == k)) [
      | inl same ↦
          let here : p ≡ k = ground arith in
          subst (λ a. ((ctx.items a).callback ≡ none) × ((ctx.items a).completed ≡ true)) here
            (done (subst (λ a. 0 < occurrences a held) (sym here) lt))
      | inr other ↦
          subst (λ item. (item.callback ≡ none) × (item.completed ≡ true))
            (sym (turns.others k (ground arith))) (h.finished k (ground (arith, bounded k)))
    ]

    turned-IsConsistent : IsConsistent (turned s p ctx held)
    turned-IsConsistent = record {
      ready = turns.ready;
      registered = subst AllRegistered (sym turns.interfaces) h.registered;
      accounts = λ k lt.
          subst (λ a. free_slot ctx.pool k + owners (turned s p ctx held) a ≡ 1) (sym (slots k))
            (turned-accounts k (subst (λ n. k < n) turns.same_slots.1 lt));
      owned = λ k lt.
          let (i, at, inside) = turned-owned k lt in
          (i, at ∙ sym (slots i), subst (λ n. i < n) (sym turns.same_slots.1) inside);
      waiting = turned-waiting;
      finished = turned-finished;
      order =
          h.order
          ∙ ap (λ xs. s.taken ++ xs) (e ∙ ap (λ xs. p ∷ xs) (sym turns.queue))
          ∙ sym (append_assoc s.taken (p ∷ []) (queued ctx));
    }

  plain_turn-IsConsistent :
      (s : System W) (p : ℕ) (rest : List ℕ) (ctx : FileContext W)
      → IsConsistent s
      → queued s.ctx ≡ p ∷ rest
      → turn s.ctx ≡ some (true, ctx)
      → p ≢ 0
      → (s.ctx.items p).callback ≡ none
      → IsConsistent (turned s p ctx (p ∷ s.held))
  plain_turn-IsConsistent s p rest ctx h e t ne plain =
      let ((item, w), performs) = turn-performs s.ctx ctx p rest h.ready e ne t in
      let (ctx', turns, done, world, same, calls, notified, keeps) =
        performed_plain s.ctx p rest item w h.ready e ne performs plain in
      let there : ctx' ≡ ctx = let answer = turns.takes in cc in
      subst (λ c. IsConsistent (turned s p c (p ∷ s.held))) there
        (turned-IsConsistent s p rest ctx' (p ∷ s.held) h e turns
          (λ k lt. omega (arith, ap (λ q. free_slot q k) same)) (λ k. omega arith)
          (λ lt. (
            ap (λ (j : WorkItem). j.callback) done ∙ keeps.callback ∙ plain,
            ap (λ (j : WorkItem). j.completed) done,
          )))

  callback_turn-IsConsistent :
      (s : System W) (i callback : ℕ) (rest : List ℕ) (ctx : FileContext W)
      → IsConsistent s
      → i < s.ctx.pool.capacity
      → queued s.ctx ≡ slot_address s.ctx i ∷ rest
      → turn s.ctx ≡ some (true, ctx)
      → (s.ctx.items (slot_address s.ctx i)).callback ≡ some callback
      → IsConsistent (turned s (slot_address s.ctx i) ctx s.held)
  callback_turn-IsConsistent s i callback rest ctx h inside e t call =
      let p = slot_address s.ctx i in
      let (item, w, (ctx', turns, calls, world, keeps, frees)) =
        turned-CallbackTurn s.ctx ctx i callback rest h.ready inside e call t in
      let there : ctx' ≡ ctx = let answer = turns.takes in cc in
      let once : free_slot s.ctx.pool i + owners s p ≡ 1 = h.accounts i inside in
      let front : 0 < occurrences p (queued s.ctx) = rw e (occurrences-head p rest) in
      subst (λ c. IsConsistent (turned s p c s.held)) there
        (turned-IsConsistent s p rest ctx' s.held h e turns
          (λ k lt. ground (arith, frees.after k, slot_address-== s.ctx.pool.storage i k))
          (λ k. omega arith) (λ lt. absurd (omega arith)))

  pub turns-IsConsistent :
      (s : System W) (p : ℕ) (rest : List ℕ) (ctx : FileContext W)
      → queued s.ctx ≡ p ∷ rest
      → turn s.ctx ≡ some (true, ctx)
      → IsConsistent s
      → IsConsistent (turned s p ctx (hand_back (s.ctx.items p).callback p s.held))
  turns-IsConsistent s p rest ctx e t h = by_callback (s.ctx.items p).callback refl
    where
      by_callback :
          (o : Option ℕ)
          → (s.ctx.items p).callback ≡ o
          → IsConsistent (turned s p ctx (hand_back o p s.held))
      by_callback o same =
          let front : 0 < occurrences p (queued s.ctx) = rw e (occurrences-head p rest) in
          let (i, at, inside) = h.owned p (omega arith) in
          elim (Option-cases o) [
            | inl plain ↦ rw plain (
                plain_turn-IsConsistent s p rest ctx h e t
                  (λ null. slot_not_null s.ctx i h.ready (sym at ∙ null)) (same ∙ plain))
            | inr (callback, call) ↦
                let at_slot : queued s.ctx ≡ slot_address s.ctx i ∷ rest =
                  e ∙ ap (λ a. a ∷ rest) at in
                rw call (
                  subst (λ a. IsConsistent (turned s a ctx s.held)) (sym at)
                    (callback_turn-IsConsistent s i callback rest ctx h inside at_slot t
                      (subst (λ a. (s.ctx.items a).callback ≡ some callback) at (same ∙ call))))
          ]

  pub idles-IsConsistent :
      (s : System W) (ctx : FileContext W)
      → queued s.ctx ≡ []
      → turn s.ctx ≡ some (false, ctx)
      → IsConsistent s
      → IsConsistent (record s { ctx = ctx })
  idles-IsConsistent s ctx e t h =
      let (queue, idles, empty, valid) = idle_turn s.ctx h.ready e in
      let there : record s.ctx { queue = queue } ≡ ctx = cc in
      subst (λ (c : FileContext W). IsConsistent (record s { ctx = c })) there
        (requeued-IsConsistent s queue s.ctx.semaphore s.pending s.pushed h valid
          (λ k. omega (arith, ap (occurrences k) empty, ap (occurrences k) e))
          (h.order ∙ ap (λ xs. s.taken ++ xs) (e ∙ sym empty)))
