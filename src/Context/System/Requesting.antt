-- ===== src/Context/System/Requesting.antt =====
-- A client gets a work item, or learns that there is none.
use lamina_fs.Prelude.{
  ℕ, ◌+◌, ◌*◌, ◌^◌, ◌<◌, true, false, ◌≡◌, ◌≢◌, sym, ap, ap₂, ◌∙◌, subst, Option, none, some, ◌∷◌,
  length, ◌==◌, arith, occurrences, Bool-cases, inl, inr,
}
use lamina_fs.PoolAllocator.{PoolAllocator}
use lamina_fs.PoolAllocator.Slots.{free_slot}
use lamina_fs.PoolAllocator.Alloc.{Takes}
use lamina_fs.Paths.Canonical.{IsText}
use lamina_fs.Context.{FileContext, Request, update, alloc_work_item_common}
use lamina_fs.Context.Turn.{queued, slot_address, update_self, update_other}
use lamina_fs.Context.Submit.{requested, exhausted, tell, allocated, alloc_work_item-cases}
use lamina_fs.WorkItem.{WorkItem}
use lamina_fs.Context.System.{System, filled}
use lamina_fs.Context.System.Invariant.{owners, IsConsistent, slot_address-==}

module _ {W : Type 0} where
  -- The system in which a client has filled slot `i`.
  abbrev requesting : Request → System W → ℕ → PoolAllocator → System W
  requesting q s i pool =
      let p = slot_address s.ctx i in
      record s { ctx = filled q p (allocated q s.ctx i pool); pending = p ∷ s.pending }

  requesting-item :
      (q : Request) (s : System W) (i : ℕ) (pool : PoolAllocator)
      → (requesting q s i pool).ctx.items (slot_address s.ctx i) ≡ q.fill (requested q)
  requesting-item q s i pool =
      let p = slot_address s.ctx i in
      let there = update s.ctx.items p (requested q) in
      update_self there p (q.fill (there p)) ∙ ap q.fill (update_self s.ctx.items p (requested q))

  requesting-others :
      (q : Request) (s : System W) (i : ℕ) (pool : PoolAllocator) (k : ℕ)
      → k ≢ slot_address s.ctx i
      → (requesting q s i pool).ctx.items k ≡ s.ctx.items k
  requesting-others q s i pool k ne =
      let p = slot_address s.ctx i in
      let there = update s.ctx.items p (requested q) in
      update_other there p k (q.fill (there p)) ne ∙ update_other s.ctx.items p k (requested q) ne

  module _ (q : Request) (s : System W) (i : ℕ) (pool : PoolAllocator) (h : IsConsistent s)
      (takes : Takes s.ctx.pool pool i) where
    requesting-accounts :
        (j : ℕ)
        → j < s.ctx.pool.capacity
        → free_slot pool j + owners (requesting q s i pool) (slot_address s.ctx j) ≡ 1
    requesting-accounts j lt = ground (
      arith,
      takes.after j,
      h.accounts j lt,
      takes.was_free,
      slot_address-== s.ctx.pool.storage i j,
    )

    requesting-owned :
        (p : ℕ)
        → 0 < owners (requesting q s i pool) p
        → (j : ℕ) × (p ≡ slot_address s.ctx j) × (j < s.ctx.pool.capacity)
    requesting-owned p lt = elim (Bool-cases (slot_address s.ctx i == p)) [
      | inl e ↦ (i, ground arith, takes.in_range)
      | inr e ↦ h.owned p (ground arith)
    ]

    requesting-waiting :
        (q.fill (requested q)).completed ≡ false
        → (p : ℕ)
        → 0 < occurrences p (slot_address s.ctx i ∷ s.pending) + occurrences p (queued s.ctx)
        → ((requesting q s i pool).ctx.items p).completed ≡ false
    requesting-waiting able p lt = elim (Bool-cases (slot_address s.ctx i == p)) [
      | inl e ↦
          let same : slot_address s.ctx i ≡ p = ground arith in
          subst (λ k. ((requesting q s i pool).ctx.items k).completed ≡ false) same
            (ap (λ (j : WorkItem). j.completed) (requesting-item q s i pool) ∙ able)
      | inr e ↦
          ap (λ (j : WorkItem). j.completed) (requesting-others q s i pool p (ground arith))
          ∙ h.waiting p (ground arith)
    ]

    requesting-finished :
        (p : ℕ)
        → 0 < occurrences p s.held
        → (((requesting q s i pool).ctx.items p).callback ≡ none)
          × (((requesting q s i pool).ctx.items p).completed ≡ true)
    requesting-finished p lt = elim (Bool-cases (slot_address s.ctx i == p)) [
      | inl e ↦
          let same : slot_address s.ctx i ≡ p = ground arith in
          let held = subst (λ k. 0 < occurrences k s.held) (sym same) lt in
          absurd (omega (arith, h.accounts i takes.in_range, takes.was_free, held))
      | inr e ↦
          subst (λ item. (item.callback ≡ none) × (item.completed ≡ true))
            (sym (requesting-others q s i pool p (ground arith))) (h.finished p lt)
    ]

    requesting-IsConsistent :
        (q.fill (requested q)).completed ≡ false → IsConsistent (requesting q s i pool)
    requesting-IsConsistent able =
        let slots : (k : ℕ) → pool.storage + k * 128 ≡ slot_address s.ctx k =
          λ k. ap (λ a. a + k * 128) takes.same_place.0 in
        record {
          ready = record {
            sound = h.ready.sound;
            pool = takes.valid;
            queue = h.ready.queue;
            not_null = λ e. h.ready.not_null (sym takes.same_place.0 ∙ e);
          };
          registered = h.registered;
          accounts = λ j lt.
              subst (λ a. free_slot pool j + owners (requesting q s i pool) a ≡ 1) (sym (slots j))
                (requesting-accounts j (subst (λ n. j < n) takes.same_place.1 lt));
          owned = λ p lt.
              let (j, at, inside) = requesting-owned p lt in
              (j, at ∙ sym (slots j), subst (λ n. j < n) (sym takes.same_place.1) inside);
          waiting = requesting-waiting able;
          finished = requesting-finished;
          order = h.order;
        }

  pub allocates-IsConsistent :
      (s : System W) (q : Request) (p : ℕ) (ctx : FileContext W)
      → IsText q.path
      → length q.path < 2 ^ 32
      → (q.fill (requested q)).completed ≡ false
      → alloc_work_item_common q s.ctx ≡ some (p, ctx)
      → p ≢ 0
      → IsConsistent s
      → IsConsistent (record s { ctx = filled q p ctx; pending = p ∷ s.pending })
  allocates-IsConsistent s q p ctx text small able e ne h =
      elim (alloc_work_item-cases q s.ctx h.ready text small) [
        | inl full ↦ let null : p ≡ 0 = cc in absurd (ne null)
        | inr (i, pool, got, takes) ↦
            let here : slot_address s.ctx i ≡ p = cc in
            let there : allocated q s.ctx i pool ≡ ctx = cc in
            subst
              (λ (r : ℕ × FileContext W).
                IsConsistent (record s { ctx = filled q r.0 r.1; pending = r.0 ∷ s.pending }))
              (ap₂ (λ a b. (a, b)) here there) (requesting-IsConsistent q s i pool h takes able)
      ]

  exhausted-IsConsistent :
      (s : System W) (q : Request)
      → IsConsistent s
      → IsConsistent (record s { ctx = exhausted q s.ctx })
  exhausted-IsConsistent s q h = by_callback q.callback
    where
      by_callback :
          (o : Option ℕ)
          → IsConsistent (record s {
            ctx = elim o [ none ↦ s.ctx | some callback ↦ tell q s.ctx callback (requested q) ];
          })
      by_callback none = h
      by_callback (some callback) = record {
        ready = record {
          sound = h.ready.sound;
          pool = h.ready.pool;
          queue = h.ready.queue;
          not_null = h.ready.not_null;
        };
        registered = h.registered;
        accounts = h.accounts;
        owned = h.owned;
        waiting = h.waiting;
        finished = h.finished;
        order = h.order;
      }

  pub exhausts-IsConsistent :
      (s : System W) (q : Request) (ctx : FileContext W)
      → IsText q.path
      → length q.path < 2 ^ 32
      → alloc_work_item_common q s.ctx ≡ some (0, ctx)
      → IsConsistent s
      → IsConsistent (record s { ctx = ctx })
  exhausts-IsConsistent s q ctx text small e h =
      elim (alloc_work_item-cases q s.ctx h.ready text small) [
        | inl full ↦
            let same : exhausted q s.ctx ≡ ctx = cc in
            subst (λ c. IsConsistent (record s { ctx = c })) same (exhausted-IsConsistent s q h)
        | inr (i, pool, got, takes) ↦
            let null : slot_address s.ctx i ≡ 0 = cc in absurd (h.ready.not_null (omega arith))
      ]
