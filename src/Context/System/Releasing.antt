-- ===== src/Context/System/Releasing.antt =====
-- A client releases a completed item.
use lamina_fs.Prelude.{
  ℕ, ◌+◌, ◌*◌, ◌<◌, Bool, false, ◌≡◌, ◌≢◌, sym, ap, ap₂, ◌∙◌, subst, Option, none, some, List, ◌∷◌,
  ◌++◌, ◌==◌, if◌then◌else◌, arith, occurrences,
}
use lamina_fs.PoolAllocator.Slots.{free_slot}
use lamina_fs.Context.{FileContext, release_work_item, release_work_item_internal}
use lamina_fs.Context.Turn.{slot_address}
use lamina_fs.Context.Finish.{slot_not_null, release_freed}
use lamina_fs.Context.System.{System}
use lamina_fs.Context.System.Invariant.{owners, IsConsistent, slot_address-==, occurrences-between}

module _ {W : Type 0} where
  abbrev by_release : FileContext W → ℕ → Bool → Option ℕ → Option (FileContext W)
  by_release ctx p null o =
      if null
      then some ctx
      else elim o [ some callback ↦ some ctx | none ↦ release_work_item_internal p ctx ]

  pub release-internal :
      (ctx : FileContext W) (p : ℕ)
      → p ≢ 0
      → (ctx.items p).callback ≡ none
      → release_work_item p ctx ≡ release_work_item_internal p ctx
  unfolding release_work_item
  release-internal ctx p ne e =
      let other : (p == 0) ≡ false = ground arith in ap₂ (by_release ctx p) other e

  slot_release-IsConsistent :
      (s : System W) (before after : List ℕ) (i : ℕ) (ctx : FileContext W)
      → i < s.ctx.pool.capacity
      → s.held ≡ before ++ (slot_address s.ctx i ∷ after)
      → release_work_item (slot_address s.ctx i) s.ctx ≡ some ctx
      → IsConsistent s
      → IsConsistent (record s { ctx = ctx; held = before ++ after })
  slot_release-IsConsistent s before after i ctx inside split e h =
      let p = slot_address s.ctx i in
      let counts : (k : ℕ)
          → occurrences k s.held ≡ (if p == k then 1 else 0) + occurrences k (before ++ after) =
        λ k. ap (occurrences k) split ∙ occurrences-between k p before after in
      let plain = h.finished p (ground (arith, counts p)) in
      let (pool, released, frees) = release_freed s.ctx i h.ready.pool h.ready.not_null inside in
      let answer = release-internal s.ctx p (slot_not_null s.ctx i h.ready) plain.0 in
      let there : record s.ctx { pool = pool } ≡ ctx = cc in
      let slots : (k : ℕ) → pool.storage + k * 128 ≡ slot_address s.ctx k =
        λ k. ap (λ a. a + k * 128) frees.same_place.0 in
      let now : System W = record s {
        ctx = record s.ctx { pool = pool };
        held = before ++ after;
      } in
      subst (λ (c : FileContext W). IsConsistent (record s { ctx = c; held = before ++ after }))
        there
        (record {
          ready = record {
            sound = h.ready.sound;
            pool = frees.valid;
            queue = h.ready.queue;
            not_null = λ null. h.ready.not_null (sym frees.same_place.0 ∙ null);
          };
          registered = h.registered;
          accounts = λ k lt.
              subst (λ a. free_slot pool k + owners now a ≡ 1) (sym (slots k))
                (ground (
                  arith,
                  h.accounts k (subst (λ n. k < n) frees.same_place.1 lt),
                  counts (slot_address s.ctx k),
                  frees.after k,
                  slot_address-== s.ctx.pool.storage i k,
                ));
          owned = λ k lt.
              let (j, at, below) = h.owned k (omega (arith, counts k)) in
              (j, at ∙ sym (slots j), subst (λ n. j < n) (sym frees.same_place.1) below);
          waiting = h.waiting;
          finished = λ k lt. h.finished k (omega (arith, counts k));
          order = h.order;
        })

  pub releases-IsConsistent :
      (s : System W) (before after : List ℕ) (p : ℕ) (ctx : FileContext W)
      → s.held ≡ before ++ (p ∷ after)
      → release_work_item p s.ctx ≡ some ctx
      → IsConsistent s
      → IsConsistent (record s { ctx = ctx; held = before ++ after })
  releases-IsConsistent s before after p ctx split e h =
      let (i, at, inside) =
        h.owned p
          (ground (arith, ap (occurrences p) split, occurrences-between p p before after)) in
      slot_release-IsConsistent s before after i ctx inside
        (split ∙ ap (λ a. before ++ (a ∷ after)) at)
        (ap (λ a. release_work_item a s.ctx) (sym at) ∙ e) h
