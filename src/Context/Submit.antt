-- ===== src/Context/Submit.antt =====
-- How a request becomes a queued work item.
use lamina_fs.Prelude.{
  ℕ, ◌^◌, ◌<◌, true, false, ◌≡◌, refl, ap, ◌∙◌, Option, none, some, inl, inr, ◌⊎◌, List, [], ◌∷◌,
  ◌++◌, length, ◌==◌, arith, ◌>>=◌,
}
use lamina_fs.Types.{out_of_work_items}
use lamina_fs.Paths.Canonical.{IsText, canonical}
use lamina_fs.Paths.Correct.{normalize_path-canonical}
use lamina_fs.Paths.Text.{canonical-IsText}
use lamina_fs.PoolAllocator
use lamina_fs.PoolAllocator.{PoolAllocator}
use lamina_fs.PoolAllocator.Slots
use lamina_fs.PoolAllocator.Alloc.{Takes, alloc_lem}
use lamina_fs.WorkItem.{WorkItem, blank, text_of, init_work_item}
use lamina_fs.Context.{
  FileContext, Request, work_item_size, update, report_exhausted, alloc_work_item_common, submit,
}
use lamina_fs.Context.Turn.{IsReady, slot_address}

pub text_of-text : (s rest : List ℕ) → IsText s → text_of (s ++ (0 ∷ rest)) ≡ s
unfolding text_of
text_of-text [] rest h = refl
text_of-text (c ∷ s) rest h =
    let other : (c == 0) ≡ false = ground arith in
    rw other (ap (λ t. c ∷ t) (text_of-text s rest h.1))

-- The item that `initWorkItem` makes of a request.
abbrev pub requested : Request → WorkItem
requested q = record blank {
  operation = q.operation;
  filename = canonical q.path;
  callback = q.callback;
  callback_user_data = q.user_data;
  callback_buffer_action = q.action;
  completed = false;
}

pub init_work_item-requested :
    (q : Request)
    → IsText q.path
    → length q.path < 2 ^ 32
    → init_work_item blank q.path q.operation q.callback q.user_data q.action ≡ some (requested q)
unfolding init_work_item
init_work_item-requested q text small =
    let (rest, normal, same) = normalize_path-canonical q.path [] text small in
    rw (normal) (rw (text_of-text (canonical q.path) rest (canonical-IsText q.path text)) refl)

module _ {W : Type 0} where
  -- A callback is told that no work item is left.
  abbrev pub tell : Request → FileContext W → ℕ → WorkItem → FileContext W
  tell q ctx callback item = record ctx {
    calls =
        ctx.calls
        ++ ((
          callback,
          q.user_data,
          record item { completed = true; result_code = out_of_work_items },
        )
            ∷ []);
  }

  -- What a client learns when no work item is left.
  abbrev pub exhausted : Request → FileContext W → FileContext W
  exhausted q ctx = elim q.callback [
    | none ↦ ctx
    | some callback ↦ tell q ctx callback (requested q)
  ]

  abbrev report_by : Request → FileContext W → Option ℕ → Option (FileContext W)
  report_by q ctx o = elim o [
    | none ↦ some ctx
    | some callback ↦
        init_work_item blank q.path q.operation q.callback q.user_data q.action >>= λ item.
        some (tell q ctx callback item)
  ]

  report_exhausted-report_by :
      (q : Request) (ctx : FileContext W) → report_exhausted q ctx ≡ report_by q ctx q.callback
  unfolding report_exhausted
  report_exhausted-report_by q ctx = refl

  report_exhausted-exhausted :
      (q : Request) (ctx : FileContext W)
      → IsText q.path
      → length q.path < 2 ^ 32
      → report_exhausted q ctx ≡ some (exhausted q ctx)
  report_exhausted-exhausted q ctx text small = report_exhausted-report_by q ctx ∙ go q.callback
    where
      go :
          (o : Option ℕ)
          → report_by q ctx o
            ≡ some (elim o [ none ↦ ctx | some callback ↦ tell q ctx callback (requested q) ])
      go none = refl
      go (some callback) =
          ap (λ r. r >>= λ item. some (tell q ctx callback item))
            (init_work_item-requested q text small)

  -- In a ready context with no free slot, a request for a C string of fewer than 2 ^ 32 bytes
  -- gets the null pointer and queues nothing; its callback, if it has one, is called at once with
  -- an item that says `LFS_OUT_OF_WORK_ITEMS`.
  pub submit-exhausted :
      (q : Request) (ctx : FileContext W)
      → IsReady ctx
      → IsText q.path
      → length q.path < 2 ^ 32
      → ((i : ℕ) → PoolAllocator.Slots.free_slot ctx.pool i ≡ 0)
      → submit q ctx ≡ some (0, false, exhausted q ctx)
  unfolding submit alloc_work_item_common
  submit-exhausted q ctx ready text small full =
      elim (alloc_lem work_item_size ctx.pool ready.pool) [
        | inl (same, all) ↦ rw (same, report_exhausted-exhausted q ctx text small) refl
        | inr (i, pool, allocated, takes) ↦ absurd (omega (arith, full i, takes.was_free))
      ]

  -- The context when `initWorkItem` has set up the item of slot `i`.
  abbrev pub allocated : Request → FileContext W → ℕ → PoolAllocator → FileContext W
  allocated q ctx i pool = record ctx {
    pool = pool;
    items = update ctx.items (slot_address ctx i) (requested q);
  }

  -- The two ways in which `allocWorkItemCommon` ends.
  pub alloc_work_item-cases :
      (q : Request) (ctx : FileContext W)
      → IsReady ctx
      → IsText q.path
      → length q.path < 2 ^ 32
      → (alloc_work_item_common q ctx ≡ some (0, exhausted q ctx))
        ⊎ ((i : ℕ) × (pool : PoolAllocator) × (alloc_work_item_common q ctx
              ≡ some (slot_address ctx i, allocated q ctx i pool))
            × Takes ctx.pool pool i)
  unfolding alloc_work_item_common
  alloc_work_item-cases q ctx ready text small =
      elim (alloc_lem work_item_size ctx.pool ready.pool) [
        | inl (same, all) ↦ inl (rw (same, report_exhausted-exhausted q ctx text small) refl)
        | inr (i, pool, taken, takes) ↦
            let other : (slot_address ctx i == 0) ≡ false =
              let ne = ready.not_null in ground arith in
            inr (i, pool, rw (taken, init_work_item-requested q text small, other) refl, takes)
      ]
