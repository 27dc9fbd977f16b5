-- ===== src/Context/System.antt =====
-- A context in use: its clients, which request, push and release, and its processing thread. Each
-- step is one call of src/FileContext.cpp, and the steps of several clients come in any order.
pub mod Invariant
pub mod Requesting
pub mod Queueing
pub mod Turning
pub mod Releasing
pub mod Safety
pub mod Outcome
pub mod Drained
pub mod Drain
pub mod Told
pub mod Faults
mod Tests
use lamina_fs.Prelude.{
  ℕ, ◌^◌, ◌<◌, true, false, ◌≡◌, ◌≢◌, Option, none, some, List, [], ◌∷◌, ◌++◌, length,
}
use lamina_fs.Types.{free_buffer, write_segment}
use lamina_fs.Device.{DeviceInterface}
use lamina_fs.Mounts.{is_some}
use lamina_fs.Mounts.Reachable
use lamina_fs.Mounts.Reachable.{Registry}
use lamina_fs.Paths.Canonical.{IsText}
use lamina_fs.WorkItem.{WorkItem}
use lamina_fs.Context.{
  FileContext, Request, update, alloc_work_item_common, push_item, release_work_item, turn,
}
use lamina_fs.Context.Create.{create}
use lamina_fs.Context.Submit.{requested}
use lamina_fs.Context.Turn.{queued}

-- `pending` are the items that clients have filled and still have to push: `push` spins while the
-- queue is full. `held` are the items that the thread has completed and a client still has to
-- release. `pushed` and `taken` record the order of the pushes and of the turns.
pub record System (W : Type 0) : Type 0 where
  pub ctx : FileContext W
  pub pending : List ℕ
  pub held : List ℕ
  pub pushed : List ℕ
  pub taken : List ℕ

-- An item that the thread runs without a fault, whatever the mounts.
pub record CanRun (item : WorkItem) : Type 0 where
  pub no_segment : item.operation ≢ write_segment
  pub freeable : item.callback_buffer_action ≡ free_buffer → is_some item.allocator ≡ true

-- Who owns an item after the thread has taken it: the client, or with a callback nobody.
abbrev pub hand_back : Option ℕ → ℕ → List ℕ → List ℕ
hand_back none p held = p ∷ held
hand_back (some callback) p held = held

module _ {W : Type 0} where
  abbrev pub registry : FileContext W → Registry W
  registry ctx = record { interfaces = ctx.interfaces; mounts = ctx.mounts; world = ctx.world }

  abbrev pub configured : FileContext W → Registry W → FileContext W
  configured ctx r = record ctx { interfaces = r.interfaces; mounts = r.mounts; world = r.world }

  -- The item at `p` with the fields that the public function sets after `allocWorkItemCommon`.
  abbrev pub filled : Request → ℕ → FileContext W → FileContext W
  filled q p ctx = record ctx { items = update ctx.items p (q.fill (ctx.items p)) }

  -- A request is any whose function leaves `_completed` as `initWorkItem` sets it; what its operation
  -- is, and whether its buffer can be freed, is left open.
  pub data Step : System W → System W → Type 0 where
    allocates :
        (s : System W) (q : Request) (p : ℕ) (ctx : FileContext W)
        → IsText q.path
        → length q.path < 2 ^ 32
        → (q.fill (requested q)).completed ≡ false
        → alloc_work_item_common q s.ctx ≡ some (p, ctx)
        → p ≢ 0
        → Step s (record s { ctx = filled q p ctx; pending = p ∷ s.pending })
    exhausts :
        (s : System W) (q : Request) (ctx : FileContext W)
        → IsText q.path
        → length q.path < 2 ^ 32
        → alloc_work_item_common q s.ctx ≡ some (0, ctx)
        → Step s (record s { ctx = ctx })
    pushes :
        (s : System W) (before after : List ℕ) (p : ℕ) (ctx : FileContext W)
        → s.pending ≡ before ++ (p ∷ after)
        → push_item p s.ctx ≡ some (true, ctx)
        → Step s (record s { ctx = ctx; pending = before ++ after; pushed = s.pushed ++ (p ∷ []) })
    spins :
        (s : System W) (p : ℕ) (ctx : FileContext W)
        → push_item p s.ctx ≡ some (false, ctx)
        → Step s (record s { ctx = ctx })
    turns :
        (s : System W) (p : ℕ) (rest : List ℕ) (ctx : FileContext W)
        → queued s.ctx ≡ p ∷ rest
        → turn s.ctx ≡ some (true, ctx)
        → Step s (record s {
          ctx = ctx;
          held = hand_back (s.ctx.items p).callback p s.held;
          taken = s.taken ++ (p ∷ []);
        })
    idles :
        (s : System W) (ctx : FileContext W)
        → queued s.ctx ≡ []
        → turn s.ctx ≡ some (false, ctx)
        → Step s (record s { ctx = ctx })
    releases :
        (s : System W) (before after : List ℕ) (p : ℕ) (ctx : FileContext W)
        → s.held ≡ before ++ (p ∷ after)
        → release_work_item p s.ctx ≡ some ctx
        → Step s (record s { ctx = ctx; held = before ++ after })
    configures :
        (s : System W) (r : Registry W)
        → Reachable.Step (registry s.ctx) r
        → Step s (record s { ctx = configured s.ctx r })

  -- The systems that come about from a new context.
  pub data IsReachable : System W → Type 0 where
    starts :
        (directory : DeviceInterface W) (alloc storage : ℕ) (cells : List ℕ) (slots : ℕ) (w : W)
        → storage ≢ 0
        → 0 < length cells
        → length cells < 2 ^ 64
        → IsReachable (record {
          ctx = create directory alloc storage cells (length cells) slots w;
          pending = [];
          held = [];
          pushed = [];
          taken = [];
        })
    next : {s t : System W} → IsReachable s → Step s t → IsReachable t
