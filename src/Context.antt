-- ===== src/Context.antt =====
-- src/FileContext.h and src/FileContext.cpp: the state of a `FileContext`, how a request becomes a
-- queued work item, and one turn of the processing thread. `none` is a fault: an access out of
-- bounds or a call of a null function.
pub mod Requests
pub mod Turn
pub mod Finish
pub mod Callback
pub mod Create
pub mod System
pub mod Race
pub mod Submit
pub mod Queued
mod Tests
use lamina_fs.Prelude.{
  ℕ, zero, suc, ◌+◌, ◌-◌, ◌%◌, ◌^◌, Bool, true, false, not, Option, none, some, List, [], ◌∷◌, ◌++◌,
  ◌==◌, if◌then◌else◌, ◌>>=◌,
}
use lamina_fs.Types.{
  ErrorCode, ok, out_of_work_items, BufferAction, free_buffer, do_not_free_buffer, Operation,
  exists, size, read, write, append, write_segment, delete, create_dir, delete_dir, Text, Bytes,
}
use lamina_fs.Device.{DeviceInterface}
use lamina_fs.Mounts.{MountInfo}
use lamina_fs.PoolAllocator
use lamina_fs.PoolAllocator.{PoolAllocator}
use lamina_fs.RingBuffer
use lamina_fs.RingBuffer.{RingBuffer}
use lamina_fs.WorkItem.{WorkItem, blank, init_work_item, free_item_buffer}
use lamina_fs.Processing.{perform}

-- The work items stand in the slots of the pool, at their addresses. `calls` are the callbacks made,
-- with the item that each was given; `notified` counts the calls of `notify_all`.
pub record FileContext (W : Type 0) : Type 0 where
  pub interfaces : List (DeviceInterface W)
  pub mounts : List (MountInfo W)
  pub pool : PoolAllocator
  pub items : ℕ → WorkItem
  pub queue : RingBuffer ℕ
  pub semaphore : ℕ
  pub alloc : ℕ
  pub calls : List (ℕ × ℕ × WorkItem)
  pub notified : ℕ
  pub world : W

-- `sizeof(WorkItem)`; any positive number serves.
abbrev pub work_item_size : ℕ
work_item_size = 128

abbrev pub update : (ℕ → WorkItem) → ℕ → WorkItem → ℕ → WorkItem
update items p item q = if p == q then item else items q

-- `Semaphore::notify`, on the `uint32_t` value.
abbrev pub notify : ℕ → ℕ
notify value = (value + 1) % 2 ^ 32

-- How the public functions differ: the operation, the callback and the fields that are set.
pub record Request : Type 0 where
  pub path : Text
  pub operation : Operation
  pub callback : Option ℕ
  pub user_data : ℕ
  pub action : BufferAction
  pub fill : WorkItem → WorkItem

module _ {W : Type 0} where
  -- The `else` of `allocWorkItemCommon`: a callback gets an item that never was in the pool.
  pub report_exhausted : Request → FileContext W → Option (FileContext W)
  report_exhausted request ctx = elim request.callback [
    | none ↦ some ctx
    | some callback ↦ do
      item ←
          init_work_item blank request.path request.operation request.callback request.user_data
            request.action
      let error_item = record item { completed = true; result_code = out_of_work_items }
      some (record ctx { calls = ctx.calls ++ ((callback, request.user_data, error_item) ∷ []) })
  ]

  -- `allocWorkItemCommon`: the item's address, 0 for none.
  pub alloc_work_item_common : Request → FileContext W → Option (ℕ × FileContext W)
  unfolding report_exhausted
  alloc_work_item_common request ctx = do
    (p, pool) ← PoolAllocator.alloc work_item_size ctx.pool
    let failed = (do ctx' ← report_exhausted request (record ctx { pool = pool }); some (p, ctx'))
    let filled = (do
      item ←
          init_work_item blank request.path request.operation request.callback request.user_data
            request.action
      some (p, record ctx { pool = pool; items = update ctx.items p item }))
    if p == 0 then failed else filled

  -- One round of the loop of `_workItemQueue.push`: whether it is done, and the queue. The thread
  -- spins in the loop while it is not.
  pub push_item : ℕ → FileContext W → Option (Bool × FileContext W)
  push_item p ctx = do
    (done, wake, queue) ← RingBuffer.push p ctx.queue
    some (
      done,
      record ctx {
        queue = queue;
        semaphore = if wake then notify ctx.semaphore else ctx.semaphore;
      },
    )

  -- A public function up to the first round of `push`: the item, and whether it is queued.
  pub submit : Request → FileContext W → Option (ℕ × Bool × FileContext W)
  unfolding alloc_work_item_common push_item
  submit request ctx = do
    (p, ctx') ← alloc_work_item_common request ctx
    let item = request.fill (ctx'.items p)
    let queued = (do
      (done, ctx'') ← push_item p (record ctx' { items = update ctx'.items p item })
      some (p, done, ctx''))
    if p == 0 then some (0, false, ctx') else queued

  -- `releaseWorkItemInternal`
  pub release_work_item_internal : ℕ → FileContext W → Option (FileContext W)
  release_work_item_internal p ctx = do
    pool ← PoolAllocator.free work_item_size p ctx.pool
    some (if p == 0 then ctx else record ctx { pool = pool })

  -- `releaseWorkItem`: an item with a callback is not the client's to release.
  unfoldable pub release_work_item : ℕ → FileContext W → Option (FileContext W)
  unfolding release_work_item_internal
  release_work_item p ctx = if p == 0 then some ctx else elim (ctx.items p).callback [
    | some callback ↦ some ctx
    | none ↦ release_work_item_internal p ctx
  ]

  -- The end of a turn: the callback and what follows it, or the call of `notify_all`.
  pub finish_item : ℕ → FileContext W → Option (FileContext W)
  unfolding release_work_item_internal
  finish_item p ctx = elim (ctx.items p).callback [
    | none ↦ some (record ctx { notified = ctx.notified + 1 })
    | some callback ↦ do
      let item = ctx.items p
      let called = record ctx {
        calls = ctx.calls ++ ((callback, item.callback_user_data, item) ∷ []);
      }
      item' ← elim item.callback_buffer_action [
        | free_buffer ↦ free_item_buffer item
        | do_not_free_buffer ↦ some item
      ]
      release_work_item_internal p (record called { items = update called.items p item' })
  ]

  -- One turn of `processingFunc`: `false` where the queue is empty and the thread goes on to wait.
  pub turn : FileContext W → Option (Bool × FileContext W)
  unfolding finish_item
  turn ctx = do
    (p, queue) ← RingBuffer.pop 0 ctx.queue
    let popped = record ctx { queue = queue }
    let processed = (do
      (item, world) ← perform ctx.mounts (ctx.items p) ctx.world
      let done = record item { completed = true }
      ctx' ← finish_item p (record popped { items = update ctx.items p done; world = world })
      some (true, ctx'))
    if p == 0 then some (false, popped) else processed
