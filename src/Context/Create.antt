-- ===== src/Context/Create.antt =====
-- src/FileContext.cpp: the constructor and the destructor of a `FileContext`. The thread that the
-- one starts and the other stops is not part of the state.
use lamina_fs.Prelude.{ℕ, ◌^◌, ◌<◌, ◌≢◌, Option, some, List, [], ◌∷◌, length, ◌>>=◌}
use lamina_fs.Device.{DeviceInterface}
use lamina_fs.PoolAllocator
use lamina_fs.PoolAllocator.Slots
use lamina_fs.RingBuffer
use lamina_fs.RingBuffer.Bounds
use lamina_fs.WorkItem.{blank}
use lamina_fs.Mounts.{MountInfo, register_device_interface}
use lamina_fs.Mounts.Sound.{AllRegistered, register-AllRegistered}
use lamina_fs.Context.{FileContext}
use lamina_fs.Context.Turn.{IsReady}

module _ {W : Type 0} where
  -- The constructor, with the directory device's interface, the allocator, the address of the slots
  -- and the cells of the queue that the allocator returns, and the state of the devices. The items
  -- of free slots are never read.
  unfoldable pub create : DeviceInterface W → ℕ → ℕ → List ℕ → ℕ → ℕ → W → FileContext W
  create directory alloc storage cells max_queued_work_items work_item_pool_size w = record {
    interfaces = (register_device_interface directory []).1;
    mounts = [];
    pool = PoolAllocator.init storage work_item_pool_size;
    items = λ p. blank;
    queue = RingBuffer.init cells max_queued_work_items;
    semaphore = 0;
    alloc = alloc;
    calls = [];
    notified = 0;
    world = w;
  }

  -- The destructor's loop over the mounts: the state of the devices after it. `none` is a call of a
  -- null function.
  pub destroy_mounts : List (MountInfo W) → W → Option W
  destroy_mounts [] w = some w
  destroy_mounts (m ∷ ms) w =
      m.interface.destroy >>= λ destroy. destroy_mounts ms (destroy m.device w)

  -- A new context, with room for at least one work item in its queue, is ready, and its interfaces
  -- have the required functions.
  pub create-IsReady :
      (directory : DeviceInterface W) (alloc storage : ℕ) (cells : List ℕ) (work_item_pool_size : ℕ)
      (w : W)
      → storage ≢ 0
      → 0 < length cells
      → length cells < 2 ^ 64
      → IsReady (create directory alloc storage cells (length cells) work_item_pool_size w)
        × AllRegistered
            (create directory alloc storage cells (length cells) work_item_pool_size w).interfaces
  unfolding create PoolAllocator.init
  create-IsReady directory alloc storage cells work_item_pool_size w ne some_room small = (
    record {
      sound = record { each = tt; distinct = tt };
      pool = PoolAllocator.Slots.init-IsValid storage work_item_pool_size;
      queue = RingBuffer.Bounds.init-IsValid cells some_room small;
      not_null = ne;
    },
    register-AllRegistered directory [] tt,
  )
