-- ===== src/CApi/Contexts.antt =====
-- src/laminaFS_c.cpp: the C functions for contexts, mounts and work items. `address` is what the
-- allocator returns for a new mount.
use lamina_fs.Prelude.{ℕ, Bool, Option, some, List, ◌>>=◌}
use lamina_fs.Types.{ErrorCode, mount_default, Text, Bytes}
use lamina_fs.Device.{DeviceInterface}
use lamina_fs.Mounts.{register_device_interface, create_mount, release_mount}
use lamina_fs.WorkItem.{WorkItem, get_result, get_buffer, get_bytes, free_item_buffer, is_completed}
use lamina_fs.Context.{FileContext, release_work_item}
use lamina_fs.Context.Create.{create}

module _ {W : Type 0} where
  -- The default capacities of the constructor are 128 and 1024.
  pub lfs_context_create : DeviceInterface W → ℕ → ℕ → List ℕ → W → FileContext W
  unfolding create
  lfs_context_create directory alloc storage cells w =
      create directory alloc storage cells 128 1024 w

  pub lfs_context_create_capacity : DeviceInterface W → ℕ → ℕ → List ℕ → ℕ → ℕ → W → FileContext W
  unfolding create
  lfs_context_create_capacity directory alloc storage cells max_queued_work_items
        work_item_pool_size w =
      create directory alloc storage cells max_queued_work_items work_item_pool_size w

  pub lfs_register_device_interface : FileContext W → DeviceInterface W → Option ℕ × FileContext W
  unfolding register_device_interface
  lfs_register_device_interface ctx interface =
      let (index, interfaces) = register_device_interface interface ctx.interfaces in
      (index, record ctx { interfaces = interfaces })

  pub lfs_create_mount_with_permissions :
      ℕ → FileContext W → ℕ → Text → Text → ℕ → Option (ℕ × ErrorCode × FileContext W)
  unfolding create_mount
  lfs_create_mount_with_permissions address ctx device_type mount_point device_path permissions = do
    c ←
        create_mount address device_type mount_point device_path permissions ctx.interfaces
          ctx.mounts ctx.world
    some (c.mount, c.result_code, record ctx { mounts = c.mounts; world = c.world })

  pub lfs_create_mount :
      ℕ → FileContext W → ℕ → Text → Text → Option (ℕ × ErrorCode × FileContext W)
  unfolding lfs_create_mount_with_permissions
  lfs_create_mount address ctx device_type mount_point device_path =
      lfs_create_mount_with_permissions address ctx device_type mount_point device_path
        mount_default

  pub lfs_release_mount : FileContext W → ℕ → Option (Bool × FileContext W)
  unfolding release_mount
  lfs_release_mount ctx mount = do
    (found, mounts, w) ← release_mount mount ctx.mounts ctx.world
    some (found, record ctx { mounts = mounts; world = w })

  pub lfs_release_work_item : FileContext W → ℕ → Option (FileContext W)
  unfolding release_work_item
  lfs_release_work_item ctx p = release_work_item p ctx

pub lfs_work_item_get_result : Option WorkItem → ErrorCode
unfolding get_result
lfs_work_item_get_result item = get_result item

pub lfs_work_item_get_buffer : Option WorkItem → Option Bytes
unfolding get_buffer
lfs_work_item_get_buffer item = get_buffer item

pub lfs_work_item_get_bytes : Option WorkItem → ℕ
unfolding get_bytes
lfs_work_item_get_bytes item = get_bytes item

pub lfs_work_item_free_buffer : WorkItem → Option WorkItem
unfolding free_item_buffer
lfs_work_item_free_buffer item = free_item_buffer item

pub lfs_work_item_completed : Option WorkItem → Bool
unfolding is_completed
lfs_work_item_completed item = is_completed item
