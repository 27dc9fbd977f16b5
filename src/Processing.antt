-- ===== src/Processing.antt =====
-- src/FileContext.cpp, `FileContext::processingFunc`: what the processing thread does with one work
-- item. The outer `none` is a call of a null function.
pub mod Visit
pub mod Safety
pub mod Overlay
pub mod Keeps
mod Tests
use lamina_fs.Prelude.{
  ℕ, zero, suc, Bool, true, false, not, Option, none, some, List, length, if◌then◌else◌, ◌>>=◌,
}
use lamina_fs.Types.{
  ErrorCode, ok, not_found, unsupported, is_not_found, WriteMode, truncate, segment, Operation,
  exists, size, read, write, append, write_segment, delete, create_dir, delete_dir, Text,
}
use lamina_fs.Device.{DeviceInterface}
use lamina_fs.Mounts.{MountInfo, find_next, find_mutable}
use lamina_fs.WorkItem.{WorkItem}

-- The inner switch of the writing operations.
abbrev pub write_mode : Operation → WriteMode
write_mode write_segment = segment
write_mode append = WriteMode.append
write_mode _ = truncate

module _ {W : Type 0} where
  -- `while ((mount = findNextMountAndPath(…, mount)) != nullptr) …`, on fuel. The body says whether
  -- it breaks.
  pub visit {ℓ} :
      {S : Type ℓ}
      → ℕ
      → (MountInfo W → Text → S → Option (Bool × S))
      → List (MountInfo W)
      → Text
      → Option ℕ
      → S
      → Option S
  visit zero body mounts path start s = none
  visit (suc fuel) body mounts path start s = elim (find_next mounts path start) [
    | none ↦ some s
    | some (m, at) ↦ body m at s >>= λ (found, s'). elim found [
      | true ↦ some s'
      | false ↦ visit fuel body mounts path (some m.address) s'
    ]
  ]

  -- The body of the loop of each operation that reads.
  unfoldable pub try_exists : MountInfo W → Text → WorkItem × W → Option (Bool × (WorkItem × W))
  try_exists m path (item, w) = do
    file_exists ← m.interface.file_exists
    let (found, w') = file_exists m.device path w
    some (found, (if found then record item { result_code = ok } else item, w'))

  unfoldable pub try_size : MountInfo W → Text → WorkItem × W → Option (Bool × (WorkItem × W))
  try_size m path (item, w) = do
    file_size ← m.interface.file_size
    let (bytes, code, w') = file_size m.device path item.result_code w
    some (not (is_not_found code), (record item { buffer_bytes = bytes; result_code = code }, w'))

  unfoldable pub try_read : ℕ → MountInfo W → Text → WorkItem × W → Option (Bool × (WorkItem × W))
  try_read max_bytes m path (item, w) = do
    read_file ← m.interface.read_file
    let (bytes, buffer, code, w') =
        read_file m.device path item.offset max_bytes item.buffer item.null_terminate
          item.result_code w
    some (
      not (is_not_found code),
      (record item { buffer_bytes = bytes; buffer = buffer; result_code = code }, w'),
    )

  pub perform_exists : List (MountInfo W) → WorkItem → W → Option (WorkItem × W)
  unfolding visit try_exists
  perform_exists mounts item w =
      visit (suc (length mounts)) try_exists mounts item.filename none
        (record item { result_code = not_found }, w)

  pub perform_size : List (MountInfo W) → WorkItem → W → Option (WorkItem × W)
  unfolding visit try_size
  perform_size mounts item w =
      visit (suc (length mounts)) try_size mounts item.filename none
        (record item { result_code = not_found; buffer_bytes = 0 }, w)

  unfoldable pub perform_read : List (MountInfo W) → WorkItem → W → Option (WorkItem × W)
  unfolding visit try_read
  perform_read mounts item w =
      visit (suc (length mounts)) (try_read item.buffer_bytes) mounts item.filename none
        (record item { result_code = not_found; buffer_bytes = 0 }, w)

  unfoldable pub perform_write : List (MountInfo W) → WorkItem → W → Option (WorkItem × W)
  perform_write mounts item w = elim (find_mutable mounts item.filename item.operation) [
    | none ↦ some (record item { buffer_bytes = 0; result_code = unsupported }, w)
    | some (m, path) ↦ m.interface.write_file >>= λ write_file.
        let (bytes, code, w') =
          write_file m.device path item.offset item.buffer item.buffer_bytes
            (write_mode item.operation) item.result_code w in
        some (record item { buffer_bytes = bytes; result_code = code }, w')
  ]

  -- The three operations that change names: `pick` is the device's function.
  pub perform_change :
      (DeviceInterface W → Option (ℕ → Text → W → ErrorCode × W))
      → List (MountInfo W)
      → WorkItem
      → W
      → Option (WorkItem × W)
  perform_change pick mounts item w = elim (find_mutable mounts item.filename item.operation) [
    | none ↦ some (record item { result_code = unsupported }, w)
    | some (m, path) ↦ pick m.interface >>= λ change.
        let (code, w') = change m.device path w in some (record item { result_code = code }, w')
  ]

  -- The switch on the operation.
  unfoldable pub perform : List (MountInfo W) → WorkItem → W → Option (WorkItem × W)
  unfolding perform_exists perform_size perform_read perform_write perform_change
  perform mounts item w = elim item.operation [
    | exists ↦ perform_exists mounts item w
    | size ↦ perform_size mounts item w
    | read ↦ perform_read mounts item w
    | write ↦ perform_write mounts item w
    | append ↦ perform_write mounts item w
    | write_segment ↦ perform_write mounts item w
    | delete ↦ perform_change (λ i. i.delete_file) mounts item w
    | create_dir ↦ perform_change (λ i. i.create_dir) mounts item w
    | delete_dir ↦ perform_change (λ i. i.delete_dir) mounts item w
  ]
