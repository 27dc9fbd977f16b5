-- ===== src/Processing/Overlay.antt =====
-- The operations of `processingFunc` that read, and the search for a mount to change.
use lamina_fs.Prelude.{
  ℕ, ◌≡◌, refl, ◌∙◌, some, List, [], ◌∷◌, reverse, if◌then◌else◌, Bool-cases, Option-cases, inl,
  inr, Option, ◌>>=◌,
}
use lamina_fs.Types.{Text, ok, not_found, is_not_found}
use lamina_fs.WorkItem.{WorkItem}
use lamina_fs.Mounts.{MountInfo, device_path}
use lamina_fs.Mounts.Search.{readable, Distinct}
use lamina_fs.Processing.{
  try_exists, try_size, try_read, perform_exists, perform_size, perform_read,
}
use lamina_fs.Processing.Visit.{overlay, visit-eq-overlay}

module _ {W : Type 0} where
  -- Each operation as the overlay of its devices.
  pub operations-overlay :
      (ms : List (MountInfo W)) (item : WorkItem) (w : W)
      → Distinct ms
      → (perform_exists ms item w
          ≡ overlay try_exists item.filename
              (readable item.filename (reverse ms))
              (record item { result_code = not_found }, w))
        × (perform_size ms item w
            ≡ overlay try_size item.filename
                (readable item.filename (reverse ms))
                (record item { result_code = not_found; buffer_bytes = 0 }, w))
        × (perform_read ms item w
            ≡ overlay
                (try_read item.buffer_bytes)
                item.filename
                (readable item.filename (reverse ms))
                (record item { result_code = not_found; buffer_bytes = 0 }, w))
  unfolding perform_exists perform_size perform_read
  operations-overlay ms item w d = (
    visit-eq-overlay try_exists ms item.filename _ d,
    visit-eq-overlay try_size ms item.filename _ d,
    visit-eq-overlay (try_read item.buffer_bytes) ms item.filename _ d,
  )

  -- `LFS_OP_EXISTS` over the mounts to ask, in that order: the first device that has the file ends
  -- it, and only then is the result `LFS_OK`.
  pub exists_from : List (MountInfo W) → Text → WorkItem → W → Option (WorkItem × W)
  exists_from [] path item w = some (item, w)
  exists_from (m ∷ ms) path item w = do
    file_exists ← m.interface.file_exists
    let (found, w') = file_exists m.device (device_path path m) w
    let rest = exists_from ms path item w'
    if found then some (record item { result_code = ok }, w') else rest

  -- `LFS_OP_FILE_SIZE`: each device asked sets the size and the result, and only one that
  -- answers `LFS_NOT_FOUND` passes the request on.
  pub size_from : List (MountInfo W) → Text → WorkItem → W → Option (WorkItem × W)
  size_from [] path item w = some (item, w)
  size_from (m ∷ ms) path item w = do
    file_size ← m.interface.file_size
    let (bytes, code, w') = file_size m.device (device_path path m) item.result_code w
    let answered = record item { buffer_bytes = bytes; result_code = code }
    let rest = size_from ms path answered w'
    if is_not_found code then rest else some (answered, w')

  -- `LFS_OP_READ` of at most `max_bytes` bytes, in the same way.
  pub read_from : ℕ → List (MountInfo W) → Text → WorkItem → W → Option (WorkItem × W)
  read_from max_bytes [] path item w = some (item, w)
  read_from max_bytes (m ∷ ms) path item w = do
    read_file ← m.interface.read_file
    let (bytes, buffer, code, w') =
        read_file m.device (device_path path m) item.offset max_bytes item.buffer
          item.null_terminate item.result_code w
    let answered = record item { buffer_bytes = bytes; buffer = buffer; result_code = code }
    let rest = read_from max_bytes ms path answered w'
    if is_not_found code then rest else some (answered, w')

  overlay-exists_from :
      (ms : List (MountInfo W)) (path : Text) (item : WorkItem) (w : W)
      → overlay try_exists path ms (item, w) ≡ exists_from ms path item w
  unfolding overlay try_exists exists_from
  overlay-exists_from [] path item w = refl
  overlay-exists_from (m ∷ ms) path item w = elim (Option-cases m.interface.file_exists) [
    | inl e ↦ simp e refl
    | inr (f, e) ↦ elim (Bool-cases (f m.device (device_path path m) w).0) [
      | inl t ↦ simp (e, t) refl
      | inr t ↦ simp (e, t) (overlay-exists_from ms path item (f m.device (device_path path m) w).1)
    ]
  ]

  overlay-size_from :
      (ms : List (MountInfo W)) (path : Text) (item : WorkItem) (w : W)
      → overlay try_size path ms (item, w) ≡ size_from ms path item w
  unfolding overlay try_size size_from
  overlay-size_from [] path item w = refl
  overlay-size_from (m ∷ ms) path item w = elim (Option-cases m.interface.file_size) [
    | inl e ↦ simp e refl
    | inr (f, e) ↦
        let (bytes, code, w') = f m.device (device_path path m) item.result_code w in
        elim (Bool-cases (is_not_found code)) [
          | inl t ↦
              simp (e, t)
                (overlay-size_from ms path
                  (record item { buffer_bytes = bytes; result_code = code }) w')
          | inr t ↦ simp (e, t) refl
        ]
  ]

  overlay-read_from :
      (max_bytes : ℕ) (ms : List (MountInfo W)) (path : Text) (item : WorkItem) (w : W)
      → overlay (try_read max_bytes) path ms (item, w) ≡ read_from max_bytes ms path item w
  unfolding overlay try_read read_from
  overlay-read_from max_bytes [] path item w = refl
  overlay-read_from max_bytes (m ∷ ms) path item w = elim (Option-cases m.interface.read_file) [
    | inl e ↦ simp e refl
    | inr (f, e) ↦
        let (bytes, buffer, code, w') =
          f m.device (device_path path m) item.offset max_bytes item.buffer item.null_terminate
            item.result_code w in
        elim (Bool-cases (is_not_found code)) [
          | inl t ↦
              simp (e, t)
                (overlay-read_from max_bytes ms path
                  (record item { buffer_bytes = bytes; buffer = buffer; result_code = code }) w')
          | inr t ↦ simp (e, t) refl
        ]
  ]

  -- Over mounts with different addresses, the operations that read ask the mounts that can be read
  -- and serve the path, the newest first. `LFS_OP_EXISTS` ends at the first device that has the
  -- file, with `LFS_OK`, and is `LFS_NOT_FOUND` if none has it. The size and the reading end at the
  -- first device whose answer is not `LFS_NOT_FOUND`; the item holds the answer of the last device
  -- asked, or no bytes and `LFS_NOT_FOUND` if there is none.
  pub perform-overlay :
      (ms : List (MountInfo W)) (item : WorkItem) (w : W)
      → Distinct ms
      → (perform_exists ms item w
          ≡ exists_from
              (readable item.filename (reverse ms))
              item.filename
              (record item { result_code = not_found })
              w)
        × (perform_size ms item w
            ≡ size_from
                (readable item.filename (reverse ms))
                item.filename
                (record item { result_code = not_found; buffer_bytes = 0 })
                w)
        × (perform_read ms item w
            ≡ read_from item.buffer_bytes
                (readable item.filename (reverse ms))
                item.filename
                (record item { result_code = not_found; buffer_bytes = 0 })
                w)
  perform-overlay ms item w d =
      let served = readable item.filename (reverse ms) in
      let unread = record item { result_code = not_found; buffer_bytes = 0 } in
      let (exists, size, read) = operations-overlay ms item w d in
      (
        exists
            ∙ overlay-exists_from served item.filename (record item { result_code = not_found }) w,
        size ∙ overlay-size_from served item.filename unread w,
        read ∙ overlay-read_from item.buffer_bytes served item.filename unread w,
      )
