-- ===== src/Processing/Keeps.antt =====
-- What `processingFunc` leaves of a work item while it runs the item's operation.
use lamina_fs.Prelude.{
  ℕ, zero, suc, Bool, true, false, ◌≡◌, refl, Option, none, some, Option-cases, Bool-cases, inl,
  inr, List, length,
}
use lamina_fs.Types.{
  Text, ErrorCode, Operation, exists, size, read, write, append, write_segment, delete, create_dir,
  delete_dir,
}
use lamina_fs.Device.{DeviceInterface}
use lamina_fs.WorkItem.{WorkItem}
use lamina_fs.Mounts.{MountInfo, find_next, find_mutable}
use lamina_fs.Processing.{
  visit, try_exists, try_size, try_read, perform_exists, perform_size, perform_read, perform_write,
  perform_change, perform,
}

-- All of an item but its result code, its buffer and its byte count.
pub record Keeps (item item' : WorkItem) : Type 0 where
  pub operation : item'.operation ≡ item.operation
  pub callback : item'.callback ≡ item.callback
  pub user_data : item'.callback_user_data ≡ item.callback_user_data
  pub allocator : item'.allocator ≡ item.allocator
  pub filename : item'.filename ≡ item.filename
  pub offset : item'.offset ≡ item.offset
  pub action : item'.callback_buffer_action ≡ item.callback_buffer_action
  pub completed : item'.completed ≡ item.completed
  pub null_terminate : item'.null_terminate ≡ item.null_terminate

-- A property of the result, if there is one.
abbrev pub IfSome {ℓ} : {A : Type ℓ} → (A → Type 0) → Option A → Type 0
IfSome P none = Unit
IfSome P (some a) = P a

module _ {W : Type 0} {S : Type 0} (P : S → Type 0)
    (body : MountInfo W → Text → S → Option (Bool × S))
    (keeps : (m : MountInfo W) (at : Text) (s : S) → P s → IfSome (λ r. P r.1) (body m at s))
    (ms : List (MountInfo W)) (path : Text) where
  visit-keeps :
      (fuel : ℕ) (start : Option ℕ) (s : S) → P s → IfSome P (visit fuel body ms path start s)
  unfolding visit
  visit-keeps zero start s h = tt
  visit-keeps (suc fuel) start s h = elim (Option-cases (find_next ms path start)) [
    | inl e ↦ rw (e, visit) h
    | inr ((m, at), e) ↦
        let k = keeps m at s h in
        elim (Option-cases (body m at s)) [
          | inl b ↦ rw (e, visit, b) tt
          | inr ((true, s'), b) ↦ rw (e, visit, b) (rw b at k)
          | inr ((false, s'), b) ↦
              rw (e, visit, b) (visit-keeps fuel (some m.address) s' (rw b at k))
        ]
  ]

module _ {W : Type 0} (item : WorkItem) where
  abbrev KeepsFirst : WorkItem × W → Type 0
  KeepsFirst r = Keeps item r.0

  exists-keeps :
      (m : MountInfo W) (at : Text) (s : WorkItem × W)
      → KeepsFirst s
      → IfSome (λ r. KeepsFirst r.1) (try_exists m at s)
  unfolding try_exists
  exists-keeps m at (i, w) h = elim (Option-cases m.interface.file_exists) [
    | inl e ↦ rw (e, try_exists) tt
    | inr (f, e) ↦ elim (Bool-cases (f m.device at w).0) [
      | inl t ↦
          simp (e, t)
            (record {
              operation = h.operation;
              callback = h.callback;
              user_data = h.user_data;
              allocator = h.allocator;
              filename = h.filename;
              offset = h.offset;
              action = h.action;
              completed = h.completed;
              null_terminate = h.null_terminate;
            })
      | inr t ↦ simp (e, t) h
    ]
  ]

  size-keeps :
      (m : MountInfo W) (at : Text) (s : WorkItem × W)
      → KeepsFirst s
      → IfSome (λ r. KeepsFirst r.1) (try_size m at s)
  unfolding try_size
  size-keeps m at (i, w) h = elim (Option-cases m.interface.file_size) [
    | inl e ↦ rw (e, try_size) tt
    | inr (f, e) ↦ simp e (record {
      operation = h.operation;
      callback = h.callback;
      user_data = h.user_data;
      allocator = h.allocator;
      filename = h.filename;
      offset = h.offset;
      action = h.action;
      completed = h.completed;
      null_terminate = h.null_terminate;
    })
  ]

  read-keeps :
      (max_bytes : ℕ) (m : MountInfo W) (at : Text) (s : WorkItem × W)
      → KeepsFirst s
      → IfSome (λ r. KeepsFirst r.1) (try_read max_bytes m at s)
  unfolding try_read
  read-keeps max_bytes m at (i, w) h = elim (Option-cases m.interface.read_file) [
    | inl e ↦ rw (e, try_read) tt
    | inr (f, e) ↦ simp e (record {
      operation = h.operation;
      callback = h.callback;
      user_data = h.user_data;
      allocator = h.allocator;
      filename = h.filename;
      offset = h.offset;
      action = h.action;
      completed = h.completed;
      null_terminate = h.null_terminate;
    })
  ]

  write-keeps : (ms : List (MountInfo W)) (w : W) → IfSome KeepsFirst (perform_write ms item w)
  unfolding perform_write
  write-keeps ms w = elim (Option-cases (find_mutable ms item.filename item.operation)) [
    | inl e ↦ rw (e, perform_write) unchanged
    | inr ((m, at), e) ↦ elim (Option-cases m.interface.write_file) [
      | inl f ↦ rw (e, perform_write) (simp f tt)
      | inr (write_file, f) ↦ rw (e, perform_write) (simp f unchanged)
    ]
  ]
    where
      unchanged :
          {n : ℕ} {c : ErrorCode} → Keeps item (record item { buffer_bytes = n; result_code = c })
      unchanged = record {
        operation = refl;
        callback = refl;
        user_data = refl;
        allocator = refl;
        filename = refl;
        offset = refl;
        action = refl;
        completed = refl;
        null_terminate = refl;
      }

  change-keeps :
      (pick : DeviceInterface W → Option (ℕ → Text → W → ErrorCode × W)) (ms : List (MountInfo W))
      (w : W)
      → IfSome KeepsFirst (perform_change pick ms item w)
  unfolding perform_change
  change-keeps pick ms w = elim (Option-cases (find_mutable ms item.filename item.operation)) [
    | inl e ↦ rw (e, perform_change) unchanged
    | inr ((m, at), e) ↦ elim (Option-cases (pick m.interface)) [
      | inl f ↦ rw (e, perform_change) (simp f tt)
      | inr (change, f) ↦ rw (e, perform_change) (simp f unchanged)
    ]
  ]
    where
      unchanged : {c : ErrorCode} → Keeps item (record item { result_code = c })
      unchanged = record {
        operation = refl;
        callback = refl;
        user_data = refl;
        allocator = refl;
        filename = refl;
        offset = refl;
        action = refl;
        completed = refl;
        null_terminate = refl;
      }

  abbrev by_operation : List (MountInfo W) → W → Operation → Option (WorkItem × W)
  by_operation ms w op = elim op [
    | exists ↦ perform_exists ms item w
    | size ↦ perform_size ms item w
    | read ↦ perform_read ms item w
    | write ↦ perform_write ms item w
    | append ↦ perform_write ms item w
    | write_segment ↦ perform_write ms item w
    | delete ↦ perform_change (λ i. i.delete_file) ms item w
    | create_dir ↦ perform_change (λ i. i.create_dir) ms item w
    | delete_dir ↦ perform_change (λ i. i.delete_dir) ms item w
  ]

  perform-by_operation :
      (ms : List (MountInfo W)) (w : W) → perform ms item w ≡ by_operation ms w item.operation
  unfolding perform
  perform-by_operation ms w = refl

  perform-keeps : (ms : List (MountInfo W)) (w : W) → IfSome KeepsFirst (perform ms item w)
  unfolding perform_exists perform_size perform_read
  perform-keeps ms w = rw (perform-by_operation ms w) (go item.operation)
    where
      unchanged :
          {n : ℕ} {c : ErrorCode} → Keeps item (record item { buffer_bytes = n; result_code = c })
      unchanged = record {
        operation = refl;
        callback = refl;
        user_data = refl;
        allocator = refl;
        filename = refl;
        offset = refl;
        action = refl;
        completed = refl;
        null_terminate = refl;
      }

      go : (op : Operation) → IfSome KeepsFirst (by_operation ms w op)
      go exists =
          visit-keeps KeepsFirst try_exists exists-keeps ms item.filename (suc (length ms)) none _
            unchanged
      go size =
          visit-keeps KeepsFirst try_size size-keeps ms item.filename (suc (length ms)) none _
            unchanged
      go read =
          visit-keeps KeepsFirst (try_read item.buffer_bytes) (read-keeps item.buffer_bytes) ms
            item.filename (suc (length ms)) none _ unchanged
      go write = write-keeps ms w
      go append = write-keeps ms w
      go write_segment = write-keeps ms w
      go delete = change-keeps (λ i. i.delete_file) ms w
      go create_dir = change-keeps (λ i. i.create_dir) ms w
      go delete_dir = change-keeps (λ i. i.delete_dir) ms w

  -- Whatever the operation and the devices, processing an item changes only its result code, its
  -- buffer and its byte count.
  pub perform-Keeps :
      (ms : List (MountInfo W)) (w : W) (r : WorkItem × W)
      → perform ms item w ≡ some r
      → Keeps item r.0
  perform-Keeps ms w r e = let k = perform-keeps ms w in rw e at k
