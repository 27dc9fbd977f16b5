-- ===== src/Context/Requests.antt =====
-- src/FileContext.cpp: the public functions that queue a work item, each as the request that it
-- makes. The result is the address of the item (0 for none), whether it is queued, and the context.
use lamina_fs.Prelude.{ℕ, ◌-◌, ◌^◌, Bool, Option, none, some, ◌==◌, if◌then◌else◌, ◌>>=◌}
use lamina_fs.Types.{
  BufferAction, do_not_free_buffer, Operation, exists, size, read, write, append, write_segment,
  delete, create_dir, delete_dir, Text, Bytes,
}
use lamina_fs.WorkItem.{WorkItem}
use lamina_fs.Context.{FileContext, Request, submit, update}

-- `alloc ? *alloc : _alloc`
abbrev pub or_default : Option ℕ → ℕ → ℕ
or_default none default = default
or_default (some alloc) default = alloc

-- `static_cast<uint64_t>(-1)`
abbrev pub no_limit : ℕ
no_limit = 2 ^ 64 - 1

abbrev pub read_fields : ℕ → ℕ → Bool → ℕ → WorkItem → WorkItem
read_fields offset max_bytes null_terminate alloc item = record item {
  allocator = some alloc;
  null_terminate = null_terminate;
  buffer_bytes = max_bytes;
  offset = offset;
}

abbrev pub write_fields : ℕ → Bytes → ℕ → WorkItem → WorkItem
write_fields offset buffer buffer_bytes item = record item {
  buffer = some buffer;
  buffer_bytes = buffer_bytes;
  offset = offset;
}

abbrev pub append_fields : Bytes → ℕ → WorkItem → WorkItem
append_fields buffer buffer_bytes item = record item {
  buffer = some buffer;
  buffer_bytes = buffer_bytes;
}

-- A request with no callback, and one with a callback.
abbrev pub plain_request : Text → Operation → (WorkItem → WorkItem) → Request
plain_request path op fill = record {
  path = path;
  operation = op;
  callback = none;
  user_data = 0;
  action = do_not_free_buffer;
  fill = fill;
}

abbrev pub callback_request :
    Text → Operation → ℕ → BufferAction → ℕ → (WorkItem → WorkItem) → Request
callback_request path op callback action user_data fill = record {
  path = path;
  operation = op;
  callback = some callback;
  user_data = user_data;
  action = action;
  fill = fill;
}

module _ {W : Type 0} where
  unfoldable pub read_file_segment :
      Text → ℕ → ℕ → Bool → Option ℕ → FileContext W → Option (ℕ × Bool × FileContext W)
  unfolding submit
  read_file_segment path offset max_bytes null_terminate alloc ctx =
      submit
        (plain_request path read
          (read_fields offset max_bytes null_terminate (or_default alloc ctx.alloc)))
        ctx

  unfoldable pub read_file :
      Text → Bool → Option ℕ → FileContext W → Option (ℕ × Bool × FileContext W)
  unfolding read_file_segment
  read_file path null_terminate alloc ctx =
      read_file_segment path 0 no_limit null_terminate alloc ctx

  unfoldable pub read_file_segment_with_callback :
      Text
      → ℕ
      → ℕ
      → Bool
      → ℕ
      → BufferAction
      → ℕ
      → Option ℕ
      → FileContext W
      → Option (ℕ × Bool × FileContext W)
  unfolding submit
  read_file_segment_with_callback path offset max_bytes null_terminate callback action user_data
        alloc ctx =
      submit
        (callback_request path read callback action user_data
          (read_fields offset max_bytes null_terminate (or_default alloc ctx.alloc)))
        ctx

  unfoldable pub read_file_with_callback :
      Text
      → Bool
      → ℕ
      → BufferAction
      → ℕ
      → Option ℕ
      → FileContext W
      → Option (ℕ × Bool × FileContext W)
  unfolding read_file_segment_with_callback
  read_file_with_callback path null_terminate callback action user_data alloc ctx =
      read_file_segment_with_callback path 0 no_limit null_terminate callback action user_data alloc
        ctx

  unfoldable pub write_file_segment :
      Text → ℕ → Bytes → ℕ → FileContext W → Option (ℕ × Bool × FileContext W)
  unfolding submit
  write_file_segment path offset buffer buffer_bytes ctx =
      submit (plain_request path write_segment (write_fields offset buffer buffer_bytes)) ctx

  -- `item->_operation = LFS_OP_WRITE`, which `writeFile` does after the item has been queued.
  pub set_write : ℕ → FileContext W → FileContext W
  set_write p ctx =
      if p == 0
      then ctx
      else record ctx { items = update ctx.items p (record (ctx.items p) { operation = write }) }

  -- While `push` spins the assignment is still to come.
  unfoldable pub write_file : Text → Bytes → ℕ → FileContext W → Option (ℕ × Bool × FileContext W)
  unfolding write_file_segment set_write
  write_file path buffer buffer_bytes ctx = do
    (p, done, ctx') ← write_file_segment path 0 buffer buffer_bytes ctx
    some (p, done, if done then set_write p ctx' else ctx')

  unfoldable pub write_file_with_callback :
      Text → Bytes → ℕ → ℕ → BufferAction → ℕ → FileContext W → Option (ℕ × Bool × FileContext W)
  unfolding submit
  write_file_with_callback path buffer buffer_bytes callback action user_data ctx =
      submit
        (callback_request path write callback action user_data (write_fields 0 buffer buffer_bytes))
        ctx

  unfoldable pub write_file_segment_with_callback :
      Text
      → ℕ
      → Bytes
      → ℕ
      → ℕ
      → BufferAction
      → ℕ
      → FileContext W
      → Option (ℕ × Bool × FileContext W)
  unfolding submit
  write_file_segment_with_callback path offset buffer buffer_bytes callback action user_data ctx =
      submit
        (callback_request path write_segment callback action user_data
          (write_fields offset buffer buffer_bytes))
        ctx

  unfoldable pub append_file : Text → Bytes → ℕ → FileContext W → Option (ℕ × Bool × FileContext W)
  unfolding submit
  append_file path buffer buffer_bytes ctx =
      submit (plain_request path append (append_fields buffer buffer_bytes)) ctx

  unfoldable pub append_file_with_callback :
      Text → Bytes → ℕ → ℕ → BufferAction → ℕ → FileContext W → Option (ℕ × Bool × FileContext W)
  unfolding submit
  append_file_with_callback path buffer buffer_bytes callback action user_data ctx =
      submit
        (callback_request path append callback action user_data (append_fields buffer buffer_bytes))
        ctx

  unfoldable pub file_exists : Text → FileContext W → Option (ℕ × Bool × FileContext W)
  unfolding submit
  file_exists path ctx = submit (plain_request path exists (λ item. item)) ctx

  unfoldable pub file_exists_with_callback :
      Text → ℕ → ℕ → FileContext W → Option (ℕ × Bool × FileContext W)
  unfolding submit
  file_exists_with_callback path callback user_data ctx =
      submit (callback_request path exists callback do_not_free_buffer user_data (λ item. item)) ctx

  unfoldable pub file_size : Text → FileContext W → Option (ℕ × Bool × FileContext W)
  unfolding submit
  file_size path ctx = submit (plain_request path size (λ item. item)) ctx

  unfoldable pub file_size_with_callback :
      Text → ℕ → ℕ → FileContext W → Option (ℕ × Bool × FileContext W)
  unfolding submit
  file_size_with_callback path callback user_data ctx =
      submit (callback_request path size callback do_not_free_buffer user_data (λ item. item)) ctx

  unfoldable pub delete_file : Text → FileContext W → Option (ℕ × Bool × FileContext W)
  unfolding submit
  delete_file path ctx = submit (plain_request path delete (λ item. item)) ctx

  unfoldable pub delete_file_with_callback :
      Text → ℕ → ℕ → FileContext W → Option (ℕ × Bool × FileContext W)
  unfolding submit
  delete_file_with_callback path callback user_data ctx =
      submit (callback_request path delete callback do_not_free_buffer user_data (λ item. item)) ctx

  unfoldable pub create_dir_at : Text → FileContext W → Option (ℕ × Bool × FileContext W)
  unfolding submit
  create_dir_at path ctx = submit (plain_request path create_dir (λ item. item)) ctx

  unfoldable pub create_dir_at_with_callback :
      Text → ℕ → ℕ → FileContext W → Option (ℕ × Bool × FileContext W)
  unfolding submit
  create_dir_at_with_callback path callback user_data ctx =
      submit (callback_request path create_dir callback do_not_free_buffer user_data (λ item. item))
        ctx

  unfoldable pub delete_dir_at : Text → FileContext W → Option (ℕ × Bool × FileContext W)
  unfolding submit
  delete_dir_at path ctx = submit (plain_request path delete_dir (λ item. item)) ctx

  unfoldable pub delete_dir_at_with_callback :
      Text → ℕ → ℕ → FileContext W → Option (ℕ × Bool × FileContext W)
  unfolding submit
  delete_dir_at_with_callback path callback user_data ctx =
      submit (callback_request path delete_dir callback do_not_free_buffer user_data (λ item. item))
        ctx
