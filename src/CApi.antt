-- ===== src/CApi.antt =====
-- src/laminaFS_c.cpp: the C functions that pass a request on to a `FileContext`. A null allocator
-- is `none`. The order of the arguments is that of the C functions.
pub mod Allocators
pub mod Contexts
use lamina_fs.Prelude.{ℕ, Bool, Option, none, List}
use lamina_fs.Types.{BufferAction, Text, Bytes}
use lamina_fs.Context.{FileContext}
use lamina_fs.Context.Requests.{
  append_file, append_file_with_callback, create_dir_at, create_dir_at_with_callback, delete_dir_at,
  delete_dir_at_with_callback, delete_file, delete_file_with_callback, file_exists,
  file_exists_with_callback, file_size, file_size_with_callback, read_file, read_file_segment,
  read_file_segment_with_callback, read_file_with_callback, write_file, write_file_segment,
  write_file_segment_with_callback, write_file_with_callback,
}

module _ {W : Type 0} where
  pub lfs_read_file : FileContext W → Text → Bool → Option ℕ → Option (ℕ × Bool × FileContext W)
  unfolding read_file
  lfs_read_file ctx path null_terminate alloc = read_file path null_terminate alloc ctx

  pub lfs_read_file_with_callback :
      FileContext W
      → Text
      → Bool
      → Option ℕ
      → ℕ
      → BufferAction
      → ℕ
      → Option (ℕ × Bool × FileContext W)
  unfolding read_file_with_callback
  lfs_read_file_with_callback ctx path null_terminate alloc callback action user_data =
      read_file_with_callback path null_terminate callback action user_data alloc ctx

  pub lfs_read_file_ctx_alloc : FileContext W → Text → Bool → Option (ℕ × Bool × FileContext W)
  unfolding read_file
  lfs_read_file_ctx_alloc ctx path null_terminate = read_file path null_terminate none ctx

  pub lfs_read_file_ctx_alloc_with_callback :
      FileContext W → Text → Bool → ℕ → BufferAction → ℕ → Option (ℕ × Bool × FileContext W)
  unfolding read_file_with_callback
  lfs_read_file_ctx_alloc_with_callback ctx path null_terminate callback action user_data =
      read_file_with_callback path null_terminate callback action user_data none ctx

  pub lfs_read_file_segment :
      FileContext W → Text → ℕ → ℕ → Bool → Option ℕ → Option (ℕ × Bool × FileContext W)
  unfolding read_file_segment
  lfs_read_file_segment ctx path offset max_bytes null_terminate alloc =
      read_file_segment path offset max_bytes null_terminate alloc ctx

  pub lfs_read_file_segment_with_callback :
      FileContext W
      → Text
      → ℕ
      → ℕ
      → Bool
      → Option ℕ
      → ℕ
      → BufferAction
      → ℕ
      → Option (ℕ × Bool × FileContext W)
  unfolding read_file_segment_with_callback
  lfs_read_file_segment_with_callback ctx path offset max_bytes null_terminate alloc callback action
        user_data =
      read_file_segment_with_callback path offset max_bytes null_terminate callback action user_data
        alloc ctx

  pub lfs_read_file_segment_ctx_alloc :
      FileContext W → Text → ℕ → ℕ → Bool → Option (ℕ × Bool × FileContext W)
  unfolding read_file_segment
  lfs_read_file_segment_ctx_alloc ctx path offset max_bytes null_terminate =
      read_file_segment path offset max_bytes null_terminate none ctx

  pub lfs_read_file_segment_ctx_alloc_with_callback :
      FileContext W → Text → ℕ → ℕ → Bool → ℕ → BufferAction → ℕ → Option (ℕ × Bool × FileContext W)
  unfolding read_file_segment_with_callback
  lfs_read_file_segment_ctx_alloc_with_callback ctx path offset max_bytes null_terminate callback
        action user_data =
      read_file_segment_with_callback path offset max_bytes null_terminate callback action user_data
        none ctx

  pub lfs_write_file : FileContext W → Text → Bytes → ℕ → Option (ℕ × Bool × FileContext W)
  unfolding write_file
  lfs_write_file ctx path buffer buffer_bytes = write_file path buffer buffer_bytes ctx

  pub lfs_write_file_with_callback :
      FileContext W → Text → Bytes → ℕ → ℕ → BufferAction → ℕ → Option (ℕ × Bool × FileContext W)
  unfolding write_file_with_callback
  lfs_write_file_with_callback ctx path buffer buffer_bytes callback action user_data =
      write_file_with_callback path buffer buffer_bytes callback action user_data ctx

  pub lfs_write_file_segment :
      FileContext W → Text → ℕ → Bytes → ℕ → Option (ℕ × Bool × FileContext W)
  unfolding write_file_segment
  lfs_write_file_segment ctx path offset buffer buffer_bytes =
      write_file_segment path offset buffer buffer_bytes ctx

  pub lfs_write_file_segment_with_callback :
      FileContext W
      → Text
      → ℕ
      → Bytes
      → ℕ
      → ℕ
      → BufferAction
      → ℕ
      → Option (ℕ × Bool × FileContext W)
  unfolding write_file_segment_with_callback
  lfs_write_file_segment_with_callback ctx path offset buffer buffer_bytes callback action
        user_data =
      write_file_segment_with_callback path offset buffer buffer_bytes callback action user_data ctx

  pub lfs_append_file : FileContext W → Text → Bytes → ℕ → Option (ℕ × Bool × FileContext W)
  unfolding append_file
  lfs_append_file ctx path buffer buffer_bytes = append_file path buffer buffer_bytes ctx

  pub lfs_append_file_with_callback :
      FileContext W → Text → Bytes → ℕ → ℕ → BufferAction → ℕ → Option (ℕ × Bool × FileContext W)
  unfolding append_file_with_callback
  lfs_append_file_with_callback ctx path buffer buffer_bytes callback action user_data =
      append_file_with_callback path buffer buffer_bytes callback action user_data ctx

  pub lfs_file_exists : FileContext W → Text → Option (ℕ × Bool × FileContext W)
  unfolding file_exists
  lfs_file_exists ctx path = file_exists path ctx

  pub lfs_file_exists_with_callback :
      FileContext W → Text → ℕ → ℕ → Option (ℕ × Bool × FileContext W)
  unfolding file_exists_with_callback
  lfs_file_exists_with_callback ctx path callback user_data =
      file_exists_with_callback path callback user_data ctx

  pub lfs_file_size : FileContext W → Text → Option (ℕ × Bool × FileContext W)
  unfolding file_size
  lfs_file_size ctx path = file_size path ctx

  pub lfs_file_size_with_callback : FileContext W → Text → ℕ → ℕ → Option (ℕ × Bool × FileContext W)
  unfolding file_size_with_callback
  lfs_file_size_with_callback ctx path callback user_data =
      file_size_with_callback path callback user_data ctx

  pub lfs_delete_file : FileContext W → Text → Option (ℕ × Bool × FileContext W)
  unfolding delete_file
  lfs_delete_file ctx path = delete_file path ctx

  pub lfs_delete_file_with_callback :
      FileContext W → Text → ℕ → ℕ → Option (ℕ × Bool × FileContext W)
  unfolding delete_file_with_callback
  lfs_delete_file_with_callback ctx path callback user_data =
      delete_file_with_callback path callback user_data ctx

  pub lfs_create_dir : FileContext W → Text → Option (ℕ × Bool × FileContext W)
  unfolding create_dir_at
  lfs_create_dir ctx path = create_dir_at path ctx

  pub lfs_create_dir_with_callback :
      FileContext W → Text → ℕ → ℕ → Option (ℕ × Bool × FileContext W)
  unfolding create_dir_at_with_callback
  lfs_create_dir_with_callback ctx path callback user_data =
      create_dir_at_with_callback path callback user_data ctx

  pub lfs_delete_dir : FileContext W → Text → Option (ℕ × Bool × FileContext W)
  unfolding delete_dir_at
  lfs_delete_dir ctx path = delete_dir_at path ctx

  pub lfs_delete_dir_with_callback :
      FileContext W → Text → ℕ → ℕ → Option (ℕ × Bool × FileContext W)
  unfolding delete_dir_at_with_callback
  lfs_delete_dir_with_callback ctx path callback user_data =
      delete_dir_at_with_callback path callback user_data ctx
