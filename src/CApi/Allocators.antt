-- ===== src/CApi/Allocators.antt =====
-- The C functions for reading that take no allocator.
use lamina_fs.Prelude.{ℕ, Bool, none, ◌≡◌, refl}
use lamina_fs.Types.{BufferAction, Text}
use lamina_fs.Context.{FileContext}
use lamina_fs.Context.Requests.{no_limit}
use lamina_fs.CApi.{
  lfs_read_file, lfs_read_file_with_callback, lfs_read_file_ctx_alloc,
  lfs_read_file_ctx_alloc_with_callback, lfs_read_file_segment, lfs_read_file_segment_with_callback,
  lfs_read_file_segment_ctx_alloc, lfs_read_file_segment_ctx_alloc_with_callback,
}

-- A read without an allocator is a read with the null allocator, and a read of a file is the read
-- of the segment from 0 on without a limit, with a callback and without.
pub ctx_alloc_null :
    {W : Type 0} (ctx : FileContext W) (path : Text) (null_terminate : Bool) (callback : ℕ)
    (action : BufferAction) (user_data : ℕ)
    → (lfs_read_file_ctx_alloc ctx path null_terminate ≡ lfs_read_file ctx path null_terminate none)
      × (lfs_read_file ctx path null_terminate none
          ≡ lfs_read_file_segment_ctx_alloc ctx path 0 no_limit null_terminate)
      × (lfs_read_file_ctx_alloc_with_callback ctx path null_terminate callback action user_data
          ≡ lfs_read_file_with_callback ctx path null_terminate none callback action user_data)
      × (lfs_read_file_with_callback ctx path null_terminate none callback action user_data
          ≡ lfs_read_file_segment_ctx_alloc_with_callback ctx path 0 no_limit null_terminate
              callback action user_data)
unfolding lfs_read_file lfs_read_file_with_callback lfs_read_file_ctx_alloc
    lfs_read_file_ctx_alloc_with_callback lfs_read_file_segment lfs_read_file_segment_with_callback
    lfs_read_file_segment_ctx_alloc lfs_read_file_segment_ctx_alloc_with_callback
ctx_alloc_null ctx path null_terminate callback action user_data = (refl, refl, refl, refl)
