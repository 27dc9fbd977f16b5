-- ===== src/Types.antt =====
-- src/shared_types.h and the enumerations of src/FileContext.cpp.
use lamina_fs.Prelude.{ℕ, Bool, true, false, List}

-- `lfs_error_code_t`
pub data ErrorCode : Type 0 where
  ok generic_error not_found unsupported already_exists permissions_error out_of_space : ErrorCode
  invalid_device out_of_work_items : ErrorCode

-- `result == LFS_NOT_FOUND`, `result == LFS_OK`
abbrev pub is_not_found : ErrorCode → Bool
is_not_found not_found = true
is_not_found _ = false

abbrev pub is_ok : ErrorCode → Bool
is_ok ok = true
is_ok _ = false

-- `lfs_write_mode_t`
pub data WriteMode : Type 0 where
  truncate append segment : WriteMode

-- `lfs_callback_buffer_action_t`
pub data BufferAction : Type 0 where
  do_not_free_buffer free_buffer : BufferAction

-- `lfs_file_operation_t`
pub data Operation : Type 0 where
  exists size read write append write_segment delete create_dir delete_dir : Operation

-- `lfs_mount_permissions_t`
abbrev pub mount_default : ℕ
mount_default = 0

abbrev pub mount_read : ℕ
mount_read = 1

abbrev pub mount_write_file : ℕ
mount_write_file = 2

abbrev pub mount_delete_file : ℕ
mount_delete_file = 4

abbrev pub mount_create_dir : ℕ
mount_create_dir = 8

abbrev pub mount_delete_dir : ℕ
mount_delete_dir = 16

-- The bytes of a C string before its terminator.
abbrev pub Text : Type 0
Text = List ℕ

-- A buffer that the program holds a pointer to: its bytes.
abbrev pub Bytes : Type 0
Bytes = List ℕ
