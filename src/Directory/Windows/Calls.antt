-- ===== src/Directory/Windows/Calls.antt =====
-- The operating system as the Windows branches of src/device/Directory.cpp call it. Each call takes and
-- returns the state of the system, `W`, of which the last error is a part; `false` is the result
-- FALSE, and `none` an invalid handle or a value that says that the call failed.
use lamina_fs.Prelude.{ℕ, Bool, Option, List}
use lamina_fs.Types.{Text, Bytes}

-- A path of wide characters before its terminator.
abbrev pub Wide : Type 0
Wide = List ℕ

-- The values of `GetLastError` that the code names, and the others.
pub data LastError : Type 0 where
  error_file_not_found error_path_not_found error_access_denied : LastError
  error_already_exists error_disk_full : LastError
  error_other : ℕ → LastError

-- `dwDesiredAccess`, `dwCreationDisposition` and `dwMoveMethod`
pub data Access : Type 0 where
  generic_read generic_write : Access

pub data Creation : Type 0 where
  open_existing create_always open_always : Creation

pub data MoveMethod : Type 0 where
  file_begin file_end : MoveMethod

-- `multi_byte_to_wide_char` is the conversion into a buffer of so many wide characters, with the
-- terminator: `none` is the result 0, for a buffer that is too small. `get_file_attributes` says
-- whether the path is a directory. `set_file_pointer` takes the two halves of the distance as one
-- number and returns the low 32 bits of the position, or 2 ^ 32 - 1 when it fails. `close_handle`
-- takes `none` for an invalid handle. `read_file` is told whether the buffer is one that the client's
-- allocator, `alloc`, has returned.
pub record Win32 (W : Type 0) : Type 0 where
  pub multi_byte_to_wide_char : Text → ℕ → Option Wide
  pub get_last_error : W → LastError
  pub get_file_attributes : Wide → W → Option Bool × W
  pub create_file : Wide → Access → Creation → W → Option ℕ × W
  pub get_file_size_ex : ℕ → W → Option ℕ × W
  pub set_file_pointer : ℕ → ℕ → MoveMethod → W → ℕ × W
  pub read_file : ℕ → Bool → ℕ → W → Option Bytes × W
  pub write_file : ℕ → Bytes → W → Option ℕ × W
  pub close_handle : Option ℕ → W → W
  pub delete_file : Wide → W → Bool × W
  pub create_directory : Wide → W → Bool × W
  pub sh_file_operation : Wide → W → ℕ × W
  pub alloc : ℕ → W → Bool × W
