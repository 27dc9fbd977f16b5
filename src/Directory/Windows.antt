-- ===== src/Directory/Windows.antt =====
-- src/device/Directory.cpp, as it is compiled for Windows: the paths, and the operations but `readFile`
-- and `writeFile`. `none` is a fault: a write past the end of a buffer, or a path that is read from a
-- buffer that its conversion did not fill.
pub mod Calls
pub mod Files
pub mod Laws
pub mod Reading
pub mod ReadFile
pub mod Writing
pub mod WriteFile
pub mod Memory
pub mod MemoryLawful
mod Tests
use lamina_fs.Prelude.{
  ℕ, ◌-◌, Bool, false, not, Option, none, some, [], map, ◌==◌, if◌then◌else◌, ◌>>=◌,
}
use lamina_fs.Types.{
  ErrorCode, ok, generic_error, not_found, already_exists, permissions_error, out_of_space, Text,
}
use lamina_fs.Directory.{DirectoryDevice, init, get_device_path}
use lamina_fs.Directory.Windows.Calls.{
  Wide, LastError, error_file_not_found, error_path_not_found, error_access_denied,
  error_already_exists, error_disk_full, error_other, Access, Creation, generic_read, open_existing,
  Win32,
}

-- `MAX_PATH_LEN`
abbrev pub max_path_len : ℕ
max_path_len = 1024

-- `convertError`
unfoldable pub convert_error : LastError → ErrorCode
convert_error error_file_not_found = not_found
convert_error error_path_not_found = not_found
convert_error error_access_denied = permissions_error
convert_error error_already_exists = already_exists
convert_error error_disk_full = out_of_space
convert_error (error_other n) = generic_error

-- The loop of `getDevicePath` that replaces '/', 47, by '\', 92.
abbrev pub with_backslashes : Text → Text
with_backslashes = map (λ c. if c == 47 then 92 else c)

-- `getDevicePath`
unfoldable pub disk_path : DirectoryDevice → Text → Option Text
unfolding get_device_path
disk_path dev file_path = do path ← get_device_path dev file_path; some (with_backslashes path)

-- The result of `SHFileOperationW`.
abbrev pub operation_error : ℕ → ErrorCode
operation_error n =
    if n == 0
    then ok
    else if n == 124
    then not_found
    else if n == 120
    then permissions_error
    else if n == 134
    then permissions_error
    else if n == 135
    then permissions_error
    else generic_error

module _ {W : Type 0} (os : Win32 W) where
  -- `widen`
  unfoldable pub widen : Text → ℕ → Option Wide
  widen in_str out_str_len = os.multi_byte_to_wide_char in_str out_str_len

  -- `getDevicePath` and the conversion, as the operations call them.
  abbrev pub windows_path : DirectoryDevice → Text → Option Wide
  windows_path dev file_path = do path ← disk_path dev file_path; widen path max_path_len

  -- `create`: the result, and `*device`, which is left as it is when there is none.
  unfoldable pub create :
      Text → Option DirectoryDevice → W → Option (ErrorCode × Option DirectoryDevice × W)
  unfolding init widen
  create path device w = do
    wide ← widen path max_path_len
    let (attributes, w') = os.get_file_attributes wide w
    some (elim attributes [
      | none ↦ (not_found, device, w')
      | some is_dir ↦ if is_dir then (ok, some (init path), w') else (not_found, device, w')
    ])

  -- `openFile`
  unfoldable pub open_file : DirectoryDevice → Text → Access → Creation → W → Option (Option ℕ × W)
  unfolding disk_path widen
  open_file dev file_path access_mode create_mode w = do
    wide ← windows_path dev file_path
    some (os.create_file wide access_mode create_mode w)

  -- `fileExists`
  unfoldable pub file_exists : DirectoryDevice → Text → W → Option (Bool × W)
  unfolding disk_path widen
  file_exists dev file_path w = do
    wide ← windows_path dev file_path
    let (attributes, w') = os.get_file_attributes wide w
    some (elim attributes [ none ↦ (false, w') | some is_dir ↦ (not is_dir, w') ])

  -- `fileSize`: the size and `*outError`
  unfoldable pub file_size : DirectoryDevice → Text → W → Option (ℕ × ErrorCode × W)
  unfolding open_file convert_error
  file_size dev file_path w = do
    (opened, w₁) ← open_file dev file_path generic_read open_existing w
    some (elim opened [
      | none ↦ (0, convert_error (os.get_last_error w₁), w₁)
      | some file ↦
          let (result, w₂) = os.get_file_size_ex file w₁ in
          let w₃ = os.close_handle (some file) w₂ in
          elim result [
            | none ↦ (0, convert_error (os.get_last_error w₂), w₃)
            | some size ↦ (size, ok, w₃)
          ]
    ])

  -- `deleteFile`
  unfoldable pub delete_file : DirectoryDevice → Text → W → Option (ErrorCode × W)
  unfolding disk_path widen convert_error
  delete_file dev file_path w = do
    wide ← windows_path dev file_path
    let (done, w') = os.delete_file wide w
    some (if done then ok else convert_error (os.get_last_error w'), w')

  -- `createDir`
  unfoldable pub create_dir : DirectoryDevice → Text → W → Option (ErrorCode × W)
  unfolding disk_path widen convert_error
  create_dir dev path w = do
    wide ← windows_path dev path
    let (done, w') = os.create_directory wide w
    some (if done then ok else convert_error (os.get_last_error w'), w')

  -- The path that `deleteDir` puts in its buffer: the empty one when the conversion fails, since the
  -- terminator is then written over the first character.
  abbrev pub double_terminated : Option Wide → Wide
  double_terminated none = []
  double_terminated (some wide) = wide

  -- `deleteDir`
  unfoldable pub delete_dir : DirectoryDevice → Text → W → Option (ErrorCode × W)
  unfolding disk_path widen
  delete_dir dev path w = do
    disk ← disk_path dev path
    let (result, w') = os.sh_file_operation (double_terminated (widen disk (max_path_len - 1))) w
    some (operation_error result, w')
