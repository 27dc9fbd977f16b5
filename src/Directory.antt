-- ===== src/Directory.antt =====
-- src/device/Directory.cpp, as it is compiled for a POSIX system: the device that serves a directory
-- of the host. `none` is a fault, a write past the end of a buffer, or a loop out of fuel.
pub mod Calls
pub mod Files
pub mod Removal
pub mod Laws
pub mod Reading
pub mod Opening
pub mod ReadFile
pub mod EmptyFile
pub mod Reports
pub mod DeleteDir
mod Tests
pub mod Paths
pub mod Deleting
pub mod MemoryLawful
pub mod Memory
pub mod MemoryLaws
pub mod Errors
pub mod Writing
pub mod WriteFile
pub mod Contents
pub mod Portion
pub mod Retry
pub mod Windows
pub mod Interface
pub mod Mounted
pub mod RoundTrip
mod MountedTests
use lamina_fs.Prelude.{
  ℕ, zero, suc, ◌+◌, ◌-◌, ◌%◌, ◌^◌, Bool, true, false, ◌&&◌, ◌||◌, not, Option, none, some, List,
  [], ◌∷◌, ◌++◌, length, take, min, leb, ltb, ◌==◌, if◌then◌else◌, ◌>>=◌,
}
use lamina_fs.Types.{
  ErrorCode, ok, generic_error, not_found, unsupported, already_exists, permissions_error,
  out_of_space, WriteMode, truncate, append, segment, Text, Bytes,
}
use lamina_fs.Directory.Calls.{
  Errno, no_error, eexist, eperm, eacces, erofs, enoent, enospc, eintr, other_error, StatInfo,
  OpenFlags, Whence, seek_set, seek_end, FtsInfo, FtsEntry, Posix, fts_d, fts_default, fts_dp,
  fts_f, fts_sl, fts_slnone, fts_dc, fts_dot, fts_nsok, fts_ns, fts_dnr, fts_err, fts_other,
}

-- `convertError`
unfoldable pub convert_error : Errno → ErrorCode
convert_error eexist = already_exists
convert_error eperm = permissions_error
convert_error eacces = permissions_error
convert_error erofs = unsupported
convert_error enoent = not_found
convert_error enospc = out_of_space
convert_error _ = generic_error

-- `errno == EINTR`, `errno != 0`
abbrev pub is_eintr : Errno → Bool
is_eintr eintr = true
is_eintr _ = false

abbrev pub is_error : Errno → Bool
is_error no_error = false
is_error _ = true

-- A result of `lseek` as an `off_t` of 64 bits, in which -1 is 2 ^ 64 - 1.
abbrev pub off_t : Option ℕ → ℕ
off_t none = 2 ^ 64 - 1
off_t (some p) = p

-- `_devicePath` and `_pathLen`
pub record DirectoryDevice : Type 0 where
  pub path : Text
  pub path_len : ℕ

-- The constructor.
unfoldable pub init : Text → DirectoryDevice
init path = record { path = path; path_len = length path % 2 ^ 32 }

-- `getDevicePath`: the two calls of `strcpy` into a buffer of `diskPathLen` bytes.
unfoldable pub get_device_path : DirectoryDevice → Text → Option Text
get_device_path dev file_path =
    let disk_path_len = (dev.path_len + length file_path + 1) % 2 ^ 32 in
    if leb (length dev.path + 1) disk_path_len
      && leb (dev.path_len + length file_path + 1) disk_path_len
    then some (take dev.path_len dev.path ++ file_path)
    else none

module _ {W : Type 0} (os : Posix W) where
  -- `create`: the result, and the device if there is one.
  unfoldable pub create : Text → W → ErrorCode × Option DirectoryDevice × W
  unfolding init
  create path w =
      let (info, w') = os.stat path w in
      elim info [
        | none ↦ (not_found, none, w')
        | some s ↦ if s.is_dir then (ok, some (init path), w') else (not_found, none, w')
      ]

  -- The loops that repeat a call for as long as it fails with `EINTR`.
  unfoldable pub retry {ℓ} : {A : Type ℓ} → ℕ → (W → Option A × W) → W → Option (Option A × W)
  retry zero call w = none
  retry (suc fuel) call w =
      let (result, w') = call w in
      elim result [
        | some a ↦ some (some a, w')
        | none ↦ elim (is_eintr (os.errno w')) [
          | true ↦ retry fuel call w'
          | false ↦ some (none, w')
        ]
      ]

  -- `openFile`, with the mode 0644
  unfoldable pub open_file : ℕ → DirectoryDevice → Text → OpenFlags → W → Option (Option ℕ × W)
  unfolding get_device_path retry
  open_file fuel dev file_path flags w = do
    disk_path ← get_device_path dev file_path
    retry fuel (os.open_path disk_path flags 420) w

  -- `fileExists`
  unfoldable pub file_exists : DirectoryDevice → Text → W → Option (Bool × W)
  unfolding get_device_path
  file_exists dev file_path w = do
    disk_path ← get_device_path dev file_path
    let (info, w') = os.stat disk_path w
    some (elim info [ none ↦ (false, w') | some s ↦ (s.is_reg, w') ])

  -- `fileSize`: the size and `*outError`
  unfoldable pub file_size : DirectoryDevice → Text → ErrorCode → W → Option (ℕ × ErrorCode × W)
  unfolding get_device_path convert_error
  file_size dev file_path out_error w = do
    disk_path ← get_device_path dev file_path
    let (info, w') = os.stat disk_path w
    some (elim info [
      | none ↦ (0, convert_error (os.errno w'), w')
      | some s ↦ if s.is_reg then (s.st_size, ok, w') else (0, unsupported, w')
    ])
