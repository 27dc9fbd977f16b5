-- ===== src/Directory/Windows/Files.antt =====
-- src/device/Directory.cpp, as it is compiled for Windows: `readFile` and `writeFile`.
use lamina_fs.Prelude.{
  ℕ, ◌+◌, ◌-◌, ◌%◌, ◌^◌, Bool, Option, none, some, [], ◌∷◌, ◌++◌, length, take, min, leb, ◌==◌,
  if◌then◌else◌, ◌>>=◌,
}
use lamina_fs.Types.{
  ErrorCode, ok, generic_error, not_found, WriteMode, truncate, append, segment, Text, Bytes,
}
use lamina_fs.Directory.{DirectoryDevice}
use lamina_fs.Directory.Windows.Calls.{
  Creation, create_always, open_always, open_existing, generic_read, generic_write, file_begin,
  file_end, Win32,
}
use lamina_fs.Directory.Windows.{open_file, convert_error}

-- `INVALID_SET_FILE_POINTER`
abbrev pub invalid_set_file_pointer : ℕ
invalid_set_file_pointer = 2 ^ 32 - 1

-- `createFlags` of `writeFile`
abbrev pub create_flags : WriteMode → Creation
create_flags truncate = create_always
create_flags append = open_always
create_flags segment = open_existing

module _ {W : Type 0} (os : Win32 W) where
  -- The part of `readFile` that follows the allocation of `size` bytes, which is not tested: a null
  -- buffer has no room. The error of `ReadFile` is overwritten by `LFS_OK`. The bytes of the buffer
  -- past those that are read are left out.
  unfoldable pub read_allocated :
      ℕ → Bool → ℕ → ℕ → Bool → W → Option (ℕ × Option Bytes × ErrorCode × W)
  read_allocated file allocated size count null_terminate w =
      let (result, w') = os.read_file file allocated (count % 2 ^ 32) w in
      let capacity = (if allocated then size else 0) in
      elim result [
        | none ↦ some (0, if allocated then some [] else none, ok, os.close_handle (some file) w')
        | some bytes ↦
            let stored = bytes ++ (if null_terminate then 0 ∷ [] else []) in
            if leb (length stored) capacity
            then some (
              length bytes,
              if allocated then some stored else none,
              ok,
              os.close_handle (some file) w',
            )
            else none
      ]

  -- The part of `readFile` for a file of `file_size` bytes, which are not 0.
  unfoldable pub read_contents :
      ℕ
      → ℕ
      → ℕ
      → ℕ
      → Option Bytes
      → Bool
      → ErrorCode
      → W
      → Option (ℕ × Option Bytes × ErrorCode × W)
  unfolding read_allocated
  read_contents file file_size offset max_bytes buffer null_terminate out_error w =
      let (position, w') = os.set_file_pointer file offset file_begin w in
      let count = min ((2 ^ 64 + file_size - offset) % 2 ^ 64) max_bytes in
      let size = (count + (if null_terminate then 1 else 0)) % 2 ^ 64 in
      let (allocated, w'') = os.alloc size w' in
      let rest = read_allocated file allocated size count null_terminate w'' in
      if position == invalid_set_file_pointer
      then some (0, buffer, out_error, os.close_handle (some file) w')
      else rest

  -- `readFile`: the bytes read, `*buffer` and `*outError`
  unfoldable pub read_file :
      DirectoryDevice
      → Text
      → ℕ
      → ℕ
      → Option Bytes
      → Bool
      → ErrorCode
      → W
      → Option (ℕ × Option Bytes × ErrorCode × W)
  unfolding open_file read_contents convert_error
  read_file dev file_path offset max_bytes buffer null_terminate out_error w = do
    (opened, w₁) ← open_file os dev file_path generic_read open_existing w
    elim opened [
      | none ↦ some (0, buffer, not_found, w₁)
      | some file ↦
          let (result, w₂) = os.get_file_size_ex file w₁ in
          elim result [
            | none ↦
                some
                  (0, buffer, convert_error (os.get_last_error w₂), os.close_handle (some file) w₂)
            | some file_size ↦
                let contents =
                  read_contents file file_size offset max_bytes buffer null_terminate out_error
                    w₂ in
                if file_size == 0
                then some (0, none, ok, os.close_handle (some file) w₂)
                else contents
          ]
    ]

  -- The call of `WriteFile`, and the closing.
  unfoldable pub write_opened : ℕ → Bytes → W → ℕ × ErrorCode × W
  write_opened file bytes w =
      let (result, w') = os.write_file file (take (length bytes % 2 ^ 32) bytes) w in
      let w'' = os.close_handle (some file) w' in
      elim result [ none ↦ (0, generic_error, w'') | some n ↦ (n, ok, w'') ]

  -- `writeFile`: the bytes written and `*outError`
  unfoldable pub write_file :
      DirectoryDevice → Text → ℕ → Bytes → WriteMode → W → Option (ℕ × ErrorCode × W)
  unfolding open_file write_opened convert_error
  write_file dev file_path offset bytes mode w = do
    (opened, w₁) ← open_file os dev file_path generic_write (create_flags mode) w
    some (elim opened [
      | none ↦ (0, convert_error (os.get_last_error w₁), os.close_handle none w₁)
      | some file ↦ elim mode [
        | truncate ↦ write_opened file bytes w₁
        | append ↦
            let (position, w₂) = os.set_file_pointer file 0 file_end w₁ in
            if position == invalid_set_file_pointer
            then (0, generic_error, os.close_handle (some file) w₂)
            else write_opened file bytes w₂
        | segment ↦
            let (position, w₂) = os.set_file_pointer file offset file_begin w₁ in
            if position == invalid_set_file_pointer
            then (0, generic_error, os.close_handle (some file) w₂)
            else write_opened file bytes w₂
      ]
    ])
