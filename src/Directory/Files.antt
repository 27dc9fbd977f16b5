-- ===== src/Directory/Files.antt =====
-- src/device/Directory.cpp: `readFile` and `writeFile`.
use lamina_fs.Prelude.{
  ℕ, ◌+◌, ◌-◌, ◌%◌, ◌^◌, Bool, true, false, Option, none, some, [], ◌∷◌, ◌++◌, length, min, leb,
  ltb, ◌==◌, if◌then◌else◌, ◌>>=◌,
}
use lamina_fs.Types.{ErrorCode, ok, WriteMode, truncate, append, segment, Text, Bytes}
use lamina_fs.Directory.Calls.{OpenFlags, seek_set, seek_end, Posix}
use lamina_fs.Directory.{DirectoryDevice, convert_error, retry, open_file, off_t}

-- `openFlags` of `writeFile`
abbrev pub open_flags : WriteMode → OpenFlags
open_flags mode = record {
  writes = true;
  creates = true;
  truncates = elim mode [ truncate ↦ true | append ↦ false | segment ↦ false ];
  appends = elim mode [ truncate ↦ false | append ↦ true | segment ↦ false ];
}

module _ {W : Type 0} (os : Posix W) where
  -- The bytes of the buffer past those that are read, and the terminator, are left out.
  --
  -- The part of `readFile` that follows the allocation of `size` bytes for `count` bytes of the file.
  unfoldable pub read_allocated :
      ℕ → ℕ → ℕ → ℕ → Bool → W → Option (ℕ × Option Bytes × ErrorCode × W)
  unfolding retry convert_error
  read_allocated fuel file size count null_terminate w = do
    (result, w') ← retry os fuel (os.read file count) w
    elim result [
      | none ↦
          let w'' = os.free w' in some (0, none, convert_error (os.errno w''), os.close file w'')
      | some bytes ↦
          let bytes_read = length bytes in
          let terminated = (if ltb bytes_read size then some (bytes ++ (0 ∷ [])) else none) in
          (if null_terminate then terminated else if leb bytes_read size then some bytes else none)
          >>= λ buffer. some (bytes_read, some buffer, ok, os.close file w')
    ]

  -- The part of `readFile` for a file of `file_size` bytes, which are not 0.
  unfoldable pub read_contents :
      ℕ → ℕ → ℕ → ℕ → ℕ → Option Bytes → Bool → W → Option (ℕ × Option Bytes × ErrorCode × W)
  unfolding read_allocated convert_error
  read_contents fuel file file_size offset max_bytes buffer null_terminate w =
      let (position, w') = os.lseek file offset seek_set w in
      let seeked_offset = (if off_t position == offset then 1 else 0) in
      let count = min ((2 ^ 64 + file_size - offset) % 2 ^ 64) max_bytes in
      let size = (count + (if null_terminate then 1 else 0)) % 2 ^ 64 in
      let (allocated, w'') = os.alloc size w' in
      let rest = read_allocated fuel file size count null_terminate w'' in
      if seeked_offset == 2 ^ 64 - 1
      then some (0, buffer, convert_error (os.errno w'), os.close file w')
      else if allocated
      then rest
      else some (0, none, ok, os.close file w'')

  -- `readFile`: the bytes read, `*buffer` and `*outError`
  unfoldable pub read_file :
      ℕ
      → DirectoryDevice
      → Text
      → ℕ
      → ℕ
      → Option Bytes
      → Bool
      → ErrorCode
      → W
      → Option (ℕ × Option Bytes × ErrorCode × W)
  unfolding open_file read_contents convert_error
  read_file fuel dev file_path offset max_bytes buffer null_terminate out_error w = do
    (opened, w₁) ←
        open_file os fuel dev file_path
          (record { writes = false; creates = false; truncates = false; appends = false }) w
    elim opened [
      | none ↦ some (0, buffer, convert_error (os.errno w₁), w₁)
      | some file ↦
          let (file_end, w₂) = os.lseek file 0 seek_end w₁ in
          let file_size = off_t file_end in
          let contents =
            read_contents fuel file file_size offset max_bytes buffer null_terminate w₂ in
          if file_size == 2 ^ 64 - 1
          then some (0, buffer, convert_error (os.errno w₂), os.close file w₂)
          else if file_size == 0
          then some (0, buffer, out_error, os.close file w₂)
          else contents
    ]

  -- The part of `writeFile` that follows the opening of the file, and the closing.
  unfoldable pub write_opened : ℕ → ℕ → ℕ → Bytes → W → Option (ℕ × ErrorCode × W)
  unfolding retry convert_error
  write_opened fuel file offset bytes w =
      let (position, w') = os.lseek file offset seek_set w in
      let sought = off_t position == offset in
      let failed = some (0, convert_error (os.errno w'), os.close file w') in
      let written = (do
        (result, w'') ← retry os fuel (os.write file bytes) w'
        elim result [
          | none ↦ some (0, convert_error (os.errno w''), os.close file w'')
          | some n ↦ some (n, ok, os.close file w'')
        ]) in
      if sought then written else failed

  -- `writeFile`: the bytes written and `*outError`
  unfoldable pub write_file :
      ℕ
      → DirectoryDevice
      → Text
      → ℕ
      → Bytes
      → WriteMode
      → ErrorCode
      → W
      → Option (ℕ × ErrorCode × W)
  unfolding open_file write_opened convert_error
  write_file fuel dev file_path offset bytes mode out_error w = do
    (opened, w') ← open_file os fuel dev file_path (open_flags mode) w
    elim opened [
      | none ↦ some (0, convert_error (os.errno w'), w')
      | some file ↦ write_opened fuel file offset bytes w'
    ]
