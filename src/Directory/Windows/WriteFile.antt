-- ===== src/Directory/Windows/WriteFile.antt =====
-- `writeFile` of src/device/Directory.cpp, as it is compiled for Windows, from the opening to the
-- closing.
use lamina_fs.Prelude.{
  ℕ, ◌^◌, ◌<◌, ◌≡◌, refl, ap, ◌∙◌, Option, none, some, List, ◌∷◌, length, Option-cases, inl, inr,
  arith, ◌>>=◌,
}
use lamina_fs.Types.{ErrorCode, WriteMode, truncate, append, segment, Text, Bytes}
use lamina_fs.Directory.{DirectoryDevice}
use lamina_fs.Directory.Writing.{kept_by}
use lamina_fs.Directory.Windows.{windows_path, open_file, convert_error}
use lamina_fs.Directory.Windows.Calls.{Wide, Win32, generic_write, file_begin, file_end}
use lamina_fs.Directory.Windows.Laws.{OpenFile, fresh, created, IsLawful}
use lamina_fs.Directory.Windows.Files.{create_flags, write_opened, write_file}
use lamina_fs.Directory.Windows.Writing.{
  convert_error-failure, by_pointer, Writes, write_opened-Writes, by_pointer-Writes,
}

create_flags-kept_by :
    (mode : WriteMode) (c : Bytes) → created (create_flags mode) c ≡ kept_by mode c
create_flags-kept_by truncate c = refl
create_flags-kept_by append c = refl
create_flags-kept_by segment c = refl

-- Where the bytes go: a file that is truncated is written from its start, whatever the offset.
abbrev pub write_position : WriteMode → ℕ → Bytes → ℕ
write_position truncate offset c = 0
write_position append offset c = length c
write_position segment offset c = offset

module _ {W : Type 0} (os : Win32 W) where
  -- What follows the opening, in each mode.
  abbrev pub by_mode : WriteMode → ℕ → ℕ → Bytes → W → ℕ × ErrorCode × W
  by_mode truncate fd offset bytes w = write_opened os fd bytes w
  by_mode append fd offset bytes w = by_pointer os fd bytes (os.set_file_pointer fd 0 file_end w)
  by_mode segment fd offset bytes w =
      by_pointer os fd bytes (os.set_file_pointer fd offset file_begin w)

  abbrev pub after_open : WriteMode → ℕ → Bytes → Option ℕ × W → ℕ × ErrorCode × W
  after_open mode offset bytes r = elim r.0 [
    | none ↦ (0, convert_error (os.get_last_error r.1), os.close_handle none r.1)
    | some fd ↦ by_mode mode fd offset bytes r.1
  ]

  pub write_file-after_open :
      (dev : DirectoryDevice) (path : Text) (p : Wide) (offset : ℕ) (bytes : Bytes)
      (mode : WriteMode) (w : W)
      → windows_path os dev path ≡ some p
      → write_file os dev path offset bytes mode w
        ≡ some (after_open mode offset bytes (os.create_file p generic_write (create_flags mode) w))
  unfolding write_file open_file
  write_file-after_open dev path p offset bytes truncate w at =
      ap
        (λ o. (o >>= λ q. some (os.create_file q generic_write (create_flags truncate) w)) >>= λ r.
          some (after_open truncate offset bytes r))
        at
  write_file-after_open dev path p offset bytes append w at =
      ap
        (λ o. (o >>= λ q. some (os.create_file q generic_write (create_flags append) w)) >>= λ r.
          some (after_open append offset bytes r))
        at
  write_file-after_open dev path p offset bytes segment w at =
      ap
        (λ o. (o >>= λ q. some (os.create_file q generic_write (create_flags segment) w)) >>= λ r.
          some (after_open segment offset bytes r))
        at

module _ {W : Type 0} (os : Win32 W) (laws : IsLawful os) where
  by_mode-Writes :
      (mode : WriteMode) (fd offset : ℕ) (p : Wide) (kept bytes : Bytes)
      (rest : List (ℕ × OpenFile)) (w : W)
      → laws.handles w ≡ (fd, fresh p) ∷ rest
      → laws.content w p ≡ some kept
      → length bytes < 2 ^ 32
      → Writes os laws p
          (write_position mode offset kept)
          kept
          bytes
          rest
          (by_mode os mode fd offset bytes w)
  by_mode-Writes truncate fd offset p kept bytes rest w e f small =
      write_opened-Writes os laws fd (fresh p) kept bytes rest w e f small
  by_mode-Writes append fd offset p kept bytes rest w e f small =
      by_pointer-Writes os laws fd 0 file_end (fresh p) kept bytes rest w e f small
  by_mode-Writes segment fd offset p kept bytes rest w e f small =
      by_pointer-Writes os laws fd offset file_begin (fresh p) kept bytes rest w e f small

  -- On Windows, on a system that meets the laws, a writing of fewer than 2 ^ 32 bytes to a file that
  -- exists ends, without a fault, and leaves the open handles as they were, also when the file does
  -- not open. If the error is `LFS_OK`, the file holds what the mode keeps of it with the bytes that
  -- are reported, and are a first part of those given, written over it: from its start when it is
  -- truncated, at its end when they are appended, and from the offset otherwise. If not, 0 bytes
  -- are reported. The path fits its buffer of wide characters.
  pub write_file_on_windows-Writes :
      (dev : DirectoryDevice) (path : Text) (p : Wide) (offset : ℕ) (c bytes : Bytes)
      (mode : WriteMode) (w : W)
      → windows_path os dev path ≡ some p
      → laws.content w p ≡ some c
      → length bytes < 2 ^ 32
      → (r : ℕ × ErrorCode × W) × (write_file os dev path offset bytes mode w ≡ some r)
        × Writes os laws p
            (write_position mode offset (kept_by mode c))
            (kept_by mode c)
            bytes
            (laws.handles w)
            r
  write_file_on_windows-Writes dev path p offset c bytes mode w at holds small =
      let o = os.create_file p generic_write (create_flags mode) w in
      let kept = kept_by mode c in
      let k = write_position mode offset kept in
      let outcome : Writes os laws p k kept bytes (laws.handles w)
          (after_open os mode offset bytes o) =
        elim (Option-cases o.0) [
          | inl failed ↦
              let (same, l) = laws.open_fails p generic_write (create_flags mode) w failed in
              rw failed (record {
                closed = laws.closes_nothing o.1 ∙ same;
                bounded = omega arith;
                right = λ success. absurd (convert_error-failure (os.get_last_error o.1) success);
                failed = λ f. refl;
              })
          | inr (fd, done) ↦
              let (there, l) = laws.opens p generic_write (create_flags mode) fd w done in
              rw done (
                by_mode-Writes mode fd offset p kept bytes (laws.handles w) o.1 there
                  (l c holds ∙ ap some (create_flags-kept_by mode c)) small)
        ] in
      (
        after_open os mode offset bytes o,
        write_file-after_open os dev path p offset bytes mode w at,
        outcome,
      )
