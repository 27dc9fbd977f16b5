-- ===== src/Directory/WriteFile.antt =====
-- `writeFile` of src/device/Directory.cpp on a regular file, from the opening to the closing.
use lamina_fs.Prelude.{
  ℕ, zero, suc, ◌+◌, ◌-◌, ◌^◌, ◌≤◌, ◌<◌, Bool, true, false, ◌≡◌, refl, sym, ap, ap₂, ◌∙◌, subst,
  Option, none, some, List, [], ◌∷◌, ◌++◌, length, take, drop, ◌==◌, Option-cases, inl, inr, arith,
  ◌>>=◌, append-nil,
}
use lamina_fs.Types.{ErrorCode, ok, WriteMode, truncate, Text, Bytes}
use lamina_fs.Directory.{DirectoryDevice, get_device_path, open_file, off_t, convert_error}
use lamina_fs.Directory.Calls.{Posix, seek_set}
use lamina_fs.Directory.Laws.{Handle, IsLawful, moved, written_at}
use lamina_fs.Directory.Opening.{Opens, open_file-Opens, handle_of}
use lamina_fs.Directory.Portion.{take-enough}
use lamina_fs.Directory.Reading.{Reads}
use lamina_fs.Directory.ReadFile.{read_file-Reads}
use lamina_fs.Directory.Files.{open_flags, write_opened, write_file, read_file}
use lamina_fs.Directory.Errors.{convert_error-failure}
use lamina_fs.Directory.Writing.{
  kept_by, open_flags-kept_by, Writes, closing-Writes, after_write-Writes, after_seek,
  write_opened-after_seek,
}

drop-nil {ℓ} : {A : Type ℓ} (k : ℕ) → drop {A = A} k [] ≡ []
drop-nil zero = refl
drop-nil (suc k) = refl

-- All bytes written from the start of an empty file.
pub written_at-start :
    (n : ℕ) (bytes : Bytes) → n ≡ length bytes → written_at 0 (take n bytes) [] ≡ bytes
written_at-start n bytes e =
    ap (λ xs. take n bytes ++ xs) (drop-nil (0 + length (take n bytes)))
    ∙ append-nil (take n bytes)
    ∙ take-enough n bytes (omega arith)

module _ {W : Type 0} (os : Posix W) (laws : IsLawful os) where
  seek-Writes :
      (fuel fd offset : ℕ) (p : Text) (c bytes : Bytes) (rest : List (ℕ × Handle))
      (mode : WriteMode) (o : Option ℕ) (w : W)
      → laws.handles w ≡ (fd, moved o (handle_of p (open_flags mode))) ∷ rest
      → laws.content w p ≡ some (kept_by mode c)
      → ((j : ℕ) → o ≡ some j → j ≡ offset)
      → offset < 2 ^ 64 - 1
      → laws.interruptions w < fuel
      → Writes os laws p c bytes rest mode offset (after_seek os laws fuel fd offset bytes (o, w))
  seek-Writes fuel fd offset p c bytes rest mode none w e f exact small lt =
      let other : (off_t none == offset) ≡ false = ground arith in
      rw other (
        closing-Writes os laws fd (handle_of p (open_flags mode)) p c bytes rest mode offset
          (os.errno w) w e)
  seek-Writes fuel fd offset p c bytes rest mode (some j) w e f exact small lt =
      let same : j ≡ offset = exact j refl in
      let there : (offset == offset) ≡ true = ground arith in
      rw (same, there)
        (after_write-Writes os laws fuel fd offset p c bytes rest mode w
          (e ∙ ap (λ k. (fd, moved (some k) (handle_of p (open_flags mode))) ∷ rest) same) f lt)

  -- What follows the opening.
  abbrev after_open : ℕ → ℕ → Bytes → Option ℕ × W → Option (ℕ × ErrorCode × W)
  after_open fuel offset bytes r = elim r.0 [
    | none ↦ some (0, convert_error (os.errno r.1), r.1)
    | some fd ↦ write_opened os fuel fd offset bytes r.1
  ]

  write_file-after_open :
      (fuel : ℕ) (dev : DirectoryDevice) (path : Text) (offset : ℕ) (bytes : Bytes)
      (mode : WriteMode) (out_error : ErrorCode) (w : W) (r : Option ℕ × W)
      → open_file os fuel dev path (open_flags mode) w ≡ some r
      → write_file os fuel dev path offset bytes mode out_error w ≡ after_open fuel offset bytes r
  unfolding write_file
  write_file-after_open fuel dev path offset bytes mode out_error w r e =
      ap (λ o. o >>= after_open fuel offset bytes) e

  open-Writes :
      (fuel : ℕ) (dev : DirectoryDevice) (path p : Text) (offset : ℕ) (c bytes : Bytes)
      (mode : WriteMode) (w : W) (r : Opens os laws fuel dev path p (open_flags mode) c w)
      → offset < 2 ^ 64 - 1
      → laws.interruptions w < fuel
      → Writes os laws p c bytes
          (laws.handles w)
          mode
          offset
          (after_open fuel offset bytes (r.result, r.after))
  open-Writes fuel dev path p offset c bytes mode w r small lt = elim (Option-cases r.result) [
    | inl failed ↦
        let (closed, same) = r.failed failed in
        rw failed (record {
          bytes_written = 0;
          error = convert_error (os.errno r.after);
          after = r.after;
          answers = refl;
          closed = closed;
          bounded = omega arith;
          right = λ success. absurd (convert_error-failure (os.errno r.after) success);
          failed = λ f. refl;
        })
    | inr (fd, done) ↦
        let (k, l, less) = r.done fd done in
        let o = (os.lseek fd offset seek_set r.after).0 in
        let w' = (os.lseek fd offset seek_set r.after).1 in
        let (k', l', less') =
          laws.seeks fd offset seek_set (handle_of p (open_flags mode)) (laws.handles w) o r.after
            w' k refl in
        rw done (
          subst (λ a. Writes os laws p c bytes (laws.handles w) mode offset a)
            (sym (write_opened-after_seek os laws fuel fd offset bytes r.after))
            (seek-Writes fuel fd offset p c bytes (laws.handles w) mode o w' k'
              (l' p ∙ l ∙ ap some (open_flags-kept_by mode c))
              (λ j e. laws.seek_set_ok fd offset j r.after w' (ap (λ a. (a, w')) e)) small
              (omega arith)))
  ]

  -- On a system that meets the laws, a writing to a regular file ends, without a fault, and closes
  -- what it opens. If the error is `LFS_OK`, the file is as before, or empty with `LFS_WRITE_TRUNCATE`,
  -- but for the bytes that are reported as written, which stand at the offset, or with
  -- `LFS_WRITE_APPEND` at the end; otherwise no byte is reported as written. The offset is below
  -- 2 ^ 64 - 1, and the fuel more than the interruptions by signals.
  pub write_file-Writes :
      (fuel : ℕ) (dev : DirectoryDevice) (path p : Text) (offset : ℕ) (c bytes : Bytes)
      (mode : WriteMode) (out_error : ErrorCode) (w : W)
      → get_device_path dev path ≡ some p
      → laws.content w p ≡ some c
      → offset < 2 ^ 64 - 1
      → laws.interruptions w < fuel
      → Writes os laws p c bytes
          (laws.handles w)
          mode
          offset
          (write_file os fuel dev path offset bytes mode out_error w)
  write_file-Writes fuel dev path p offset c bytes mode out_error w at holds small lt =
      let r = open_file-Opens os laws fuel dev path p (open_flags mode) c w at holds lt in
      subst (λ o. Writes os laws p c bytes (laws.handles w) mode offset o)
        (sym (
          write_file-after_open fuel dev path offset bytes mode out_error w (r.result, r.after)
            r.answers))
        (open-Writes fuel dev path p offset c bytes mode w r small lt)

  -- On a system that meets the laws, `readFile` of what a truncating `writeFile` reports as
  -- written in full, the next call, closes what it opens, leaves the file as it is and reports
  -- no more bytes than were written. If it reports any, the buffer holds exactly that many of
  -- the bytes written, from the first one, with the terminator if one was asked for, and the
  -- error is `LFS_OK`; with `LFS_OK` and a buffer that is not null it reports some, if any were
  -- written. The file was a regular one before; the bytes are at most `max_bytes` and fewer than
  -- 2 ^ 64 - 1, and the fuel is more than the interruptions by signals.
  pub write_file-read_file :
      (fuel : ℕ) (dev : DirectoryDevice) (path p : Text) (c bytes : Bytes) (max_bytes : ℕ)
      (buffer : Option Bytes) (null_terminate : Bool) (out_error out_error' : ErrorCode) (w w' : W)
      → get_device_path dev path ≡ some p
      → laws.content w p ≡ some c
      → length bytes ≤ max_bytes
      → length bytes < 2 ^ 64 - 1
      → laws.interruptions w < fuel
      → laws.interruptions w' < fuel
      → write_file os fuel dev path 0 bytes truncate out_error w ≡ some (length bytes, ok, w')
      → Reads os laws p bytes bytes 0
          (laws.handles w)
          null_terminate
          (read_file os fuel dev path 0 max_bytes buffer null_terminate out_error' w')
  write_file-read_file fuel dev path p c bytes max_bytes buffer null_terminate out_error out_error'
        w w' at holds fits some_room lt lt' done =
      let wrote =
        write_file-Writes fuel dev path p 0 c bytes truncate out_error w at holds (omega arith)
          lt in
      let answer = wrote.answers in
      let success : wrote.error ≡ ok = cc in
      let all : wrote.bytes_written ≡ length bytes = cc in
      let there : wrote.after ≡ w' = cc in
      let at_start = written_at-start wrote.bytes_written bytes all in
      let now : laws.content w' p ≡ some bytes =
        ap (λ a. laws.content a p) (sym there) ∙ wrote.right success ∙ ap some at_start in
      let whole : take max_bytes bytes ≡ bytes = take-enough max_bytes bytes fits in
      let read =
        read_file-Reads os laws fuel dev path p 0 max_bytes bytes buffer null_terminate out_error'
          w' at now some_room (omega arith) (λ e. omega arith) lt' in
      let closed : laws.handles w' ≡ laws.handles w = ap laws.handles (sym there) ∙ wrote.closed in
      subst
        (λ (k : Bytes × List (ℕ × Handle)).
          Reads os laws p bytes k.0 0 k.1 null_terminate
            (read_file os fuel dev path 0 max_bytes buffer null_terminate out_error' w'))
        (ap₂ (λ a b. (a, b)) whole closed) read
