-- ===== src/Directory/EmptyFile.antt =====
-- `readFile` of src/device/Directory.cpp on an empty file, called as `processingFunc` of
-- src/FileContext.cpp calls it, with `LFS_NOT_FOUND` in `*outError`.
use lamina_fs.Prelude.{
  ℕ, ◌<◌, Bool, ◌≡◌, ◌≢◌, refl, sym, ap, subst, Option, none, some, [], Option-cases, inl, inr,
}
use lamina_fs.Types.{ErrorCode, ok, not_found, Text, Bytes}
use lamina_fs.Directory.{DirectoryDevice, get_device_path, convert_error}
use lamina_fs.Directory.Calls.{Posix, seek_end}
use lamina_fs.Directory.Laws.{IsLawful}
use lamina_fs.Directory.Errors.{convert_error-failure}
use lamina_fs.Directory.Opening.{open_file-Opens, handle_of, read_flags}
use lamina_fs.Directory.Files.{read_file}
use lamina_fs.Directory.ReadFile.{by_end, read_file-after_open}

module _ {W : Type 0} (os : Posix W) (laws : IsLawful os) where
  -- Nothing is read, the buffer is as it was, and the error is not `LFS_OK`.
  pub record Refuses (buffer : Option Bytes) (o : Option (ℕ × Option Bytes × ErrorCode × W))
      : Type 0 where
    pub error : ErrorCode
    pub after : W
    pub answers : o ≡ some (0, buffer, error, after)
    pub not_ok : error ≢ ok

  failure-Refuses :
      (buffer : Option Bytes) (w w' : W)
      → Refuses buffer (some (0, buffer, convert_error (os.errno w), w'))
  failure-Refuses buffer w w' = record {
    error = convert_error (os.errno w);
    after = w';
    answers = refl;
    not_ok = convert_error-failure (os.errno w);
  }

  end-Refuses :
      (fuel offset max_bytes fd : ℕ) (buffer : Option Bytes) (null_terminate : Bool) (o : Option ℕ)
      (w : W)
      → ((j : ℕ) → o ≡ some j → j ≡ 0)
      → Refuses buffer
          (by_end os laws fuel offset max_bytes buffer null_terminate not_found fd (o, w))
  end-Refuses fuel offset max_bytes fd buffer null_terminate none w empty =
      failure-Refuses buffer w (os.close fd w)
  end-Refuses fuel offset max_bytes fd buffer null_terminate (some j) w empty =
      rw (empty j refl)
        (record { error = not_found; after = os.close fd w; answers = refl; not_ok = λ e. cc })

  -- On a system that meets the laws, a reading of an empty regular file with `LFS_NOT_FOUND` in
  -- `*outError`, as the thread calls it, ends, with more fuel than interruptions by signals, and
  -- reports an error, reads nothing and leaves the buffer as it was.
  pub read_file-Refuses :
      (fuel : ℕ) (dev : DirectoryDevice) (path p : Text) (offset max_bytes : ℕ)
      (buffer : Option Bytes) (null_terminate : Bool) (w : W)
      → get_device_path dev path ≡ some p
      → laws.content w p ≡ some []
      → laws.interruptions w < fuel
      → Refuses buffer
          (read_file os fuel dev path offset max_bytes buffer null_terminate not_found w)
  read_file-Refuses fuel dev path p offset max_bytes buffer null_terminate w at holds lt =
      let r = open_file-Opens os laws fuel dev path p read_flags [] w at holds lt in
      subst (Refuses buffer)
        (sym (
          read_file-after_open os laws fuel dev path offset max_bytes buffer null_terminate
            not_found w (r.result, r.after) r.answers))
        (elim (Option-cases r.result) [
          | inl failed ↦ rw failed (failure-Refuses buffer r.after r.after)
          | inr (fd, done) ↦
              let (k, l, less) = r.done fd done in
              let o = (os.lseek fd 0 seek_end r.after).0 in
              let w' = (os.lseek fd 0 seek_end r.after).1 in
              rw done (
                end-Refuses fuel offset max_bytes fd buffer null_terminate o w' (λ j e.
                  laws.seek_end_ok fd j (handle_of p read_flags) (laws.handles w) [] r.after w' k l
                    (ap (λ a. (a, w')) e)))
        ])
