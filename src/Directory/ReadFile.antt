-- ===== src/Directory/ReadFile.antt =====
-- `readFile` of src/device/Directory.cpp on a regular file, from the opening to the closing.
use lamina_fs.Prelude.{
  ℕ, ◌+◌, ◌-◌, ◌^◌, ◌<◌, Bool, false, ◌≡◌, ◌≢◌, refl, sym, ap, ◌∙◌, subst, Option, none, some, List,
  ◌∷◌, length, take, drop, ◌==◌, if◌then◌else◌, Bool-cases, Option-cases, inl, inr, arith, ◌>>=◌,
}
use lamina_fs.Types.{ErrorCode, Text, Bytes}
use lamina_fs.Directory.{DirectoryDevice, get_device_path, open_file, off_t, convert_error}
use lamina_fs.Directory.Calls.{Posix, seek_end}
use lamina_fs.Directory.Laws.{Handle, IsLawful, moved}
use lamina_fs.Directory.Portion.{length-take_le_all, length-drop}
use lamina_fs.Directory.Opening.{Opens, open_file-Opens, handle_of, read_flags}
use lamina_fs.Directory.Reading.{Reads, closing-Reads}
use lamina_fs.Directory.Files.{read_contents, read_file}
use lamina_fs.Directory.Errors.{convert_error-failure}
use lamina_fs.Directory.Contents.{read_contents-Reads}

module _ {W : Type 0} (os : Posix W) (laws : IsLawful os) where
  -- What follows the search for the end of the file.
  abbrev pub by_end :
      ℕ
      → ℕ
      → ℕ
      → Option Bytes
      → Bool
      → ErrorCode
      → ℕ
      → Option ℕ × W
      → Option (ℕ × Option Bytes × ErrorCode × W)
  by_end fuel offset max_bytes buffer null_terminate out_error fd r =
      if off_t r.0 == 2 ^ 64 - 1
      then some (0, buffer, convert_error (os.errno r.1), os.close fd r.1)
      else if off_t r.0 == 0
      then some (0, buffer, out_error, os.close fd r.1)
      else read_contents os fuel fd (off_t r.0) offset max_bytes buffer null_terminate r.1

  abbrev pub after_open :
      ℕ
      → ℕ
      → ℕ
      → Option Bytes
      → Bool
      → ErrorCode
      → Option ℕ × W
      → Option (ℕ × Option Bytes × ErrorCode × W)
  after_open fuel offset max_bytes buffer null_terminate out_error r = elim r.0 [
    | none ↦ some (0, buffer, convert_error (os.errno r.1), r.1)
    | some fd ↦
        by_end fuel offset max_bytes buffer null_terminate out_error fd (os.lseek fd 0 seek_end r.1)
  ]

  pub read_file-after_open :
      (fuel : ℕ) (dev : DirectoryDevice) (path : Text) (offset max_bytes : ℕ)
      (buffer : Option Bytes) (null_terminate : Bool) (out_error : ErrorCode) (w : W)
      (r : Option ℕ × W)
      → open_file os fuel dev path read_flags w ≡ some r
      → read_file os fuel dev path offset max_bytes buffer null_terminate out_error w
        ≡ after_open fuel offset max_bytes buffer null_terminate out_error r
  unfolding read_file
  read_file-after_open fuel dev path offset max_bytes buffer null_terminate out_error w r e =
      ap (λ o. o >>= after_open fuel offset max_bytes buffer null_terminate out_error) e

  module _ (fuel offset max_bytes : ℕ) (c : Bytes) (buffer : Option Bytes) (null_terminate : Bool)
      (out_error : ErrorCode) (small : length c < 2 ^ 64 - 1) (in_range : offset < 2 ^ 64)
      (some_room : offset ≢ length c + 1) where
    end-Reads :
        (fd : ℕ) (h : Handle) (rest : List (ℕ × Handle)) (o : Option ℕ) (w : W)
        → laws.handles w ≡ (fd, moved o h) ∷ rest
        → laws.content w h.name ≡ some c
        → ((j : ℕ) → o ≡ some j → j ≡ length c)
        → laws.interruptions w < fuel
        → Reads os laws h.name c
            (take max_bytes (drop offset c))
            offset
            rest
            null_terminate
            (by_end fuel offset max_bytes buffer null_terminate out_error fd (o, w))
    end-Reads fd h rest none w e f exact lt =
        closing-Reads os laws fd h rest c (take max_bytes (drop offset c)) offset null_terminate
          buffer (convert_error (os.errno w)) w e f
          (λ inside success there. absurd (convert_error-failure (os.errno w) success))
    end-Reads fd h rest (some j) w e f exact lt =
        let found : (j == 2 ^ 64 - 1) ≡ false = ground (arith, exact j refl) in
        rw found (elim (Bool-cases (j == 0)) [
          | inl empty ↦
              let none_left : length c ≡ 0 = ground (arith, exact j refl) in
              let none_wanted : 0 ≡ length (take max_bytes (drop offset c)) =
                omega (arith, length-take_le_all max_bytes (drop offset c), length-drop offset c) in
              rw empty (
                closing-Reads os laws fd (moved (some j) h) rest c (take max_bytes (drop offset c))
                  offset null_terminate buffer out_error w e f
                  (λ inside success there. none_wanted))
          | inr full ↦
              rw (full, exact j refl)
                (read_contents-Reads os laws fuel fd offset max_bytes (moved (some j) h) rest c
                  buffer null_terminate w e f (exact j refl) (omega arith) in_range some_room lt)
        ])

    open-Reads :
        (dev : DirectoryDevice) (path p : Text) (w : W)
        (r : Opens os laws fuel dev path p read_flags c w)
        → laws.interruptions w < fuel
        → Reads os laws p c
            (take max_bytes (drop offset c))
            offset
            (laws.handles w)
            null_terminate
            (after_open fuel offset max_bytes buffer null_terminate out_error (r.result, r.after))
    open-Reads dev path p w r lt = elim (Option-cases r.result) [
      | inl failed ↦
          let (closed, same) = r.failed failed in
          rw failed (record {
            bytes_read = 0;
            buffer = buffer;
            error = convert_error (os.errno r.after);
            after = r.after;
            answers = refl;
            closed = closed;
            unchanged = same;
            bounded = omega arith;
            right = λ l. absurd (omega arith);
            progress = λ inside success. absurd (convert_error-failure (os.errno r.after) success);
          })
      | inr (fd, done) ↦
          let (k, l, less) = r.done fd done in
          let h = handle_of p read_flags in
          let o = (os.lseek fd 0 seek_end r.after).0 in
          let w' = (os.lseek fd 0 seek_end r.after).1 in
          let (k', l', less') = laws.seeks fd 0 seek_end h (laws.handles w) o r.after w' k refl in
          rw done (
            end-Reads fd h (laws.handles w) o w' k' (l' p ∙ l)
              (λ j e.
                laws.seek_end_ok fd j h (laws.handles w) c r.after w' k l (ap (λ a. (a, w')) e))
              (omega arith))
    ]

  -- On a system that meets the laws, a reading of at most `max_bytes` bytes from `offset` of a
  -- regular file ends, without a fault: it closes what it opens and leaves the file as it is. It
  -- reports no more bytes than were asked for and are there. If it reports any, the buffer holds
  -- exactly that many of them, from the first one, with the terminator if one was asked for, and
  -- the error is `LFS_OK`. Where the offset is in the file, the error is `LFS_OK` and the buffer
  -- is not null, it reports some bytes if there were any; they may be fewer than all, since
  -- `read` may be short. The file has fewer than 2 ^ 64 - 1 bytes, the offset is less than 2 ^
  -- 64 and not one more than the file's size, for which the size of the buffer may overflow, and
  -- the fuel is more than the interruptions by signals.
  pub read_file-Reads :
      (fuel : ℕ) (dev : DirectoryDevice) (path p : Text) (offset max_bytes : ℕ) (c : Bytes)
      (buffer : Option Bytes) (null_terminate : Bool) (out_error : ErrorCode) (w : W)
      → get_device_path dev path ≡ some p
      → laws.content w p ≡ some c
      → length c < 2 ^ 64 - 1
      → offset < 2 ^ 64
      → offset ≢ length c + 1
      → laws.interruptions w < fuel
      → Reads os laws p c
          (take max_bytes (drop offset c))
          offset
          (laws.handles w)
          null_terminate
          (read_file os fuel dev path offset max_bytes buffer null_terminate out_error w)
  read_file-Reads fuel dev path p offset max_bytes c buffer null_terminate out_error w at holds
        small in_range some_room lt =
      let r = open_file-Opens os laws fuel dev path p read_flags c w at holds lt in
      subst
        (λ o.
          Reads os laws p c (take max_bytes (drop offset c)) offset (laws.handles w) null_terminate
            o)
        (sym (
          read_file-after_open fuel dev path offset max_bytes buffer null_terminate out_error w
            (r.result, r.after) r.answers))
        (open-Reads fuel offset max_bytes c buffer null_terminate out_error small in_range some_room
          dev path p w r lt)
