-- ===== src/Directory/Writing.antt =====
-- What `writeFile` of src/device/Directory.cpp leaves in a regular file.
use lamina_fs.Prelude.{
  ℕ, ◌≤◌, ◌<◌, ◌≡◌, ◌≢◌, refl, sym, ap, ◌∙◌, subst, Option, none, some, List, [], ◌∷◌, length, take,
  ◌==◌, if◌then◌else◌, Option-cases, inl, inr, arith, ◌>>=◌,
}
use lamina_fs.Types.{ErrorCode, ok, WriteMode, truncate, append, segment, Text, Bytes}
use lamina_fs.Directory.{retry, off_t, convert_error}
use lamina_fs.Directory.Calls.{Errno, Posix, seek_set}
use lamina_fs.Directory.Retry.{retry-Retries}
use lamina_fs.Directory.Laws.{Handle, IsLawful, written_at}
use lamina_fs.Directory.Opening.{handle_of}
use lamina_fs.Directory.Errors.{convert_error-failure}
use lamina_fs.Directory.Files.{open_flags, write_opened}

-- What is left of a file of `c` when it has been opened to be written, and where the bytes go.
abbrev pub kept_by : WriteMode → Bytes → Bytes
kept_by truncate c = []
kept_by append c = c
kept_by segment c = c

abbrev pub write_position : WriteMode → ℕ → Bytes → ℕ
write_position truncate offset c = offset
write_position append offset c = length c
write_position segment offset c = offset

pub open_flags-kept_by :
    (mode : WriteMode) (c : Bytes)
    → (if (open_flags mode).truncates then [] else c) ≡ kept_by mode c
open_flags-kept_by truncate c = refl
open_flags-kept_by append c = refl
open_flags-kept_by segment c = refl

open_flags-write_position :
    (mode : WriteMode) (offset : ℕ) (c : Bytes)
    → (if (open_flags mode).appends then length c else offset) ≡ write_position mode offset c
open_flags-write_position truncate offset c = refl
open_flags-write_position append offset c = refl
open_flags-write_position segment offset c = refl

module _ {W : Type 0} (os : Posix W) (laws : IsLawful os) where
  -- What is known of a writing of `bytes` to a file that holds `c`.
  pub record Writes (p : Text) (c bytes : Bytes) (rest : List (ℕ × Handle)) (mode : WriteMode)
      (offset : ℕ) (o : Option (ℕ × ErrorCode × W)) : Type 0 where
    pub bytes_written : ℕ
    pub error : ErrorCode
    pub after : W
    pub answers : o ≡ some (bytes_written, error, after)
    pub closed : laws.handles after ≡ rest
    pub bounded : bytes_written ≤ length bytes
    pub right :
        error ≡ ok
        → laws.content after p
          ≡ some (
              written_at
                (write_position mode offset (kept_by mode c))
                (take bytes_written bytes)
                (kept_by mode c))
    pub failed : error ≢ ok → bytes_written ≡ 0

  pub closing-Writes :
      (fd : ℕ) (h : Handle) (p : Text) (c bytes : Bytes) (rest : List (ℕ × Handle))
      (mode : WriteMode) (offset : ℕ) (e : Errno) (w : W)
      → laws.handles w ≡ (fd, h) ∷ rest
      → Writes p c bytes rest mode offset (some (0, convert_error e, os.close fd w))
  closing-Writes fd h p c bytes rest mode offset e w k =
      let (closed, same) = laws.closes fd h rest w k in
      record {
        bytes_written = 0;
        error = convert_error e;
        after = os.close fd w;
        answers = refl;
        closed = closed;
        bounded = omega arith;
        right = λ success. absurd (convert_error-failure e success);
        failed = λ f. refl;
      }

  -- What follows the loop over `write`.
  abbrev pub after_write : ℕ → Option ℕ × W → Option (ℕ × ErrorCode × W)
  after_write fd r = elim r.0 [
    | none ↦ some (0, convert_error (os.errno r.1), os.close fd r.1)
    | some n ↦ some (n, ok, os.close fd r.1)
  ]

  pub after_write-Writes :
      (fuel fd offset : ℕ) (p : Text) (c bytes : Bytes) (rest : List (ℕ × Handle))
      (mode : WriteMode) (w : W)
      → laws.handles w ≡ (fd, record (handle_of p (open_flags mode)) { position = offset }) ∷ rest
      → laws.content w p ≡ some (kept_by mode c)
      → laws.interruptions w < fuel
      → Writes p c bytes rest mode offset (retry os fuel (os.write fd bytes) w >>= after_write fd)
  after_write-Writes fuel fd offset p c bytes rest mode w e f lt =
      let h : Handle = record (handle_of p (open_flags mode)) { position = offset } in
      let r =
        retry-Retries os
          (λ v. (laws.handles v ≡ (fd, h) ∷ rest) × (laws.content v p ≡ some (kept_by mode c)))
          laws.interruptions (os.write fd bytes)
          (λ v v' g again (k, l).
            let (k', l', less) = laws.write_fails fd h rest bytes v v' k g in
            ((k' ∙ k, l' ∙ l), ground (arith, less, again)))
          fuel w (e, f) lt in
      subst (λ o. Writes p c bytes rest mode offset o)
        (sym (ap (λ o. o >>= after_write fd) r.answers))
        (elim (Option-cases r.result) [
          | inl failed ↦
              let (k, l, less) =
                laws.write_fails fd h rest bytes r.before r.after r.kept.0
                  (r.called ∙ ap (λ o. (o, r.after)) failed) in
              rw failed (
                closing-Writes fd h p c bytes rest mode offset (os.errno r.after) r.after
                  (k ∙ r.kept.0))
          | inr (n, done) ↦
              let ((h', k), bound, l) =
                laws.write_ok fd n h rest bytes (kept_by mode c) r.before r.after r.kept.0 r.kept.1
                  (r.called ∙ ap (λ o. (o, r.after)) done) in
              let (closed, same) = laws.closes fd h' rest r.after k in
              rw done (record {
                bytes_written = n;
                error = ok;
                after = os.close fd r.after;
                answers = refl;
                closed = closed;
                bounded = bound;
                right = λ success.
                    same p
                    ∙ l
                    ∙ ap (λ k. some (written_at k (take n bytes) (kept_by mode c)))
                        (open_flags-write_position mode offset (kept_by mode c));
                failed = λ bad. absurd (bad refl);
              })
        ])

  -- What follows the seek.
  abbrev pub after_seek : ℕ → ℕ → ℕ → Bytes → Option ℕ × W → Option (ℕ × ErrorCode × W)
  after_seek fuel fd offset bytes r =
      if off_t r.0 == offset
      then retry os fuel (os.write fd bytes) r.1 >>= after_write fd
      else some (0, convert_error (os.errno r.1), os.close fd r.1)

  pub write_opened-after_seek :
      (fuel fd offset : ℕ) (bytes : Bytes) (w : W)
      → write_opened os fuel fd offset bytes w
        ≡ after_seek fuel fd offset bytes (os.lseek fd offset seek_set w)
  unfolding write_opened
  write_opened-after_seek fuel fd offset bytes w = refl
