-- ===== src/Directory/Windows/Writing.antt =====
-- What `writeFile` of src/device/Directory.cpp, as it is compiled for Windows, leaves in a file that is
-- open.
use lamina_fs.Prelude.{
  ℕ, ◌%◌, ◌^◌, ◌≤◌, ◌<◌, ◌≡◌, ◌≢◌, refl, sym, ap, ◌∙◌, subst, Option, none, some, List, ◌∷◌, length,
  take, ◌==◌, if◌then◌else◌, Option-cases, Bool-cases, inl, inr, arith,
}
use lamina_fs.Types.{ErrorCode, ok, generic_error, Bytes}
use lamina_fs.Directory.Laws.{written_at}
use lamina_fs.Directory.Portion.{take-enough}
use lamina_fs.Directory.Windows.{convert_error}
use lamina_fs.Directory.Windows.Calls.{
  Wide, LastError, error_file_not_found, error_path_not_found, error_access_denied,
  error_already_exists, error_disk_full, error_other, MoveMethod, Win32,
}
use lamina_fs.Directory.Windows.Laws.{OpenFile, destination, IsLawful}
use lamina_fs.Directory.Windows.Files.{write_opened, invalid_set_file_pointer}

pub convert_error-failure : (e : LastError) → convert_error e ≢ ok
unfolding convert_error
convert_error-failure error_file_not_found = λ h. cc
convert_error-failure error_path_not_found = λ h. cc
convert_error-failure error_access_denied = λ h. cc
convert_error-failure error_already_exists = λ h. cc
convert_error-failure error_disk_full = λ h. cc
convert_error-failure (error_other n) = λ h. cc

module _ {W : Type 0} (os : Win32 W) where
  -- What follows the call of `SetFilePointer`.
  abbrev pub by_pointer : ℕ → Bytes → ℕ × W → ℕ × ErrorCode × W
  by_pointer fd bytes r =
      if r.0 == invalid_set_file_pointer
      then (0, generic_error, os.close_handle (some fd) r.1)
      else write_opened os fd bytes r.1

module _ {W : Type 0} (os : Win32 W) (laws : IsLawful os) where
  -- What is known of a writing of `bytes` at `k` to a file of which `kept` is left.
  pub record Writes (p : Wide) (k : ℕ) (kept bytes : Bytes) (rest : List (ℕ × OpenFile))
      (r : ℕ × ErrorCode × W) : Type 0 where
    pub closed : laws.handles r.2 ≡ rest
    pub bounded : r.0 ≤ length bytes
    pub right : r.1 ≡ ok → laws.content r.2 p ≡ some (written_at k (take r.0 bytes) kept)
    pub failed : r.1 ≢ ok → r.0 ≡ 0

  closing-Writes :
      (fd k : ℕ) (h : OpenFile) (p : Wide) (kept bytes : Bytes) (rest : List (ℕ × OpenFile))
      (code : ErrorCode) (w : W)
      → laws.handles w ≡ (fd, h) ∷ rest
      → code ≢ ok
      → Writes p k kept bytes rest (0, code, os.close_handle (some fd) w)
  closing-Writes fd k h p kept bytes rest code w e bad =
      let (closed, same) = laws.closes fd h rest w e in
      record {
        closed = closed;
        bounded = omega arith;
        right = λ success. absurd (bad success);
        failed = λ f. refl;
      }

  abbrev after_write : ℕ → Option ℕ × W → ℕ × ErrorCode × W
  after_write fd r = elim r.0 [
    | none ↦ (0, generic_error, os.close_handle (some fd) r.1)
    | some n ↦ (n, ok, os.close_handle (some fd) r.1)
  ]

  write_opened-after_write :
      (fd : ℕ) (bytes : Bytes) (w : W)
      → length bytes < 2 ^ 32
      → write_opened os fd bytes w ≡ after_write fd (os.write_file fd bytes w)
  unfolding write_opened
  write_opened-after_write fd bytes w small =
      let whole : length bytes % 2 ^ 32 ≡ length bytes = omega arith in
      ap (λ b. after_write fd (os.write_file fd b w))
        (ap (λ n. take n bytes) whole ∙ take-enough (length bytes) bytes (omega arith))

  pub write_opened-Writes :
      (fd : ℕ) (h : OpenFile) (kept bytes : Bytes) (rest : List (ℕ × OpenFile)) (w : W)
      → laws.handles w ≡ (fd, h) ∷ rest
      → laws.content w h.name ≡ some kept
      → length bytes < 2 ^ 32
      → Writes h.name h.position kept bytes rest (write_opened os fd bytes w)
  write_opened-Writes fd h kept bytes rest w e f small =
      let r = os.write_file fd bytes w in
      let (j, k, exact) = laws.writes fd bytes h rest kept w e f in
      let there : OpenFile = record h { position = j } in
      subst (λ v. Writes h.name h.position kept bytes rest v)
        (sym (write_opened-after_write fd bytes w small))
        (elim (Option-cases r.0) [
          | inl failed ↦ rw failed (
              closing-Writes fd h.position there h.name kept bytes rest generic_error r.1 k
                (λ g. cc))
          | inr (n, done) ↦
              let (bound, holds) = exact n done in
              let (closed, same) = laws.closes fd there rest r.1 k in
              rw done (record {
                closed = closed;
                bounded = bound;
                right = λ success. same h.name ∙ holds;
                failed = λ bad. absurd (bad refl);
              })
        ])

  pub by_pointer-Writes :
      (fd k : ℕ) (method : MoveMethod) (h : OpenFile) (kept bytes : Bytes)
      (rest : List (ℕ × OpenFile)) (w : W)
      → laws.handles w ≡ (fd, h) ∷ rest
      → laws.content w h.name ≡ some kept
      → length bytes < 2 ^ 32
      → Writes h.name
          (destination method k kept)
          kept
          bytes
          rest
          (by_pointer os fd bytes (os.set_file_pointer fd k method w))
  by_pointer-Writes fd k method h kept bytes rest w e f small =
      let r = os.set_file_pointer fd k method w in
      let to = destination method k kept in
      let (j, g, l, exact) = laws.points fd k method h rest kept w e f in
      elim (Bool-cases (r.0 == invalid_set_file_pointer)) [
        | inl failed ↦ rw failed (
            closing-Writes fd to (record h { position = j }) h.name kept bytes rest generic_error
              r.1 g (λ b. cc))
        | inr valid ↦
            let at : j ≡ to = exact (ground arith) in
            rw valid (
              write_opened-Writes fd (record h { position = to }) kept bytes rest r.1
                (g ∙ ap (λ a. (fd, record h { position = a }) ∷ rest) at) l small)
      ]
