-- ===== src/Directory/Windows/ReadFile.antt =====
-- `readFile` of src/device/Directory.cpp, as it is compiled for Windows, from the opening to the
-- closing.
use lamina_fs.Prelude.{
  ℕ, ◌+◌, ◌^◌, ◌%◌, ◌≤◌, ◌<◌, Bool, ◌≡◌, ◌≢◌, refl, sym, ap, ◌∙◌, subst, Option, none, some, List,
  ◌∷◌, length, take, drop, leb, ◌==◌, if◌then◌else◌, Option-cases, Bool-cases, inl, inr, arith,
  ◌>>=◌,
}
use lamina_fs.Types.{ErrorCode, ok, not_found, Text, Bytes}
use lamina_fs.Directory.{DirectoryDevice}
use lamina_fs.Directory.Portion.{
  counted, take-counted, take-enough, length-drop, length-take_le_all,
}
use lamina_fs.Directory.Windows.{windows_path, open_file, convert_error}
use lamina_fs.Directory.Windows.Calls.{Wide, Win32, generic_read, open_existing}
use lamina_fs.Directory.Windows.Laws.{OpenFile, fresh, IsLawful}
use lamina_fs.Directory.Windows.Files.{read_contents, read_file}
use lamina_fs.Directory.Windows.Writing.{convert_error-failure}
use lamina_fs.Directory.Windows.Reading.{Reads, closing-Reads, read_contents-Reads}

take-counted_dword :
    (c : Bytes) (offset max_bytes : ℕ)
    → length c < 2 ^ 32
    → offset < 2 ^ 63
    → take (counted (length c) offset max_bytes % 2 ^ 32) (drop offset c)
      ≡ take max_bytes (drop offset c)
take-counted_dword c offset max_bytes small in_range = elim (Bool-cases (leb offset (length c))) [
  | inl inside ↦
      let le : offset ≤ length c = ground arith in
      let whole : counted (length c) offset max_bytes % 2 ^ 32
          ≡ counted (length c) offset max_bytes =
        ground arith in
      ap (λ n. take n (drop offset c)) whole
      ∙ take-counted c offset max_bytes (omega arith) (omega arith)
  | inr outside ↦
      let lt : length c < offset = ground arith in
      take-enough (counted (length c) offset max_bytes % 2 ^ 32) (drop offset c)
        (omega (arith, length-drop offset c))
      ∙ sym (take-enough max_bytes (drop offset c) (omega (arith, length-drop offset c)))
]

module _ {W : Type 0} (os : Win32 W) where
  -- What follows the opening, and the call of `GetFileSizeEx`.
  abbrev pub by_size :
      ℕ
      → ℕ
      → Option Bytes
      → Bool
      → ErrorCode
      → ℕ
      → Option ℕ × W
      → Option (ℕ × Option Bytes × ErrorCode × W)
  by_size offset max_bytes buffer null_terminate out_error fd r = elim r.0 [
    | none ↦ some (0, buffer, convert_error (os.get_last_error r.1), os.close_handle (some fd) r.1)
    | some n ↦
        if n == 0
        then some (0, none, ok, os.close_handle (some fd) r.1)
        else read_contents os fd n offset max_bytes buffer null_terminate out_error r.1
  ]

  abbrev pub after_open :
      ℕ
      → ℕ
      → Option Bytes
      → Bool
      → ErrorCode
      → Option ℕ × W
      → Option (ℕ × Option Bytes × ErrorCode × W)
  after_open offset max_bytes buffer null_terminate out_error r = elim r.0 [
    | none ↦ some (0, buffer, not_found, r.1)
    | some fd ↦
        by_size offset max_bytes buffer null_terminate out_error fd (os.get_file_size_ex fd r.1)
  ]

  pub read_file-after_open :
      (dev : DirectoryDevice) (path : Text) (p : Wide) (offset max_bytes : ℕ)
      (buffer : Option Bytes) (null_terminate : Bool) (out_error : ErrorCode) (w : W)
      → windows_path os dev path ≡ some p
      → read_file os dev path offset max_bytes buffer null_terminate out_error w
        ≡ after_open offset max_bytes buffer null_terminate out_error
            (os.create_file p generic_read open_existing w)
  unfolding read_file open_file
  read_file-after_open dev path p offset max_bytes buffer null_terminate out_error w at =
      ap
        (λ o.
          (o >>= λ q. some (os.create_file q generic_read open_existing w))
          >>= after_open offset max_bytes buffer null_terminate out_error)
        at

module _ {W : Type 0} (os : Win32 W) (laws : IsLawful os) (offset max_bytes : ℕ) (c : Bytes)
    (buffer : Option Bytes) (null_terminate : Bool) (out_error : ErrorCode)
    (small : length c < 2 ^ 32) (in_range : offset < 2 ^ 63) (some_room : offset ≢ length c + 1)
    (unset : out_error ≢ ok) where
  nothing_wanted : length c ≡ 0 → 0 ≡ length (take max_bytes (drop offset c))
  nothing_wanted empty =
      omega (arith, length-take_le_all max_bytes (drop offset c), length-drop offset c)

  size-Reads :
      (fd : ℕ) (h : OpenFile) (rest : List (ℕ × OpenFile)) (w : W)
      → laws.handles w ≡ (fd, h) ∷ rest
      → laws.content w h.name ≡ some c
      → Reads os laws h.name c (take max_bytes (drop offset c)) rest null_terminate (
          by_size os offset max_bytes buffer null_terminate out_error fd (os.get_file_size_ex fd w))
  size-Reads fd h rest w e f =
      let wanted = take max_bytes (drop offset c) in
      let r = os.get_file_size_ex fd w in
      let (k, l, exact) = laws.sizes fd h rest c w e f in
      elim (Option-cases r.0) [
        | inl failed ↦ rw failed (
            closing-Reads os laws fd h rest c wanted null_terminate buffer
              (convert_error (os.get_last_error r.1)) r.1 k l
              (λ success. absurd (convert_error-failure (os.get_last_error r.1) success)))
        | inr (n, done) ↦
            rw (done, exact n done)
              (elim (Bool-cases (length c == 0)) [
                | inl empty ↦ rw empty (
                    closing-Reads os laws fd h rest c wanted null_terminate none ok r.1 k l
                      (λ success. inl (nothing_wanted (ground arith))))
                | inr full ↦ rw full (
                    subst
                      (λ b. Reads os laws h.name c b rest null_terminate (
                        read_contents os fd (length c) offset max_bytes buffer null_terminate
                          out_error r.1))
                      (take-counted_dword c offset max_bytes small in_range)
                      (read_contents-Reads os laws fd offset max_bytes h rest c buffer
                        null_terminate out_error r.1 k l small in_range some_room unset))
              ])
      ]

  open-Reads :
      (p : Wide) (w : W)
      → laws.content w p ≡ some c
      → Reads os laws p c (take max_bytes (drop offset c)) (laws.handles w) null_terminate (
          after_open os offset max_bytes buffer null_terminate out_error
            (os.create_file p generic_read open_existing w))
  open-Reads p w f =
      let r = os.create_file p generic_read open_existing w in
      elim (Option-cases r.0) [
        | inl failed ↦
            let (k, l) = laws.open_fails p generic_read open_existing w failed in
            rw failed (record {
              bytes_read = 0;
              buffer = buffer;
              error = not_found;
              after = r.1;
              answers = refl;
              closed = k;
              unchanged = l ∙ f;
              right = λ lt. absurd (omega arith);
              complete = λ success. cc;
            })
        | inr (fd, done) ↦
            let (k, l) = laws.opens p generic_read open_existing fd w done in
            rw done (size-Reads fd (fresh p) (laws.handles w) r.1 k (l c f))
      ]

module _ {W : Type 0} (os : Win32 W) (laws : IsLawful os) where
  -- On Windows, on a system that meets the laws, a reading of at most `max_bytes` bytes from `offset`
  -- of a file ends, without a fault: it closes the handle that it opens, on every path, and leaves
  -- the file as it is. If it reports any bytes, the buffer holds exactly the bytes of the file that
  -- were asked for, with the terminator if one was, and the error is `LFS_OK`. Where the error is
  -- `LFS_OK`, it reports all the bytes asked for that are there, unless the last call before the
  -- closing was a `ReadFile` that failed. The path fits its buffer of wide characters, the file has
  -- fewer than 2 ^ 32 bytes, the offset is below 2 ^ 63 and not one more than the size, the client's
  -- allocator does not fail, and `*outError` is not `LFS_OK` before the call.
  pub read_file_on_windows-Reads :
      (dev : DirectoryDevice) (path : Text) (p : Wide) (offset max_bytes : ℕ) (c : Bytes)
      (buffer : Option Bytes) (null_terminate : Bool) (out_error : ErrorCode) (w : W)
      → windows_path os dev path ≡ some p
      → laws.content w p ≡ some c
      → length c < 2 ^ 32
      → offset < 2 ^ 63
      → offset ≢ length c + 1
      → out_error ≢ ok
      → Reads os laws p c
          (take max_bytes (drop offset c))
          (laws.handles w)
          null_terminate
          (read_file os dev path offset max_bytes buffer null_terminate out_error w)
  read_file_on_windows-Reads dev path p offset max_bytes c buffer null_terminate out_error w at
        holds small in_range some_room unset =
      subst
        (λ o. Reads os laws p c (take max_bytes (drop offset c)) (laws.handles w) null_terminate o)
        (sym (
          read_file-after_open os dev path p offset max_bytes buffer null_terminate out_error w at))
        (open-Reads os laws offset max_bytes c buffer null_terminate out_error small in_range
          some_room unset p w holds)
