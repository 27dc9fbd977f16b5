-- ===== src/Directory/Reports.antt =====
-- What `deleteFile`, `createDir` and `fileSize` of src/device/Directory.cpp report.
use lamina_fs.Prelude.{
  ℕ, Bool, true, false, ◌≡◌, ◌↔◌, refl, ap, ◌∙◌, Option, none, some, if◌then◌else◌, Bool-cases, inl,
  inr, ◌>>=◌,
}
use lamina_fs.Types.{ErrorCode, ok, unsupported, Text}
use lamina_fs.Directory.{DirectoryDevice, get_device_path, convert_error, file_size}
use lamina_fs.Directory.Calls.{Errno, StatInfo, Posix}
use lamina_fs.Directory.Errors.{convert_error-failure}
use lamina_fs.Directory.Removal.{delete_file, create_dir}

abbrev pub is_regular : Option StatInfo → Bool
is_regular none = false
is_regular (some s) = s.is_reg

-- The size of a regular file, and 0 of anything else.
abbrev pub size_of : Option StatInfo → ℕ
size_of none = 0
size_of (some s) = if s.is_reg then s.st_size else 0

abbrev code_of : Bool → Errno → ErrorCode
code_of done e = if done then ok else convert_error e

code_of-ok : (done : Bool) (e : Errno) → (code_of done e ≡ ok) ↔ (done ≡ true)
code_of-ok true e = (λ h. refl, λ h. refl)
code_of-ok false e = (λ h. absurd (convert_error-failure e h), λ h. cc)

module _ {W : Type 0} (os : Posix W) where
  abbrev sized : Option StatInfo → W → ℕ × ErrorCode × W
  sized o w = elim o [
    | none ↦ (0, convert_error (os.errno w), w)
    | some s ↦ if s.is_reg then (s.st_size, ok, w) else (0, unsupported, w)
  ]

  sized-ok :
      (o : Option StatInfo) (w : W)
      → ((sized o w).2 ≡ w)
        × (((sized o w).1 ≡ ok) ↔ (is_regular o ≡ true))
        × ((sized o w).0 ≡ size_of o)
  sized-ok none w = (refl, (λ h. absurd (convert_error-failure (os.errno w) h), λ h. cc), refl)
  sized-ok (some s) w = elim (Bool-cases s.is_reg) [
    | inl e ↦ rw e (refl, (λ h. refl, λ h. refl), refl)
    | inr e ↦ rw e (refl, (λ h. cc, λ h. cc), refl)
  ]

  -- On the path of the host that `getDevicePath` gives, `deleteFile` and `createDir` report `LFS_OK`
  -- exactly when `unlink` and `mkdir` succeed, and `fileSize` does exactly when `stat` finds a
  -- regular file; the size is then that of the file, and 0 otherwise.
  pub reports_failures :
      (dev : DirectoryDevice) (path p : Text) (out_error : ErrorCode) (w : W)
      → get_device_path dev path ≡ some p
      → ((code : ErrorCode) × (delete_file os dev path w ≡ some (code, (os.unlink p w).1))
          × ((code ≡ ok) ↔ ((os.unlink p w).0 ≡ true)))
        × ((code : ErrorCode) × (create_dir os dev path w ≡ some (code, (os.mkdir p w).1))
            × ((code ≡ ok) ↔ ((os.mkdir p w).0 ≡ true)))
        × ((n : ℕ) × (code : ErrorCode) × (file_size os dev path out_error w
              ≡ some (n, code, (os.stat p w).1))
            × ((code ≡ ok) ↔ (is_regular (os.stat p w).0 ≡ true))
            × (n ≡ size_of (os.stat p w).0))
  unfolding delete_file create_dir file_size
  reports_failures dev path p out_error w at =
      let (after, regular, sizes) = sized-ok (os.stat p w).0 (os.stat p w).1 in
      (
        (
          code_of (os.unlink p w).0 (os.errno (os.unlink p w).1),
          ap
              (λ o. o >>= λ q.
                some (code_of (os.unlink q w).0 (os.errno (os.unlink q w).1), (os.unlink q w).1))
              at,
          code_of-ok (os.unlink p w).0 (os.errno (os.unlink p w).1),
        ),
        (
          code_of (os.mkdir p w).0 (os.errno (os.mkdir p w).1),
          ap
              (λ o. o >>= λ q.
                some (code_of (os.mkdir q w).0 (os.errno (os.mkdir q w).1), (os.mkdir q w).1))
              at,
          code_of-ok (os.mkdir p w).0 (os.errno (os.mkdir p w).1),
        ),
        (
          (sized (os.stat p w).0 (os.stat p w).1).0,
          (sized (os.stat p w).0 (os.stat p w).1).1,
          ap (λ o. o >>= λ q. some (sized (os.stat q w).0 (os.stat q w).1)) at
              ∙ ap
                  (λ v. some (
                    (sized (os.stat p w).0 (os.stat p w).1).0,
                    (sized (os.stat p w).0 (os.stat p w).1).1,
                    v,
                  ))
                  after,
          regular,
          sizes,
        ),
      )
