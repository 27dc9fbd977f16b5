-- ===== src/Directory/DeleteDir.antt =====
-- `deleteDir` of src/device/Directory.cpp, from `fts_open` to `fts_close`.
use lamina_fs.Prelude.{
  ℕ, ◌<◌, ◌||◌, Bool, true, false, ◌≡◌, refl, ap, ◌∙◌, Option, none, some, if◌then◌else◌,
  Bool-cases, Option-cases, inl, inr, ◌⊎◌, ◌>>=◌,
}
use lamina_fs.Types.{ErrorCode, ok, Text}
use lamina_fs.Directory.{DirectoryDevice, get_device_path, convert_error, is_error}
use lamina_fs.Directory.Calls.{Posix}
use lamina_fs.Directory.Errors.{convert_error-failure}
use lamina_fs.Directory.Removal.{delete_entries, delete_dir}
use lamina_fs.Directory.Deleting.{IsFinite, Clears, delete_entries-ends}

module _ {W : Type 0} (os : Posix W) where
  -- Nothing was traversed, or all of the directory was, without an error.
  abbrev pub Cleared : Option ℕ × W → W → Type 0
  Cleared opened after =
      (opened.0 ≡ none)
      ⊎ ((fts : ℕ) × (w : W) × (opened.0 ≡ some fts)
          × Clears os fts opened.1 w
          × (is_error (os.errno w) ≡ false)
          × (after ≡ os.fts_close fts w))

  -- What follows the loop.
  abbrev finish : ℕ → Bool × W → Option (ErrorCode × W)
  finish fts r = some (
    (if r.0 || is_error (os.errno r.1)
        then convert_error (os.errno (os.fts_close fts r.1))
        else ok),
    os.fts_close fts r.1,
  )

  abbrev traversed : ℕ → Option ℕ × W → Option (ErrorCode × W)
  traversed fuel r = elim r.0 [
    | none ↦ some (ok, r.1)
    | some fts ↦ delete_entries os fuel fts (os.fts_read fts r.1) >>= finish fts
  ]

  delete_dir-traversed :
      (fuel : ℕ) (dev : DirectoryDevice) (path p : Text) (w : W)
      → get_device_path dev path ≡ some p
      → delete_dir os fuel dev path w ≡ traversed fuel (os.fts_open p w)
  unfolding delete_dir
  delete_dir-traversed fuel dev path p w at =
      ap (λ o. o >>= λ disk_path. traversed fuel (os.fts_open disk_path w)) at

  -- What the loop's end means for the result.
  finish-ok :
      (fts : ℕ) (error : Bool) (w : W)
      → (if error || is_error (os.errno w)
          then convert_error (os.errno (os.fts_close fts w))
          else ok)
        ≡ ok
      → (error ≡ false) × (is_error (os.errno w) ≡ false)
  finish-ok fts true w e = absurd (convert_error-failure (os.errno (os.fts_close fts w)) e)
  finish-ok fts false w e = elim (Bool-cases (is_error (os.errno w))) [
    | inl bad ↦ absurd (convert_error-failure (os.errno (os.fts_close fts w)) (rw bad at e))
    | inr good ↦ (refl, good)
  ]

  -- Where a traversal has fewer entries left than there is fuel, `deleteDir` ends, on the path of
  -- the host that `getDevicePath` gives. It reports `LFS_OK` only where either no traversal could be
  -- opened, or all of these hold: `remove` succeeded for each entry of the traversal that is a file,
  -- a link, a directory after what it holds or of a type of its own, in the order of the traversal;
  -- nothing was done for the other entries, none of which was an error of the traversal; `errno` was
  -- 0 after the last one; and the traversal has been closed.
  pub delete_dir-ends :
      (finite : IsFinite os) (fuel : ℕ) (dev : DirectoryDevice) (path p : Text) (w : W)
      → get_device_path dev path ≡ some p
      → finite.remaining (os.fts_open p w).1 < fuel
      → (code : ErrorCode) × (w' : W) × (delete_dir os fuel dev path w ≡ some (code, w'))
        × (code ≡ ok → Cleared (os.fts_open p w) w')
  delete_dir-ends finite fuel dev path p w at lt =
      let v = (os.fts_open p w).1 in
      let start = delete_dir-traversed fuel dev path p w at in
      elim (Option-cases (os.fts_open p w).0) [
        | inl e ↦ (ok, v, start ∙ ap (λ o. traversed fuel (o, v)) e, λ f. inl e)
        | inr (fts, e) ↦
            let (error, w', answers, clears) = delete_entries-ends os finite fuel fts v lt in
            (
              (if error || is_error (os.errno w')
                  then convert_error (os.errno (os.fts_close fts w'))
                  else ok),
              os.fts_close fts w',
              start ∙ ap (λ o. traversed fuel (o, v)) e ∙ ap (λ o. o >>= finish fts) answers,
              λ f.
                  let (whole, quiet) = finish-ok fts error w' f in
                  inr (fts, w', e, clears whole, quiet, refl),
            )
      ]
