-- ===== src/Directory/Removal.antt =====
-- src/device/Directory.cpp: `deleteFile`, `createDir` and `deleteDir`.
use lamina_fs.Prelude.{
  ℕ, zero, suc, Bool, true, false, ◌||◌, not, Option, none, some, if◌then◌else◌, ◌>>=◌,
}
use lamina_fs.Types.{ErrorCode, ok, Text}
use lamina_fs.Directory.Calls.{
  FtsEntry, Posix, fts_d, fts_default, fts_dp, fts_f, fts_sl, fts_slnone, fts_dc, fts_dot, fts_nsok,
  fts_ns, fts_dnr, fts_err, fts_other,
}
use lamina_fs.Directory.{DirectoryDevice, convert_error, get_device_path, is_error}

module _ {W : Type 0} (os : Posix W) where
  -- `deleteFile`
  unfoldable pub delete_file : DirectoryDevice → Text → W → Option (ErrorCode × W)
  unfolding get_device_path convert_error
  delete_file dev file_path w = do
    disk_path ← get_device_path dev file_path
    let (done, w') = os.unlink disk_path w
    some (if done then ok else convert_error (os.errno w'), w')

  -- `createDir`
  unfoldable pub create_dir : DirectoryDevice → Text → W → Option (ErrorCode × W)
  unfolding get_device_path convert_error
  create_dir dev path w = do
    disk_path ← get_device_path dev path
    let (done, w') = os.mkdir disk_path w
    some (if done then ok else convert_error (os.errno w'), w')

  -- The `switch` of `deleteDir`: the flag `error`.
  abbrev pub remove_entry : FtsEntry → W → Bool × W
  remove_entry ent w = let (removed, w') = os.remove ent.fts_accpath w in (not removed, w')

  abbrev pub failed_entry : FtsEntry → W → Bool × W
  failed_entry ent w = (true, os.set_errno ent.fts_errno w)

  unfoldable pub visit_entry : FtsEntry → W → Bool × W
  visit_entry ent w = elim ent.fts_info [
    | fts_d ↦ (false, w)
    | fts_default ↦ remove_entry ent w
    | fts_dp ↦ remove_entry ent w
    | fts_f ↦ remove_entry ent w
    | fts_sl ↦ remove_entry ent w
    | fts_slnone ↦ remove_entry ent w
    | fts_dc ↦ (false, w)
    | fts_dot ↦ (false, w)
    | fts_nsok ↦ (false, w)
    | fts_ns ↦ failed_entry ent w
    | fts_dnr ↦ failed_entry ent w
    | fts_err ↦ failed_entry ent w
    | fts_other ↦ (false, w)
  ]

  -- The loop of `deleteDir`, from the entry that `fts_read` has returned.
  unfoldable pub delete_entries : ℕ → ℕ → Option FtsEntry × W → Option (Bool × W)
  unfolding visit_entry
  delete_entries zero fts r = none
  delete_entries (suc fuel) fts (none, w) = some (false, w)
  delete_entries (suc fuel) fts (some ent, w) =
      let (error, w') = visit_entry ent w in
      let rest = delete_entries fuel fts (os.fts_read fts w') in
      if error then some (true, w') else rest

  -- `deleteDir`
  unfoldable pub delete_dir : ℕ → DirectoryDevice → Text → W → Option (ErrorCode × W)
  unfolding get_device_path convert_error delete_entries
  delete_dir fuel dev path w = do
    disk_path ← get_device_path dev path
    let (opened, w₁) = os.fts_open disk_path w
    elim opened [
      | none ↦ some (ok, w₁)
      | some fts ↦ do
        (error, w₂) ← delete_entries fuel fts (os.fts_read fts w₁)
        let w₃ = os.fts_close fts w₂
        some (if error || is_error (os.errno w₂) then convert_error (os.errno w₃) else ok, w₃)
    ]
