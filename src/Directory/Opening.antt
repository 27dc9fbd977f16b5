-- ===== src/Directory/Opening.antt =====
-- `openFile` of src/device/Directory.cpp, on a path of the host.
use lamina_fs.Prelude.{
  ℕ, ◌≤◌, ◌<◌, false, ◌≡◌, refl, ap, ◌∙◌, Option, none, some, [], ◌∷◌, if◌then◌else◌, arith, ◌>>=◌,
}
use lamina_fs.Types.{Text, Bytes}
use lamina_fs.Directory.{retry, DirectoryDevice, get_device_path, open_file}
use lamina_fs.Directory.Calls.{Posix, OpenFlags}
use lamina_fs.Directory.Retry.{retry-Retries}
use lamina_fs.Directory.Laws.{Handle, IsLawful}

abbrev pub read_flags : OpenFlags
read_flags = record { writes = false; creates = false; truncates = false; appends = false }

abbrev pub handle_of : Text → OpenFlags → Handle
handle_of p flags = record { name = p; position = 0; appends = flags.appends }

module _ {W : Type 0} (os : Posix W) (laws : IsLawful os) where
  pub record Opens (fuel : ℕ) (dev : DirectoryDevice) (path p : Text) (flags : OpenFlags)
      (c : Bytes) (w : W) : Type 0 where
    pub result : Option ℕ
    pub after : W
    pub answers : open_file os fuel dev path flags w ≡ some (result, after)
    pub failed :
        result ≡ none → (laws.handles after ≡ laws.handles w) × (laws.content after p ≡ some c)
    pub done :
        (fd : ℕ)
        → result ≡ some fd
        → (laws.handles after ≡ (fd, handle_of p flags) ∷ laws.handles w)
          × (laws.content after p ≡ some (if flags.truncates then [] else c))
          × (laws.interruptions after ≤ laws.interruptions w)

  pub open_file-Opens :
      (fuel : ℕ) (dev : DirectoryDevice) (path p : Text) (flags : OpenFlags) (c : Bytes) (w : W)
      → get_device_path dev path ≡ some p
      → laws.content w p ≡ some c
      → laws.interruptions w < fuel
      → Opens fuel dev path p flags c w
  unfolding open_file
  open_file-Opens fuel dev path p flags c w at holds lt =
      let r =
        retry-Retries os (λ v. (laws.handles v ≡ laws.handles w) × (laws.content v p ≡ some c))
          laws.interruptions (os.open_path p flags 420)
          (λ v v' g again (k, l).
            let (k', l', less) = laws.open_fails p flags 420 v v' g in
            ((k' ∙ k, l' ∙ l), ground (arith, less, again)))
          fuel w (refl, holds) lt in
      record {
        result = r.result;
        after = r.after;
        answers = ap (λ o. o >>= λ q. retry os fuel (os.open_path q flags 420) w) at ∙ r.answers;
        failed = λ e.
            let (k, l, less) =
              laws.open_fails p flags 420 r.before r.after (r.called ∙ ap (λ o. (o, r.after)) e) in
            (k ∙ r.kept.0, l ∙ r.kept.1);
        done = λ fd e.
            let (k, l, less) =
              laws.open_ok p flags 420 fd r.before r.after (r.called ∙ ap (λ o. (o, r.after)) e) in
            (
              k ∙ ap (λ hs. (fd, handle_of p flags) ∷ hs) r.kept.0,
              l c r.kept.1,
              omega (arith, less, r.bounded),
            );
      }
