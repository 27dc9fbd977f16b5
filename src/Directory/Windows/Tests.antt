-- ===== src/Directory/Windows/Tests.antt =====
-- Runs of the Windows branches of src/device/Directory.cpp, on a directory /srv with one file.
use lamina_fs.Prelude.{ℕ, true, ◌≡◌, refl, none, some, [], ◌∷◌, arith}
use lamina_fs.Types.{ErrorCode, generic_error, append, Text}
use lamina_fs.Mounts.Tests.{text}
use lamina_fs.Directory.{DirectoryDevice, get_device_path}
use lamina_fs.Directory.Windows.{disk_path, widen, windows_path, with_backslashes}
use lamina_fs.Directory.Windows.Calls.{error_other}
use lamina_fs.Directory.Windows.Memory.{Volume, volume}
use lamina_fs.Directory.Windows.MemoryLawful.{volume_laws}
use lamina_fs.Directory.Windows.Files.{read_file, write_file}
use lamina_fs.Directory.Windows.Reading.{Reads}
use lamina_fs.Directory.Windows.ReadFile.{read_file_on_windows-Reads}
use lamina_fs.Directory.Windows.Writing.{Writes}
use lamina_fs.Directory.Windows.WriteFile.{write_position, write_file_on_windows-Writes}
use lamina_fs.Directory.Writing.{kept_by}

abbrev disk : Volume
disk = record {
  files = λ p. some (1 ∷ 2 ∷ 3 ∷ 4 ∷ 5 ∷ []);
  open_files = [];
  last_error = error_other 0;
}

abbrev device : DirectoryDevice
device = record { path = text "/srv"; path_len = 4 }

abbrev host_path : Text
host_path = with_backslashes (text "/srv/a")

there : windows_path volume device (text "/a") ≡ some host_path
unfolding get_device_path disk_path widen
there = refl

read_file_on_windows-Reads_example :
    Reads volume volume_laws host_path
      (1 ∷ 2 ∷ 3 ∷ 4 ∷ 5 ∷ [])
      (2 ∷ 3 ∷ [])
      []
      true
      (read_file volume device (text "/a") 1 2 none true generic_error disk)
read_file_on_windows-Reads_example =
    read_file_on_windows-Reads volume volume_laws device (text "/a") host_path 1 2
      (1 ∷ 2 ∷ 3 ∷ 4 ∷ 5 ∷ []) none true generic_error disk there refl (omega arith) (omega arith)
      (λ e. omega arith) (λ e. cc)

write_file_on_windows-Writes_example :
    (r : ℕ × ErrorCode × Volume) × (write_file volume device (text "/a") 0 (8 ∷ 9 ∷ []) append disk
      ≡ some r)
    × Writes volume volume_laws host_path
        (write_position append 0 (kept_by append (1 ∷ 2 ∷ 3 ∷ 4 ∷ 5 ∷ [])))
        (kept_by append (1 ∷ 2 ∷ 3 ∷ 4 ∷ 5 ∷ []))
        (8 ∷ 9 ∷ [])
        []
        r
write_file_on_windows-Writes_example =
    write_file_on_windows-Writes volume volume_laws device (text "/a") host_path 0
      (1 ∷ 2 ∷ 3 ∷ 4 ∷ 5 ∷ []) (8 ∷ 9 ∷ []) append disk there refl (omega arith)
