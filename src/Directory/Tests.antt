-- ===== src/Directory/Tests.antt =====
-- A directory /srv with one file, on a system that interrupts the first two calls.
use lamina_fs.Prelude.{
  ℕ, zero, suc, ◌-◌, ◌^◌, ◌<◌, ◌^◌, true, false, ◌≡◌, refl, subst, Option, none, some, [], ◌∷◌,
  arith,
}
use lamina_fs.Types.{ErrorCode, ok, generic_error, truncate, append}
use lamina_fs.Mounts.Tests.{text}
use lamina_fs.Directory.{DirectoryDevice, get_device_path}
use lamina_fs.Directory.Calls.{Posix, no_error, eintr, FtsEntry, fts_f}
use lamina_fs.Directory.Memory.{Disk, memory, put}
use lamina_fs.Directory.MemoryLawful.{memory_laws}
use lamina_fs.Directory.Files.{read_file, write_file, write_opened}
use lamina_fs.Directory.Reading.{Reads}
use lamina_fs.Directory.EmptyFile.{Refuses, read_file-Refuses}
use lamina_fs.Types.{not_found}
use lamina_fs.Directory.ReadFile.{read_file-Reads}
use lamina_fs.Directory.Writing.{Writes}
use lamina_fs.Directory.WriteFile.{write_file-Writes, write_file-read_file}
use lamina_fs.Directory.Removal.{delete_dir}
use lamina_fs.Directory.Deleting.{IsFinite}
use lamina_fs.Directory.Reports.{is_regular, size_of, reports_failures}
use lamina_fs.Directory.{file_size}
use lamina_fs.Directory.Removal.{delete_file, create_dir}
use lamina_fs.Prelude.{◌↔◌}
use lamina_fs.Directory.DeleteDir.{Cleared, delete_dir-ends}
use lamina_fs.Directory.{retry, open_file}

abbrev pub disk : Disk
disk = record {
  files = λ p. some (1 ∷ 2 ∷ 3 ∷ 4 ∷ 5 ∷ []);
  open_files = [];
  errno = no_error;
  pending = 2;
}

abbrev pub device : DirectoryDevice
device = record { path = text "/srv"; path_len = 4 }

pub there : get_device_path device (text "/a") ≡ some (text "/srv/a")
unfolding get_device_path
there = refl

read_file-Reads_example :
    Reads memory memory_laws
      (text "/srv/a")
      (1 ∷ 2 ∷ 3 ∷ 4 ∷ 5 ∷ [])
      (2 ∷ 3 ∷ [])
      1
      []
      true
      (read_file memory 3 device (text "/a") 1 2 none true generic_error disk)
read_file-Reads_example =
    read_file-Reads memory memory_laws 3 device (text "/a") (text "/srv/a") 1 2
      (1 ∷ 2 ∷ 3 ∷ 4 ∷ 5 ∷ []) none true generic_error disk there refl (omega arith) (omega arith)
      (λ e. omega arith) (omega arith)

write_file-Writes_example :
    Writes memory memory_laws
      (text "/srv/a")
      (1 ∷ 2 ∷ 3 ∷ 4 ∷ 5 ∷ [])
      (8 ∷ 9 ∷ [])
      []
      append
      0
      (write_file memory 3 device (text "/a") 0 (8 ∷ 9 ∷ []) append generic_error disk)
write_file-Writes_example =
    write_file-Writes memory memory_laws 3 device (text "/a") (text "/srv/a") 0
      (1 ∷ 2 ∷ 3 ∷ 4 ∷ 5 ∷ []) (8 ∷ 9 ∷ []) append generic_error disk there refl (omega arith)
      (omega arith)

-- The disk when the file holds 8 and 9.
abbrev pub written_disk : Disk
written_disk = record {
  files = put (text "/srv/a") (8 ∷ 9 ∷ []) (put (text "/srv/a") [] disk.files);
  open_files = [];
  errno = eintr;
  pending = 0;
}

writes_all :
    write_file memory 3 device (text "/a") 0 (8 ∷ 9 ∷ []) truncate generic_error disk
    ≡ some (2, ok, written_disk)
unfolding write_file write_opened open_file retry get_device_path
writes_all = refl

write_file-read_file_example :
    Reads memory memory_laws
      (text "/srv/a")
      (8 ∷ 9 ∷ [])
      (8 ∷ 9 ∷ [])
      0
      []
      false
      (read_file memory 3 device (text "/a") 0 (2 ^ 64 - 1) none false generic_error written_disk)
write_file-read_file_example =
    write_file-read_file memory memory_laws 3 device (text "/a") (text "/srv/a")
      (1 ∷ 2 ∷ 3 ∷ 4 ∷ 5 ∷ []) (8 ∷ 9 ∷ []) (2 ^ 64 - 1) none false generic_error generic_error disk
      written_disk there refl (omega arith) (omega arith) (omega arith) (omega arith) writes_all

abbrev next_entry : ℕ → Option FtsEntry × ℕ
next_entry zero = (none, 0)
next_entry (suc w) =
    (some (record { fts_info = fts_f; fts_accpath = text "/srv/a/b"; fts_errno = no_error }), w)

abbrev Counts : ℕ → Option FtsEntry × ℕ → Type 0
Counts w (none, w') = Unit
Counts w (some ent, w') = w' < w

next_entry-Counts : (w : ℕ) → Counts w (next_entry w)
next_entry-Counts zero = tt
next_entry-Counts (suc w) = omega arith

-- A system whose state is the number of files of a directory that are still to be visited.
abbrev countdown : Posix ℕ
countdown = record {
  errno = λ w. no_error;
  set_errno = λ e w. w;
  stat = λ p w. (none, w);
  open_path = λ p flags mode w. (none, w);
  lseek = λ fd k whence w. (none, w);
  read = λ fd n w. (none, w);
  write = λ fd bytes w. (none, w);
  close = λ fd w. w;
  unlink = λ p w. (true, w);
  mkdir = λ p w. (true, w);
  remove = λ p w. (true, w);
  fts_open = λ p w. (some 1, w);
  fts_read = λ fts w. next_entry w;
  fts_close = λ fts w. w;
  alloc = λ n w. (true, w);
  free = λ w. w;
}

abbrev countdown_finite : IsFinite countdown
countdown_finite = record {
  remaining = λ w. w;
  reads = λ fts ent w w' e. subst (Counts w) e (next_entry-Counts w);
  removes = λ p w. omega arith;
  sets = λ e w. omega arith;
}

delete_dir-ends_example :
    (code : ErrorCode) × (w' : ℕ) × (delete_dir countdown 4 device (text "/a") 3 ≡ some (code, w'))
    × (code ≡ ok → Cleared countdown (countdown.fts_open (text "/srv/a") 3) w')
delete_dir-ends_example =
    delete_dir-ends countdown countdown_finite 4 device (text "/a") (text "/srv/a") 3 there
      (omega arith)

reports_failures_example :
    ((code : ErrorCode) × (delete_file memory device (text "/a") disk
        ≡ some (code, (memory.unlink (text "/srv/a") disk).1))
      × ((code ≡ ok) ↔ ((memory.unlink (text "/srv/a") disk).0 ≡ true)))
    × ((code : ErrorCode) × (create_dir memory device (text "/a") disk
          ≡ some (code, (memory.mkdir (text "/srv/a") disk).1))
        × ((code ≡ ok) ↔ ((memory.mkdir (text "/srv/a") disk).0 ≡ true)))
    × ((n : ℕ) × (code : ErrorCode) × (file_size memory device (text "/a") ok disk
          ≡ some (n, code, (memory.stat (text "/srv/a") disk).1))
        × ((code ≡ ok) ↔ (is_regular (memory.stat (text "/srv/a") disk).0 ≡ true))
        × (n ≡ size_of (memory.stat (text "/srv/a") disk).0))
reports_failures_example = reports_failures memory device (text "/a") (text "/srv/a") ok disk there

abbrev empty_disk : Disk
empty_disk = record disk { files = λ p. some [] }

read_file-Refuses_example :
    Refuses memory memory_laws none
      (read_file memory 3 device (text "/a") 0 (2 ^ 64 - 1) none true not_found empty_disk)
read_file-Refuses_example =
    read_file-Refuses memory memory_laws 3 device (text "/a") (text "/srv/a") 0 (2 ^ 64 - 1) none
      true empty_disk there refl (omega arith)
