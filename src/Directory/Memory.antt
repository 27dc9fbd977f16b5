-- ===== src/Directory/Memory.antt =====
-- A system that meets the laws of Directory/Laws, for the tests: its files are in memory, a call is
-- interrupted as often as `pending` says, and the calls act on the descriptor that was opened last.
use lamina_fs.Prelude.{
  ℕ, zero, suc, ◌+◌, Bool, true, false, ◌&&◌, ◌≡◌, refl, Option, none, some, List, [], ◌∷◌, length,
  take, drop, ◌==◌, if◌then◌else◌, ==_refl,
}
use lamina_fs.Types.{Text, Bytes}
use lamina_fs.Directory.Calls.{
  Errno, enoent, eintr, other_error, OpenFlags, Whence, seek_set, seek_end, Posix,
}
use lamina_fs.Directory.Laws.{Handle, moved, advanced, written}

pub record Disk : Type 0 where
  pub files : Text → Option Bytes
  pub open_files : List (ℕ × Handle)
  pub errno : Errno
  pub pending : ℕ

abbrev pub same_text : Text → Text → Bool
same_text [] [] = true
same_text [] (d ∷ q) = false
same_text (c ∷ p) [] = false
same_text (c ∷ p) (d ∷ q) = (c == d) && same_text p q

same_text_self : (p : Text) → same_text p p ≡ true
same_text_self [] = refl
same_text_self (c ∷ p) = rw (==_refl c, same_text_self p) refl

abbrev pub put : Text → Bytes → (Text → Option Bytes) → Text → Option Bytes
put p c files q = if same_text p q then some c else files q

pub put_self : (p : Text) (c : Bytes) (files : Text → Option Bytes) → put p c files p ≡ some c
put_self p c files = rw (same_text_self p) refl

abbrev pub interrupted : ℕ → Disk → Disk
interrupted n w = record w { pending = n; errno = eintr }

-- The file to open, when there is one or it is created.
abbrev pub found : OpenFlags → Option Bytes → Option Bytes
found flags none = if flags.creates then some [] else none
found flags (some c) = some (if flags.truncates then [] else c)

abbrev pub opened : Text → OpenFlags → Option Bytes → Disk → Option ℕ × Disk
opened p flags none w = (none, record w { errno = enoent })
opened p flags (some c) w = (
  some (length w.open_files),
  record w {
    files = put p c w.files;
    open_files =
        (length w.open_files, record { name = p; position = 0; appends = flags.appends })
        ∷ w.open_files;
  },
)

abbrev pub open_in : ℕ → Text → OpenFlags → Disk → Option ℕ × Disk
open_in (suc n) p flags w = (none, interrupted n w)
open_in zero p flags w = opened p flags (found flags (w.files p)) w

abbrev pub bad_descriptor : Disk → Disk
bad_descriptor w = record w { errno = other_error 9 }

-- Where a seek goes, if it goes anywhere.
abbrev pub target : Whence → ℕ → Option Bytes → Option ℕ
target seek_set k o = some k
target seek_end k none = none
target seek_end k (some c) = some (length c + k)

abbrev pub seek_in : List (ℕ × Handle) → ℕ → Whence → Disk → Option ℕ × Disk
seek_in [] k whence w = (none, bad_descriptor w)
seek_in (x ∷ rest) k whence w = (
  target whence k (w.files x.1.name),
  record w { open_files = (x.0, moved (target whence k (w.files x.1.name)) x.1) ∷ rest },
)

abbrev pub read_file_in :
    ℕ × Handle → List (ℕ × Handle) → ℕ → Option Bytes → Disk → Option Bytes × Disk
read_file_in x rest n none w = (none, bad_descriptor w)
read_file_in x rest n (some c) w =
    let bytes = take n (drop x.1.position c) in
    (some bytes, record w { open_files = (x.0, advanced (some bytes) x.1) ∷ rest })

abbrev pub read_in : ℕ → List (ℕ × Handle) → ℕ → Disk → Option Bytes × Disk
read_in m [] n w = (none, bad_descriptor w)
read_in (suc m) (x ∷ rest) n w = (none, interrupted m w)
read_in zero (x ∷ rest) n w = read_file_in x rest n (w.files x.1.name) w

abbrev pub write_file_in :
    ℕ × Handle → List (ℕ × Handle) → Bytes → Option Bytes → Disk → Option ℕ × Disk
write_file_in x rest bytes none w = (none, bad_descriptor w)
write_file_in x rest bytes (some c) w =
    (some (length bytes), record w { files = put x.1.name (written x.1 bytes c) w.files })

abbrev pub write_in : ℕ → List (ℕ × Handle) → Bytes → Disk → Option ℕ × Disk
write_in m [] bytes w = (none, bad_descriptor w)
write_in (suc m) (x ∷ rest) bytes w = (none, interrupted m w)
write_in zero (x ∷ rest) bytes w = write_file_in x rest bytes (w.files x.1.name) w

abbrev pub close_in : List (ℕ × Handle) → Disk → Disk
close_in [] w = w
close_in (x ∷ rest) w = record w { open_files = rest }

abbrev pub memory : Posix Disk
memory = record {
  errno = λ w. w.errno;
  set_errno = λ e w. record w { errno = e };
  stat = λ p w. elim (w.files p) [
    | none ↦ (none, record w { errno = enoent })
    | some c ↦ (some (record { is_dir = false; is_reg = true; st_size = length c }), w)
  ];
  open_path = λ p flags mode w. open_in w.pending p flags w;
  lseek = λ fd k whence w. seek_in w.open_files k whence w;
  read = λ fd n w. read_in w.pending w.open_files n w;
  write = λ fd bytes w. write_in w.pending w.open_files bytes w;
  close = λ fd w. close_in w.open_files w;
  unlink = λ p w. (false, w);
  mkdir = λ p w. (false, w);
  remove = λ p w. (false, w);
  fts_open = λ p w. (none, w);
  fts_read = λ fts w. (none, w);
  fts_close = λ fts w. w;
  alloc = λ n w. (true, w);
  free = λ w. w;
}
