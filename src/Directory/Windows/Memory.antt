-- ===== src/Directory/Windows/Memory.antt =====
-- A system that meets the laws of Directory/Windows/Laws, for the tests: its files are in memory, its
-- calls act on the handle that was opened last, and a path has as many wide characters as bytes.
use lamina_fs.Prelude.{
  ℕ, ◌+◌, true, false, ◌≡◌, refl, ap, ◌∙◌, Option, none, some, List, [], ◌∷◌, length, take, drop,
  leb, if◌then◌else◌,
}
use lamina_fs.Types.{Bytes}
use lamina_fs.Directory.Laws.{written_at}
use lamina_fs.Directory.Memory.{put, put_self}
use lamina_fs.Directory.Windows.Calls.{
  Wide, LastError, error_file_not_found, Creation, open_existing, create_always, open_always,
  MoveMethod, Win32,
}
use lamina_fs.Directory.Windows.Files.{invalid_set_file_pointer}
use lamina_fs.Directory.Windows.Laws.{OpenFile, fresh, created, destination}

pub record Volume : Type 0 where
  pub files : Wide → Option Bytes
  pub open_files : List (ℕ × OpenFile)
  pub last_error : LastError

-- The content that a file is opened with.
abbrev pub found : Creation → Option Bytes → Option Bytes
found open_existing none = none
found create_always none = some []
found open_always none = some []
found mode (some c) = some (created mode c)

abbrev pub opened : Wide → Option Bytes → Volume → Option ℕ × Volume
opened p none w = (none, record w { last_error = error_file_not_found })
opened p (some c) w = (
  some (length w.open_files),
  record w { files = put p c w.files; open_files = (length w.open_files, fresh p) ∷ w.open_files },
)

abbrev pub size_in : List (ℕ × OpenFile) → Volume → Option ℕ × Volume
size_in [] w = (none, w)
size_in (x ∷ rest) w = (elim (w.files x.1.name) [ none ↦ none | some c ↦ some (length c) ], w)

abbrev pub bytes_of : Option Bytes → Bytes
bytes_of none = []
bytes_of (some c) = c

abbrev pub point_in : List (ℕ × OpenFile) → ℕ → MoveMethod → Volume → ℕ × Volume
point_in [] k method w = (invalid_set_file_pointer, w)
point_in (x ∷ rest) k method w =
    let to = destination method k (bytes_of (w.files x.1.name)) in
    (to, record w { open_files = (x.0, record (x.1) { position = to }) ∷ rest })

abbrev pub read_in : List (ℕ × OpenFile) → ℕ → Volume → Option Bytes × Volume
read_in [] n w = (none, w)
read_in (x ∷ rest) n w =
    let bytes = take n (drop x.1.position (bytes_of (w.files x.1.name))) in
    (
      some bytes,
      record w {
        open_files = (x.0, record (x.1) { position = x.1.position + length bytes }) ∷ rest;
      },
    )

abbrev pub write_in : List (ℕ × OpenFile) → Bytes → Volume → Option ℕ × Volume
write_in [] bytes w = (none, w)
write_in (x ∷ rest) bytes w = (
  some (length bytes),
  record w {
    files = put x.1.name (written_at x.1.position bytes (bytes_of (w.files x.1.name))) w.files;
  },
)

abbrev pub close_in : List (ℕ × OpenFile) → Volume → Volume
close_in [] w = w
close_in (x ∷ rest) w = record w { open_files = rest }

abbrev pub volume : Win32 Volume
volume = record {
  multi_byte_to_wide_char = λ p n. if leb (length p + 1) n then some p else none;
  get_last_error = λ w. w.last_error;
  get_file_attributes = λ p w. elim (w.files p) [ none ↦ (none, w) | some c ↦ (some false, w) ];
  create_file = λ p access mode w. opened p (found mode (w.files p)) w;
  get_file_size_ex = λ fd w. size_in w.open_files w;
  set_file_pointer = λ fd k method w. point_in w.open_files k method w;
  read_file = λ fd room n w. read_in w.open_files n w;
  write_file = λ fd bytes w. write_in w.open_files bytes w;
  close_handle = λ o w. elim o [ none ↦ w | some fd ↦ close_in w.open_files w ];
  delete_file = λ p w. (false, w);
  create_directory = λ p w. (false, w);
  sh_file_operation = λ p w. (124, w);
  alloc = λ n w. (true, w);
}

abbrev pub Opened : Wide → Creation → Volume → Option ℕ × Volume → Type 0
Opened p mode w (some fd, w') =
    (w'.open_files ≡ (fd, fresh p) ∷ w.open_files)
    × ((c : Bytes) → w.files p ≡ some c → w'.files p ≡ some (created mode c))
Opened p mode w (none, w') = (w'.open_files ≡ w.open_files) × (w'.files p ≡ w.files p)

pub found-Opened :
    (p : Wide) (mode : Creation) (o : Option Bytes) (w : Volume)
    → w.files p ≡ o
    → Opened p mode w (opened p (found mode o) w)
found-Opened p open_existing none w e = (refl, refl)
found-Opened p create_always none w e = (refl, λ c f. cc)
found-Opened p open_always none w e = (refl, λ c f. cc)
found-Opened p open_existing (some c) w e =
    (refl, λ d f. let same : c ≡ d = cc in put_self p c w.files ∙ ap some same)
found-Opened p create_always (some c) w e = (refl, λ d f. put_self p [] w.files)
found-Opened p open_always (some c) w e =
    (refl, λ d f. let same : c ≡ d = cc in put_self p c w.files ∙ ap some same)
