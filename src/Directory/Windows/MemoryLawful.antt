-- ===== src/Directory/Windows/MemoryLawful.antt =====
-- The system of Directory/Windows/Memory as one that meets the laws.
use lamina_fs.Prelude.{
  ℕ, ◌+◌, ◌≤◌, ◌≡◌, ◌≢◌, refl, sym, ap, ap₂, ◌∙◌, subst, Option, some, List, ◌∷◌, length, take,
  drop, arith,
}
use lamina_fs.Types.{Bytes}
use lamina_fs.Directory.Laws.{written_at}
use lamina_fs.Directory.Memory.{put_self}
use lamina_fs.Directory.Portion.{take-enough}
use lamina_fs.Directory.Windows.Calls.{MoveMethod}
use lamina_fs.Directory.Windows.Files.{invalid_set_file_pointer}
use lamina_fs.Directory.Windows.Laws.{OpenFile, destination, IsLawful}
use lamina_fs.Directory.Windows.Memory.{
  Volume, volume, Opened, found-Opened, size_in, point_in, read_in, write_in, close_in, bytes_of,
}

-- What each call has to answer, on the handle that was opened last.
abbrev pub Sized : ℕ → OpenFile → List (ℕ × OpenFile) → Bytes → Option ℕ × Volume → Type 0
Sized fd h rest c r =
    (r.1.open_files ≡ (fd, h) ∷ rest)
    × (r.1.files h.name ≡ some c)
    × ((n : ℕ) → r.0 ≡ some n → n ≡ length c)

abbrev pub Pointed :
    ℕ → ℕ → MoveMethod → OpenFile → List (ℕ × OpenFile) → Bytes → ℕ × Volume → Type 0
Pointed fd k method h rest c r =
    (j : ℕ) × (r.1.open_files ≡ (fd, record h { position = j }) ∷ rest)
    × (r.1.files h.name ≡ some c)
    × (r.0 ≢ invalid_set_file_pointer → j ≡ destination method k c)

abbrev pub HasRead : ℕ → ℕ → OpenFile → List (ℕ × OpenFile) → Bytes → Option Bytes × Volume → Type 0
HasRead fd n h rest c r =
    (j : ℕ) × (r.1.open_files ≡ (fd, record h { position = j }) ∷ rest)
    × (r.1.files h.name ≡ some c)
    × ((bytes : Bytes) → r.0 ≡ some bytes → bytes ≡ take n (drop h.position c))

abbrev pub Wrote : ℕ → Bytes → OpenFile → List (ℕ × OpenFile) → Bytes → Option ℕ × Volume → Type 0
Wrote fd bytes h rest c r =
    (j : ℕ) × (r.1.open_files ≡ (fd, record h { position = j }) ∷ rest)
    × ((n : ℕ)
        → r.0 ≡ some n
        → (n ≤ length bytes) × (r.1.files h.name ≡ some (written_at h.position (take n bytes) c)))

abbrev pub Closed : List (ℕ × OpenFile) → Volume → Volume → Type 0
Closed rest w w' = (w'.open_files ≡ rest) × ((q : List ℕ) → w'.files q ≡ w.files q)

pub size_in-Sized :
    (fd : ℕ) (h : OpenFile) (rest : List (ℕ × OpenFile)) (c : Bytes) (w : Volume)
    → w.open_files ≡ (fd, h) ∷ rest
    → w.files h.name ≡ some c
    → Sized fd h rest c (size_in ((fd, h) ∷ rest) w)
size_in-Sized fd h rest c w e f = (e, f, rw f (λ n g. cc))

pub write_in-Wrote :
    (fd : ℕ) (bytes : Bytes) (h : OpenFile) (rest : List (ℕ × OpenFile)) (c : Bytes) (w : Volume)
    → w.open_files ≡ (fd, h) ∷ rest
    → w.files h.name ≡ some c
    → Wrote fd bytes h rest c (write_in ((fd, h) ∷ rest) bytes w)
write_in-Wrote fd bytes h rest c w e f = (
  h.position,
  e,
  λ n g.
      let all : length bytes ≡ n = cc in
      let whole : take n bytes ≡ bytes = take-enough n bytes (omega (arith, all)) in
      (
        omega (arith, all),
        put_self h.name (written_at h.position bytes (bytes_of (w.files h.name))) w.files
            ∙ ap₂ (λ b k. some (written_at h.position b k)) (sym whole) (ap bytes_of f),
      ),
)

pub read_in-HasRead :
    (fd n : ℕ) (h : OpenFile) (rest : List (ℕ × OpenFile)) (c : Bytes) (w : Volume)
    → w.files h.name ≡ some c
    → HasRead fd n h rest c (read_in ((fd, h) ∷ rest) n w)
read_in-HasRead fd n h rest c w f = (
  h.position + length (take n (drop h.position (bytes_of (w.files h.name)))),
  refl,
  f,
  λ bytes g.
      let same : take n (drop h.position (bytes_of (w.files h.name))) ≡ bytes = cc in
      sym same ∙ ap (λ o. take n (drop h.position (bytes_of o))) f,
)

abbrev pub volume_laws : IsLawful volume
volume_laws = record {
  handles = λ w. w.open_files;
  content = λ w. w.files;
  opens = λ p access mode fd w e.
      let r = volume.create_file p access mode w in
      subst (Opened p mode w) (ap (λ o. (o, r.1)) e) (found-Opened p mode (w.files p) w refl);
  open_fails = λ p access mode w e.
      let r = volume.create_file p access mode w in
      subst (Opened p mode w) (ap (λ o. (o, r.1)) e) (found-Opened p mode (w.files p) w refl);
  sizes = λ fd h rest c w e f.
      subst (λ l. Sized fd h rest c (size_in l w)) (sym e) (size_in-Sized fd h rest c w e f);
  points = λ fd k method h rest c w e f.
      subst (λ l. Pointed fd k method h rest c (point_in l k method w)) (sym e)
        (
          destination method k (bytes_of (w.files h.name)),
          refl,
          f,
          λ valid. ap (λ o. destination method k (bytes_of o)) f,
        );
  reads = λ fd n room h rest c w e f.
      subst (λ l. HasRead fd n h rest c (read_in l n w)) (sym e)
        (read_in-HasRead fd n h rest c w f);
  writes = λ fd bytes h rest c w e f.
      subst (λ l. Wrote fd bytes h rest c (write_in l bytes w)) (sym e)
        (write_in-Wrote fd bytes h rest c w e f);
  closes = λ fd h rest w e. subst (λ l. Closed rest w (close_in l w)) (sym e) (refl, λ q. refl);
  closes_nothing = λ w. refl;
  allocates = λ n w. (refl, refl, λ q. refl);
}
