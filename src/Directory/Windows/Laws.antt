-- ===== src/Directory/Windows/Laws.antt =====
-- What Windows documents of the calls of src/device/Directory.cpp on files, as far as the theorems
-- need it. It is stated of the handle that was opened last. The client's allocator does not fail.
use lamina_fs.Prelude.{
  ℕ, ◌≤◌, Bool, true, ◌≡◌, ◌≢◌, Option, none, some, List, [], ◌∷◌, length, take, drop,
}
use lamina_fs.Types.{Bytes}
use lamina_fs.Directory.Laws.{written_at}
use lamina_fs.Directory.Windows.Calls.{
  Wide, Access, Creation, open_existing, create_always, open_always, MoveMethod, file_begin,
  file_end, Win32,
}
use lamina_fs.Directory.Windows.Files.{invalid_set_file_pointer}

pub record OpenFile : Type 0 where
  pub name : Wide
  pub position : ℕ

abbrev pub fresh : Wide → OpenFile
fresh p = record { name = p; position = 0 }

-- What is left of a file of `c` when it is opened.
abbrev pub created : Creation → Bytes → Bytes
created open_existing c = c
created create_always c = []
created open_always c = c

abbrev pub destination : MoveMethod → ℕ → Bytes → ℕ
destination file_begin k c = k
destination file_end k c = length c

pub record IsLawful {W : Type 0} (os : Win32 W) : Type 0 where
  pub handles : W → List (ℕ × OpenFile)
  pub content : W → Wide → Option Bytes
  pub opens :
      (p : Wide) (access : Access) (mode : Creation) (fd : ℕ) (w : W)
      → (os.create_file p access mode w).0 ≡ some fd
      → (handles (os.create_file p access mode w).1 ≡ (fd, fresh p) ∷ handles w)
        × ((c : Bytes)
            → content w p ≡ some c
            → content (os.create_file p access mode w).1 p ≡ some (created mode c))
  pub open_fails :
      (p : Wide) (access : Access) (mode : Creation) (w : W)
      → (os.create_file p access mode w).0 ≡ none
      → (handles (os.create_file p access mode w).1 ≡ handles w)
        × (content (os.create_file p access mode w).1 p ≡ content w p)
  pub sizes :
      (fd : ℕ) (h : OpenFile) (rest : List (ℕ × OpenFile)) (c : Bytes) (w : W)
      → handles w ≡ (fd, h) ∷ rest
      → content w h.name ≡ some c
      → (handles (os.get_file_size_ex fd w).1 ≡ (fd, h) ∷ rest)
        × (content (os.get_file_size_ex fd w).1 h.name ≡ some c)
        × ((n : ℕ) → (os.get_file_size_ex fd w).0 ≡ some n → n ≡ length c)
  pub points :
      (fd k : ℕ) (method : MoveMethod) (h : OpenFile) (rest : List (ℕ × OpenFile)) (c : Bytes)
      (w : W)
      → handles w ≡ (fd, h) ∷ rest
      → content w h.name ≡ some c
      → (j : ℕ) × (handles (os.set_file_pointer fd k method w).1
          ≡ (fd, record h { position = j }) ∷ rest)
        × (content (os.set_file_pointer fd k method w).1 h.name ≡ some c)
        × ((os.set_file_pointer fd k method w).0 ≢ invalid_set_file_pointer
            → j ≡ destination method k c)
  pub reads :
      (fd n : ℕ) (room : Bool) (h : OpenFile) (rest : List (ℕ × OpenFile)) (c : Bytes) (w : W)
      → handles w ≡ (fd, h) ∷ rest
      → content w h.name ≡ some c
      → (j : ℕ) × (handles (os.read_file fd room n w).1 ≡ (fd, record h { position = j }) ∷ rest)
        × (content (os.read_file fd room n w).1 h.name ≡ some c)
        × ((bytes : Bytes)
            → (os.read_file fd room n w).0 ≡ some bytes
            → bytes ≡ take n (drop h.position c))
  pub writes :
      (fd : ℕ) (bytes : Bytes) (h : OpenFile) (rest : List (ℕ × OpenFile)) (c : Bytes) (w : W)
      → handles w ≡ (fd, h) ∷ rest
      → content w h.name ≡ some c
      → (j : ℕ) × (handles (os.write_file fd bytes w).1 ≡ (fd, record h { position = j }) ∷ rest)
        × ((n : ℕ)
            → (os.write_file fd bytes w).0 ≡ some n
            → (n ≤ length bytes)
              × (content (os.write_file fd bytes w).1 h.name
                  ≡ some (written_at h.position (take n bytes) c)))
  pub closes :
      (fd : ℕ) (h : OpenFile) (rest : List (ℕ × OpenFile)) (w : W)
      → handles w ≡ (fd, h) ∷ rest
      → (handles (os.close_handle (some fd) w) ≡ rest)
        × ((q : Wide) → content (os.close_handle (some fd) w) q ≡ content w q)
  pub closes_nothing : (w : W) → handles (os.close_handle none w) ≡ handles w
  pub allocates :
      (n : ℕ) (w : W)
      → ((os.alloc n w).0 ≡ true)
        × (handles (os.alloc n w).1 ≡ handles w)
        × ((q : Wide) → content (os.alloc n w).1 q ≡ content w q)
