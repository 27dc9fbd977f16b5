-- ===== src/Directory/Laws.antt =====
-- What POSIX documents of the calls of src/device/Directory.cpp on regular files, as far as the
-- theorems need it. It is stated of the descriptor that was opened last. A reading may be short, but
-- reads something where there is something to read.
use lamina_fs.Prelude.{
  ℕ, ◌+◌, ◌-◌, ◌≤◌, ◌<◌, Bool, true, ◌≡◌, Option, none, some, List, [], ◌∷◌, ◌++◌, length, take,
  drop, replicate, if◌then◌else◌,
}
use lamina_fs.Types.{Text, Bytes}
use lamina_fs.Directory.{is_eintr}
use lamina_fs.Directory.Calls.{OpenFlags, Whence, seek_set, seek_end, Posix}

-- An open file description.
pub record Handle : Type 0 where
  pub name : Text
  pub position : ℕ
  pub appends : Bool

abbrev pub moved : Option ℕ → Handle → Handle
moved none h = h
moved (some k) h = record h { position = k }

abbrev pub advanced : Option Bytes → Handle → Handle
advanced none h = h
advanced (some bytes) h = record h { position = h.position + length bytes }

-- `bytes` written from `k` on: a gap is filled with zeros.
abbrev pub written_at : ℕ → Bytes → Bytes → Bytes
written_at k bytes c =
    take k c ++ (replicate (k - length c) 0 ++ (bytes ++ drop (k + length bytes) c))

abbrev pub written : Handle → Bytes → Bytes → Bytes
written h bytes c = written_at (if h.appends then length c else h.position) bytes c

-- `interruptions` bounds how often a call will still fail with `EINTR`.
pub record IsLawful {W : Type 0} (os : Posix W) : Type 0 where
  pub handles : W → List (ℕ × Handle)
  pub content : W → Text → Option Bytes
  pub interruptions : W → ℕ
  pub open_ok :
      (p : Text) (flags : OpenFlags) (mode fd : ℕ) (w w' : W)
      → os.open_path p flags mode w ≡ (some fd, w')
      → (handles w' ≡ (fd, record { name = p; position = 0; appends = flags.appends }) ∷ handles w)
        × ((c : Bytes)
            → content w p ≡ some c
            → content w' p ≡ some (if flags.truncates then [] else c))
        × (interruptions w' ≤ interruptions w)
  pub open_fails :
      (p : Text) (flags : OpenFlags) (mode : ℕ) (w w' : W)
      → os.open_path p flags mode w ≡ (none, w')
      → (handles w' ≡ handles w)
        × (content w' p ≡ content w p)
        × (interruptions w' + (if is_eintr (os.errno w') then 1 else 0) ≤ interruptions w)
  pub seeks :
      (fd k : ℕ) (whence : Whence) (h : Handle) (rest : List (ℕ × Handle)) (o : Option ℕ) (w w' : W)
      → handles w ≡ (fd, h) ∷ rest
      → os.lseek fd k whence w ≡ (o, w')
      → (handles w' ≡ (fd, moved o h) ∷ rest)
        × ((q : Text) → content w' q ≡ content w q)
        × (interruptions w' ≤ interruptions w)
  pub seek_set_ok : (fd k j : ℕ) (w w' : W) → os.lseek fd k seek_set w ≡ (some j, w') → j ≡ k
  pub seek_within :
      (fd k : ℕ) (h : Handle) (rest : List (ℕ × Handle)) (c : Bytes) (w : W)
      → handles w ≡ (fd, h) ∷ rest
      → content w h.name ≡ some c
      → k ≤ length c
      → (os.lseek fd k seek_set w).0 ≡ some k
  pub seek_end_ok :
      (fd j : ℕ) (h : Handle) (rest : List (ℕ × Handle)) (c : Bytes) (w w' : W)
      → handles w ≡ (fd, h) ∷ rest
      → content w h.name ≡ some c
      → os.lseek fd 0 seek_end w ≡ (some j, w')
      → j ≡ length c
  pub reads :
      (fd n : ℕ) (h : Handle) (rest : List (ℕ × Handle)) (o : Option Bytes) (w w' : W)
      → handles w ≡ (fd, h) ∷ rest
      → os.read fd n w ≡ (o, w')
      → (handles w' ≡ (fd, advanced o h) ∷ rest)
        × ((q : Text) → content w' q ≡ content w q)
        × (interruptions w' ≤ interruptions w)
  pub read_fails :
      (fd n : ℕ) (w w' : W)
      → os.read fd n w ≡ (none, w')
      → is_eintr (os.errno w') ≡ true
      → interruptions w' < interruptions w
  pub read_ok :
      (fd n : ℕ) (h : Handle) (rest : List (ℕ × Handle)) (bytes c : Bytes) (w w' : W)
      → handles w ≡ (fd, h) ∷ rest
      → content w h.name ≡ some c
      → os.read fd n w ≡ (some bytes, w')
      → (length bytes ≤ n)
        × (bytes ≡ take (length bytes) (drop h.position c))
        × (0 < n → h.position < length c → 0 < length bytes)
  pub write_fails :
      (fd : ℕ) (h : Handle) (rest : List (ℕ × Handle)) (bytes : Bytes) (w w' : W)
      → handles w ≡ (fd, h) ∷ rest
      → os.write fd bytes w ≡ (none, w')
      → (handles w' ≡ handles w)
        × (content w' h.name ≡ content w h.name)
        × (interruptions w' + (if is_eintr (os.errno w') then 1 else 0) ≤ interruptions w)
  pub write_ok :
      (fd n : ℕ) (h : Handle) (rest : List (ℕ × Handle)) (bytes c : Bytes) (w w' : W)
      → handles w ≡ (fd, h) ∷ rest
      → content w h.name ≡ some c
      → os.write fd bytes w ≡ (some n, w')
      → ((h' : Handle) × (handles w' ≡ (fd, h') ∷ rest))
        × (n ≤ length bytes)
        × (content w' h.name ≡ some (written h (take n bytes) c))
  pub closes :
      (fd : ℕ) (h : Handle) (rest : List (ℕ × Handle)) (w : W)
      → handles w ≡ (fd, h) ∷ rest
      → (handles (os.close fd w) ≡ rest) × ((q : Text) → content (os.close fd w) q ≡ content w q)
  pub allocates :
      (n : ℕ) (w : W)
      → (handles (os.alloc n w).1 ≡ handles w)
        × ((q : Text) → content (os.alloc n w).1 q ≡ content w q)
        × (interruptions (os.alloc n w).1 ≤ interruptions w)
  pub frees :
      (w : W)
      → (handles (os.free w) ≡ handles w) × ((q : Text) → content (os.free w) q ≡ content w q)
