-- ===== src/Directory/Windows/Reading.antt =====
-- What `readFile` of src/device/Directory.cpp, as it is compiled for Windows, reads of a file that is
-- open and not empty.
use lamina_fs.Prelude.{
  ℕ, ◌+◌, ◌^◌, ◌%◌, ◌≤◌, ◌<◌, Bool, true, false, ◌≡◌, ◌≢◌, refl, ap, ◌∙◌, Option, none, some, List,
  [], ◌∷◌, ◌++◌, length, take, drop, leb, ◌==◌, if◌then◌else◌, Option-cases, Bool-cases, ◌⊎◌, inl,
  inr, arith,
}
use lamina_fs.Types.{ErrorCode, ok, Bytes}
use lamina_fs.Directory.Portion.{
  terminator, counted, length-take_le, length-take_le_all, length-drop,
}
use lamina_fs.Directory.Windows.Calls.{Wide, Win32, file_begin}
use lamina_fs.Directory.Windows.Laws.{OpenFile, IsLawful}
use lamina_fs.Directory.Windows.Files.{read_allocated, read_contents, invalid_set_file_pointer}

-- The size of the buffer that `readFile` allocates.
abbrev pub buffer_size : ℕ → Bool → ℕ
buffer_size count null_terminate = (count + (if null_terminate then 1 else 0)) % 2 ^ 64

module _ {W : Type 0} (os : Win32 W) where
  -- What follows the call of `ReadFile` into a buffer of `size` bytes.
  abbrev pub after_read :
      ℕ → ℕ → Bool → Option Bytes × W → Option (ℕ × Option Bytes × ErrorCode × W)
  after_read fd size null_terminate r = elim r.0 [
    | none ↦ some (0, some [], ok, os.close_handle (some fd) r.1)
    | some bytes ↦
        if leb (length (bytes ++ terminator null_terminate)) size
        then some (
          length bytes,
          some (bytes ++ terminator null_terminate),
          ok,
          os.close_handle (some fd) r.1,
        )
        else none
  ]

  -- What follows the call of `SetFilePointer`.
  abbrev pub by_pointer :
      ℕ
      → ℕ
      → ℕ
      → Bool
      → Option Bytes
      → ErrorCode
      → ℕ × W
      → Option (ℕ × Option Bytes × ErrorCode × W)
  by_pointer fd count size null_terminate buffer out_error r =
      if r.0 == invalid_set_file_pointer
      then some (0, buffer, out_error, os.close_handle (some fd) r.1)
      else read_allocated os fd (os.alloc size r.1).0 size count null_terminate
          (os.alloc size r.1).1

  pub read_contents-by_pointer :
      (fd file_size offset max_bytes : ℕ) (buffer : Option Bytes) (null_terminate : Bool)
      (out_error : ErrorCode) (w : W)
      → read_contents os fd file_size offset max_bytes buffer null_terminate out_error w
        ≡ by_pointer fd
            (counted file_size offset max_bytes)
            (buffer_size (counted file_size offset max_bytes) null_terminate)
            null_terminate
            buffer
            out_error
            (os.set_file_pointer fd offset file_begin w)
  unfolding read_contents
  read_contents-by_pointer fd file_size offset max_bytes buffer null_terminate out_error w = refl

  pub read_allocated-after_read :
      (fd size count : ℕ) (null_terminate : Bool) (w : W)
      → read_allocated os fd true size count null_terminate w
        ≡ after_read fd size null_terminate (os.read_file fd true (count % 2 ^ 32) w)
  unfolding read_allocated
  read_allocated-after_read fd size count null_terminate w = refl

module _ {W : Type 0} (os : Win32 W) (laws : IsLawful os) where
  -- The call before the closing of the handle was a `ReadFile` that failed.
  abbrev pub ReadFails : W → Type 0
  ReadFails after =
      (fd n : ℕ) × (v : W) × ((os.read_file fd true n v).0 ≡ none)
      × (after ≡ os.close_handle (some fd) (os.read_file fd true n v).1)

  -- What is known of a reading of a file that holds `c`, of which `wanted` is the part asked for.
  pub record Reads (p : Wide) (c wanted : Bytes) (rest : List (ℕ × OpenFile))
      (null_terminate : Bool) (o : Option (ℕ × Option Bytes × ErrorCode × W)) : Type 0 where
    pub bytes_read : ℕ
    pub buffer : Option Bytes
    pub error : ErrorCode
    pub after : W
    pub answers : o ≡ some (bytes_read, buffer, error, after)
    pub closed : laws.handles after ≡ rest
    pub unchanged : laws.content after p ≡ some c
    pub right :
        0 < bytes_read
        → (bytes_read ≡ length wanted)
          × (buffer ≡ some (wanted ++ terminator null_terminate))
          × (error ≡ ok)
    pub complete : error ≡ ok → (bytes_read ≡ length wanted) ⊎ ReadFails after

  -- A handle that the code closes when it has read nothing.
  pub closing-Reads :
      (fd : ℕ) (h : OpenFile) (rest : List (ℕ × OpenFile)) (c wanted : Bytes)
      (null_terminate : Bool) (buffer : Option Bytes) (error : ErrorCode) (w : W)
      → laws.handles w ≡ (fd, h) ∷ rest
      → laws.content w h.name ≡ some c
      → (error ≡ ok → (0 ≡ length wanted) ⊎ ReadFails (os.close_handle (some fd) w))
      → Reads h.name c wanted rest null_terminate
          (some (0, buffer, error, os.close_handle (some fd) w))
  closing-Reads fd h rest c wanted null_terminate buffer error w e f whole =
      let (closed, same) = laws.closes fd h rest w e in
      record {
        bytes_read = 0;
        buffer = buffer;
        error = error;
        after = os.close_handle (some fd) w;
        answers = refl;
        closed = closed;
        unchanged = same h.name ∙ f;
        right = λ lt. absurd (omega arith);
        complete = whole;
      }

  length-terminated :
      (bytes : Bytes) (b : Bool)
      → length (bytes ++ terminator b) ≡ length bytes + (if b then 1 else 0)
  length-terminated [] true = refl
  length-terminated [] false = refl
  length-terminated (x ∷ bytes) b = omega (arith, length-terminated bytes b)

  done-Reads :
      (fd size : ℕ) (h : OpenFile) (rest : List (ℕ × OpenFile)) (c bytes : Bytes)
      (null_terminate : Bool) (w : W)
      → laws.handles w ≡ (fd, h) ∷ rest
      → laws.content w h.name ≡ some c
      → length bytes + (if null_terminate then 1 else 0) ≤ size
      → Reads h.name c bytes rest null_terminate
          (after_read os fd size null_terminate (some bytes, w))
  done-Reads fd size h rest c bytes null_terminate w e f room =
      let (closed, same) = laws.closes fd h rest w e in
      let inside : leb (length (bytes ++ terminator null_terminate)) size ≡ true =
        ground (arith, length-terminated bytes null_terminate) in
      record {
        bytes_read = length bytes;
        buffer = some (bytes ++ terminator null_terminate);
        error = ok;
        after = os.close_handle (some fd) w;
        answers = rw inside refl;
        closed = closed;
        unchanged = same h.name ∙ f;
        right = λ lt. (refl, refl, refl);
        complete = λ success. inl refl;
      }

  read_allocated-Reads :
      (fd size count : ℕ) (h : OpenFile) (rest : List (ℕ × OpenFile)) (c : Bytes)
      (null_terminate : Bool) (w : W)
      → laws.handles w ≡ (fd, h) ∷ rest
      → laws.content w h.name ≡ some c
      → length (take (count % 2 ^ 32) (drop h.position c)) + (if null_terminate then 1 else 0)
        ≤ size
      → Reads h.name c
          (take (count % 2 ^ 32) (drop h.position c))
          rest
          null_terminate
          (read_allocated os fd true size count null_terminate w)
  unfolding read_allocated
  read_allocated-Reads fd size count h rest c null_terminate w e f room =
      let wanted = take (count % 2 ^ 32) (drop h.position c) in
      let r = os.read_file fd true (count % 2 ^ 32) w in
      let (j, k, l, exact) = laws.reads fd (count % 2 ^ 32) true h rest c w e f in
      let there : OpenFile = record h { position = j } in
      let by_result : (o : Option Bytes)
          → r.0 ≡ o
          → Reads h.name c wanted rest null_terminate
              (after_read os fd size null_terminate (o, r.1)) =
        λ o found. elim (Option-cases o) [
          | inl failed ↦ rw failed (
              closing-Reads fd there rest c wanted null_terminate (some []) ok r.1 k l
                (λ success. inr (fd, count % 2 ^ 32, w, found ∙ failed, refl)))
          | inr (bytes, done) ↦
              rw (done, exact bytes (found ∙ done))
                (done-Reads fd size there rest c wanted null_terminate r.1 k l room)
        ] in
      by_result r.0 refl

  pub read_contents-Reads :
      (fd offset max_bytes : ℕ) (h : OpenFile) (rest : List (ℕ × OpenFile)) (c : Bytes)
      (buffer : Option Bytes) (null_terminate : Bool) (out_error : ErrorCode) (w : W)
      → laws.handles w ≡ (fd, h) ∷ rest
      → laws.content w h.name ≡ some c
      → length c < 2 ^ 32
      → offset < 2 ^ 63
      → offset ≢ length c + 1
      → out_error ≢ ok
      → Reads h.name c
          (take (counted (length c) offset max_bytes % 2 ^ 32) (drop offset c))
          rest
          null_terminate
          (read_contents os fd (length c) offset max_bytes buffer null_terminate out_error w)
  unfolding read_contents
  read_contents-Reads fd offset max_bytes h rest c buffer null_terminate out_error w e f small
        in_range some_room unset =
      let count = counted (length c) offset max_bytes in
      let size = (count + (if null_terminate then 1 else 0)) % 2 ^ 64 in
      let wanted = take (count % 2 ^ 32) (drop offset c) in
      let r = os.set_file_pointer fd offset file_begin w in
      let (j, k, l, exact) = laws.points fd offset file_begin h rest c w e f in
      let (there, k', l') = laws.allocates size r.1 in
      let v = (os.alloc size r.1).1 in
      let proof : Reads h.name c wanted rest null_terminate
          (by_pointer os fd count size null_terminate buffer out_error r) =
        elim (Bool-cases (r.0 == invalid_set_file_pointer)) [
          | inl failed ↦ rw failed (
              closing-Reads fd (record h { position = j }) rest c wanted null_terminate buffer
                out_error r.1 k l (λ success. absurd (unset success)))
          | inr moved ↦
              let at : j ≡ offset = exact (ground arith) in
              let bound = length-take_le (count % 2 ^ 32) (drop offset c) in
              let bound_all = length-take_le_all (count % 2 ^ 32) (drop offset c) in
              let room : length wanted + (if null_terminate then 1 else 0) ≤ size =
                ground (arith, bound, bound_all, length-drop offset c) in
              rw (moved, there)
                (read_allocated-Reads fd size count (record h { position = offset }) rest c
                  null_terminate v (k' ∙ k ∙ ap (λ a. (fd, record h { position = a }) ∷ rest) at)
                  (l' h.name ∙ l) room)
        ] in
      proof
