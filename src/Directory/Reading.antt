-- ===== src/Directory/Reading.antt =====
-- What `readFile` of src/device/Directory.cpp reads of a regular file.
use lamina_fs.Prelude.{
  ℕ, ◌+◌, ◌≤◌, ◌<◌, Bool, true, ◌≡◌, refl, sym, ap, ◌∙◌, subst, Option, none, some, List, ◌∷◌, ◌++◌,
  length, take, drop, if◌then◌else◌, Option-cases, inl, inr, arith, ◌>>=◌,
}
use lamina_fs.Types.{ErrorCode, ok, Text, Bytes}
use lamina_fs.Mounts.{is_some}
use lamina_fs.Directory.{retry, convert_error}
use lamina_fs.Directory.Calls.{Posix}
use lamina_fs.Directory.Retry.{retry-Retries}
use lamina_fs.Directory.Laws.{Handle, IsLawful, advanced}
use lamina_fs.Directory.Files.{read_allocated}
use lamina_fs.Directory.Portion.{
  terminator, length-take_le, length-take_le_all, length-take_mono, length-drop, take-take,
  buffer_of, buffer_of-some,
}

module _ {W : Type 0} (os : Posix W) (laws : IsLawful os) where
  -- What is known of a reading of a file that holds `c`, of which `wanted` is the part asked for.
  pub record Reads (p : Text) (c wanted : Bytes) (offset : ℕ) (rest : List (ℕ × Handle))
      (null_terminate : Bool) (o : Option (ℕ × Option Bytes × ErrorCode × W)) : Type 0 where
    pub bytes_read : ℕ
    pub buffer : Option Bytes
    pub error : ErrorCode
    pub after : W
    pub answers : o ≡ some (bytes_read, buffer, error, after)
    pub closed : laws.handles after ≡ rest
    pub unchanged : laws.content after p ≡ some c
    pub bounded : bytes_read ≤ length wanted
    pub right :
        0 < bytes_read
        → (buffer ≡ some (take bytes_read wanted ++ terminator null_terminate)) × (error ≡ ok)
    pub progress :
        offset ≤ length c → error ≡ ok → is_some buffer ≡ true → 0 < length wanted → 0 < bytes_read

  -- A descriptor that the code closes when it has read nothing.
  pub closing-Reads :
      (fd : ℕ) (h : Handle) (rest : List (ℕ × Handle)) (c wanted : Bytes) (offset : ℕ)
      (null_terminate : Bool) (buffer : Option Bytes) (error : ErrorCode) (w : W)
      → laws.handles w ≡ (fd, h) ∷ rest
      → laws.content w h.name ≡ some c
      → (offset ≤ length c → error ≡ ok → is_some buffer ≡ true → 0 ≡ length wanted)
      → Reads h.name c wanted offset rest null_terminate (some (0, buffer, error, os.close fd w))
  closing-Reads fd h rest c wanted offset null_terminate buffer error w e f complete =
      let (closed, same) = laws.closes fd h rest w e in
      record {
        bytes_read = 0;
        buffer = buffer;
        error = error;
        after = os.close fd w;
        answers = refl;
        closed = closed;
        unchanged = same h.name ∙ f;
        bounded = omega arith;
        right = λ lt. absurd (omega arith);
        progress = λ inside success there lt. omega (arith, complete inside success there);
      }

  -- What follows the loop over `read`.
  abbrev after_read : ℕ → ℕ → Bool → Option Bytes × W → Option (ℕ × Option Bytes × ErrorCode × W)
  after_read fd size null_terminate r = elim r.0 [
    | none ↦ some (0, none, convert_error (os.errno (os.free r.1)), os.close fd (os.free r.1))
    | some bytes ↦ buffer_of null_terminate size bytes >>= λ buffer.
        some (length bytes, some buffer, ok, os.close fd r.1)
  ]

  read_allocated-after_read :
      (fuel fd n size : ℕ) (null_terminate : Bool) (w : W) (r : Option Bytes × W)
      → retry os fuel (os.read fd n) w ≡ some r
      → read_allocated os fuel fd size n null_terminate w ≡ after_read fd size null_terminate r
  unfolding read_allocated
  read_allocated-after_read fuel fd n size null_terminate w r e =
      ap (λ o. o >>= after_read fd size null_terminate) e

  failed-Reads :
      (fd size offset : ℕ) (h : Handle) (rest : List (ℕ × Handle)) (c wanted : Bytes)
      (null_terminate : Bool) (w : W)
      → laws.handles w ≡ (fd, h) ∷ rest
      → laws.content w h.name ≡ some c
      → Reads h.name c wanted offset rest null_terminate
          (after_read fd size null_terminate (none, w))
  failed-Reads fd size offset h rest c wanted null_terminate w e f =
      let (same, kept) = laws.frees w in
      closing-Reads fd h rest c wanted offset null_terminate none
        (convert_error (os.errno (os.free w))) (os.free w) (same ∙ e) (kept h.name ∙ f)
        (λ inside success there. cc)

  done-Reads :
      (fd size offset : ℕ) (h : Handle) (rest : List (ℕ × Handle)) (c wanted bytes : Bytes)
      (null_terminate : Bool) (w : W)
      → laws.handles w ≡ (fd, h) ∷ rest
      → laws.content w h.name ≡ some c
      → length bytes + (if null_terminate then 1 else 0) ≤ size
      → bytes ≡ take (length bytes) wanted
      → length bytes ≤ length wanted
      → (0 < length wanted → 0 < length bytes)
      → Reads h.name c wanted offset rest null_terminate
          (after_read fd size null_terminate (some bytes, w))
  done-Reads fd size offset h rest c wanted bytes null_terminate w e f room first bound some_read =
      let (closed, same) = laws.closes fd h rest w e in
      record {
        bytes_read = length bytes;
        buffer = some (bytes ++ terminator null_terminate);
        error = ok;
        after = os.close fd w;
        answers =
            ap (λ o. o >>= λ buffer. some (length bytes, some buffer, ok, os.close fd w))
              (buffer_of-some null_terminate size bytes room);
        closed = closed;
        unchanged = same h.name ∙ f;
        bounded = bound;
        right = λ lt. (ap (λ b. some (b ++ terminator null_terminate)) first, refl);
        progress = λ inside success there. some_read;
      }

  pub read_allocated-Reads :
      (fuel fd n size offset : ℕ) (h : Handle) (rest : List (ℕ × Handle)) (c : Bytes)
      (null_terminate : Bool) (w : W)
      → laws.handles w ≡ (fd, h) ∷ rest
      → laws.content w h.name ≡ some c
      → n + (if null_terminate then 1 else 0) ≤ size
      → laws.interruptions w < fuel
      → Reads h.name c
          (take n (drop h.position c))
          offset
          rest
          null_terminate
          (read_allocated os fuel fd size n null_terminate w)
  read_allocated-Reads fuel fd n size offset h rest c null_terminate w e f room lt =
      let r =
        retry-Retries os (λ v. (laws.handles v ≡ (fd, h) ∷ rest) × (laws.content v h.name ≡ some c))
          laws.interruptions (os.read fd n)
          (λ v v' g again (k, l).
            let (k', l', less) = laws.reads fd n h rest none v v' k g in
            ((k', l' h.name ∙ l), laws.read_fails fd n v v' g again))
          fuel w (e, f) lt in
      let wanted = take n (drop h.position c) in
      let (kept, same, less) = laws.reads fd n h rest r.result r.before r.after r.kept.0 r.called in
      subst (λ o. Reads h.name c wanted offset rest null_terminate o)
        (sym
          (read_allocated-after_read fuel fd n size null_terminate w (r.result, r.after) r.answers))
        (elim (Option-cases r.result) [
          | inl failed ↦ rw failed (
              failed-Reads fd size offset h rest c wanted null_terminate r.after
                (kept ∙ ap (λ o. (fd, advanced o h) ∷ rest) failed) (same h.name ∙ r.kept.1))
          | inr (bytes, done) ↦
              let there = drop h.position c in
              let (small, first, some_read) =
                laws.read_ok fd n h rest bytes c r.before r.after r.kept.0 r.kept.1
                  (r.called ∙ ap (λ o. (o, r.after)) done) in
              let bound : length bytes ≤ length wanted =
                omega (arith, ap length first, length-take_mono (length bytes) n there small) in
              rw done (
                done-Reads fd size offset (advanced (some bytes) h) rest c wanted bytes
                  null_terminate r.after (kept ∙ ap (λ o. (fd, advanced o h) ∷ rest) done)
                  (same h.name ∙ r.kept.1) (omega arith)
                  (first ∙ sym (take-take (length bytes) n there small)) bound
                  (λ lt.
                    some_read (omega (arith, length-take_le n there))
                      (omega (arith, length-take_le_all n there, length-drop h.position c))))
        ])
