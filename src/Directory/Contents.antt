-- ===== src/Directory/Contents.antt =====
-- `readFile` of src/device/Directory.cpp on a file that is open and not empty.
use lamina_fs.Prelude.{
  ℕ, ◌+◌, ◌-◌, ◌^◌, ◌%◌, ◌≤◌, ◌<◌, Bool, true, false, ◌≡◌, ◌≢◌, refl, sym, ap, ◌∙◌, subst, Option,
  none, some, List, [], ◌∷◌, length, take, drop, ◌==◌, if◌then◌else◌, Option-cases, inl, inr, arith,
}
use lamina_fs.Types.{ErrorCode, ok, Text, Bytes}
use lamina_fs.Directory.{off_t}
use lamina_fs.Directory.Calls.{Posix, seek_set}
use lamina_fs.Directory.Laws.{Handle, IsLawful, moved}
use lamina_fs.Directory.Portion.{take-enough, length-drop, counted, take-counted}
use lamina_fs.Directory.Reading.{Reads, closing-Reads, read_allocated-Reads}
use lamina_fs.Directory.Files.{read_allocated, read_contents}

-- The test for a failed seek, as it stands.
seek_test : (b : Bool) → ((if b then 1 else 0) == 2 ^ 64 - 1) ≡ false
seek_test true = ground arith
seek_test false = ground arith

length-zero {ℓ} : {A : Type ℓ} (xs : List A) → length xs ≡ 0 → xs ≡ []
length-zero [] h = refl
length-zero (x ∷ xs) h = absurd (omega arith)

module _ {W : Type 0} (os : Posix W) (laws : IsLawful os) where
  -- What follows the allocation.
  abbrev by_allocation : ℕ → ℕ → ℕ → ℕ → Bool → Bool × W → Option (ℕ × Option Bytes × ErrorCode × W)
  by_allocation fuel fd n size null_terminate r =
      if r.0
      then read_allocated os fuel fd size n null_terminate r.1
      else some (0, none, ok, os.close fd r.1)

  abbrev buffer_size : ℕ → Bool → ℕ
  buffer_size n null_terminate = (n + (if null_terminate then 1 else 0)) % 2 ^ 64

  read_contents-by_allocation :
      (fuel fd file_size offset max_bytes : ℕ) (buffer : Option Bytes) (null_terminate : Bool)
      (w : W)
      → read_contents os fuel fd file_size offset max_bytes buffer null_terminate w
        ≡ by_allocation fuel fd
            (counted file_size offset max_bytes)
            (buffer_size (counted file_size offset max_bytes) null_terminate)
            null_terminate
            (os.alloc
              (buffer_size (counted file_size offset max_bytes) null_terminate)
              (os.lseek fd offset seek_set w).1)
  unfolding read_contents
  read_contents-by_allocation fuel fd file_size offset max_bytes buffer null_terminate w =
      rw (seek_test (off_t (os.lseek fd offset seek_set w).0 == offset)) refl

  allocation-Reads :
      (fuel fd n size offset : ℕ) (h : Handle) (rest : List (ℕ × Handle)) (c : Bytes)
      (null_terminate : Bool) (r : Bool × W)
      → laws.handles r.1 ≡ (fd, h) ∷ rest
      → laws.content r.1 h.name ≡ some c
      → n + (if null_terminate then 1 else 0) ≤ size
      → laws.interruptions r.1 < fuel
      → Reads os laws h.name c
          (take n (drop h.position c))
          offset
          rest
          null_terminate
          (by_allocation fuel fd n size null_terminate r)
  allocation-Reads fuel fd n size offset h rest c null_terminate (true, w) e f room lt =
      read_allocated-Reads os laws fuel fd n size offset h rest c null_terminate w e f room lt
  allocation-Reads fuel fd n size offset h rest c null_terminate (false, w) e f room lt =
      closing-Reads os laws fd h rest c (take n (drop h.position c)) offset null_terminate none ok w
        e f (λ inside success there. cc)

  -- A reading of nothing is a reading of any part.
  nothing-Reads :
      (p : Text) (c wanted : Bytes) (offset : ℕ) (rest : List (ℕ × Handle)) (null_terminate : Bool)
      (o : Option (ℕ × Option Bytes × ErrorCode × W))
      → ¬ (offset ≤ length c)
      → Reads os laws p c [] offset rest null_terminate o
      → Reads os laws p c wanted offset rest null_terminate o
  nothing-Reads p c wanted offset rest null_terminate o outside r = record {
    bytes_read = r.bytes_read;
    buffer = r.buffer;
    error = r.error;
    after = r.after;
    answers = r.answers;
    closed = r.closed;
    unchanged = r.unchanged;
    bounded = omega (arith, r.bounded);
    right = λ lt. absurd (omega (arith, r.bounded));
    progress = λ inside. absurd (outside inside);
  }

  pub read_contents-Reads :
      (fuel fd offset max_bytes : ℕ) (h : Handle) (rest : List (ℕ × Handle)) (c : Bytes)
      (buffer : Option Bytes) (null_terminate : Bool) (w : W)
      → laws.handles w ≡ (fd, h) ∷ rest
      → laws.content w h.name ≡ some c
      → h.position ≡ length c
      → length c < 2 ^ 64 - 1
      → offset < 2 ^ 64
      → offset ≢ length c + 1
      → laws.interruptions w < fuel
      → Reads os laws h.name c
          (take max_bytes (drop offset c))
          offset
          rest
          null_terminate
          (read_contents os fuel fd (length c) offset max_bytes buffer null_terminate w)
  read_contents-Reads fuel fd offset max_bytes h rest c buffer null_terminate w e f at_end small
        in_range some_room lt =
      let n = counted (length c) offset max_bytes in
      let size = buffer_size n null_terminate in
      let w' = (os.lseek fd offset seek_set w).1 in
      let o = (os.lseek fd offset seek_set w).0 in
      let (k, l, less) = laws.seeks fd offset seek_set h rest o w w' e refl in
      let (k', l', less') = laws.allocates size w' in
      let room : n + (if null_terminate then 1 else 0) ≤ size = ground arith in
      subst
        (λ a. Reads os laws h.name c (take max_bytes (drop offset c)) offset rest null_terminate a)
        (sym
          (read_contents-by_allocation fuel fd (length c) offset max_bytes buffer null_terminate w))
        (elim (Option-cases o) [
          | inr (j, sought) ↦
              let exact : j ≡ offset =
                laws.seek_set_ok fd offset j w w' (ap (λ a. (a, w')) sought) in
              let read =
                allocation-Reads fuel fd n size offset (record h { position = offset }) rest c
                  null_terminate (os.alloc size w')
                  (k' ∙ k ∙ ap (λ a. (fd, moved a h) ∷ rest) (sought ∙ ap some exact))
                  (l' h.name ∙ l h.name ∙ f) room (omega arith) in
              subst
                (λ b.
                  Reads os laws h.name c b offset rest null_terminate
                    (by_allocation fuel fd n size null_terminate (os.alloc size w')))
                (take-counted c offset max_bytes (omega arith) in_range) read
          | inl failed ↦
              let read =
                allocation-Reads fuel fd n size offset h rest c null_terminate (os.alloc size w')
                  (k' ∙ k ∙ ap (λ a. (fd, moved a h) ∷ rest) failed) (l' h.name ∙ l h.name ∙ f) room
                  (omega arith) in
              let past : take n (drop h.position c) ≡ [] =
                ap (take n)
                  (length-zero (drop h.position c) (omega (arith, length-drop h.position c)))
                ∙ take-enough n [] (omega arith) in
              nothing-Reads h.name c (take max_bytes (drop offset c)) offset rest null_terminate
                (by_allocation fuel fd n size null_terminate (os.alloc size w'))
                (λ inside. let sought = laws.seek_within fd offset h rest c w e f inside in cc)
                (subst
                  (λ b.
                    Reads os laws h.name c b offset rest null_terminate
                      (by_allocation fuel fd n size null_terminate (os.alloc size w')))
                  past read)
        ])
