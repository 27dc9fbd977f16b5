-- ===== src/Directory/MemoryLaws.antt =====
-- The laws of Directory/Laws, call by call, for the system of Directory/Memory.
use lamina_fs.Prelude.{
  ℕ, zero, suc, ◌+◌, ◌≤◌, ◌<◌, true, ◌≡◌, refl, sym, ap, ap₂, ◌∙◌, subst, Option, none, some, List,
  [], ◌∷◌, length, take, drop, if◌then◌else◌, arith, Bool-cases, Option-cases, inl, inr,
}
use lamina_fs.Types.{Text, Bytes}
use lamina_fs.Directory.{is_eintr}
use lamina_fs.Directory.Calls.{OpenFlags}
use lamina_fs.Directory.Portion.{
  take-enough, length-take_le, length-drop, take-length-take, length-take_some,
}
use lamina_fs.Directory.Laws.{Handle, moved, advanced, written}
use lamina_fs.Directory.Memory.{
  Disk, open_in, opened, found, read_in, write_in, write_file_in, read_file_in, put_self,
}

-- What each outcome of `open` has to meet.
abbrev pub Opened : Text → OpenFlags → Disk → Option ℕ × Disk → Type 0
Opened p flags w (some fd, w') =
    (w'.open_files
      ≡ (fd, record { name = p; position = 0; appends = flags.appends }) ∷ w.open_files)
    × ((c : Bytes) → w.files p ≡ some c → w'.files p ≡ some (if flags.truncates then [] else c))
    × (w'.pending ≤ w.pending)
Opened p flags w (none, w') =
    (w'.open_files ≡ w.open_files)
    × (w'.files p ≡ w.files p)
    × (w'.pending + (if is_eintr w'.errno then 1 else 0) ≤ w.pending)

pub found-Opened :
    (p : Text) (flags : OpenFlags) (o : Option Bytes) (w : Disk)
    → w.files p ≡ o
    → Opened p flags w (opened p flags (found flags o) w)
found-Opened p flags none w e = elim (Bool-cases flags.creates) [
  | inl creates ↦
      subst (λ b. Opened p flags w (opened p flags (if b then some [] else none) w)) (sym creates)
        (refl, λ c f. cc, omega arith)
  | inr fails ↦
      subst (λ b. Opened p flags w (opened p flags (if b then some [] else none) w)) (sym fails)
        (refl, refl, omega arith)
]
found-Opened p flags (some c) w e = (
  refl,
  λ d f.
      let same : c ≡ d = cc in
      put_self p (if flags.truncates then [] else c) w.files
      ∙ ap (λ b. some (if flags.truncates then [] else b)) same,
  omega arith,
)

pub open_in-Opened :
    (n : ℕ) (p : Text) (flags : OpenFlags) (w : Disk)
    → w.pending ≡ n
    → Opened p flags w (open_in n p flags w)
open_in-Opened (suc n) p flags w e = (refl, refl, omega arith)
open_in-Opened zero p flags w e = found-Opened p flags (w.files p) w refl

-- What the other calls have to meet, on a descriptor that was opened last.
abbrev pub Sought : ℕ → Handle → List (ℕ × Handle) → Disk → Option ℕ × Disk → Type 0
Sought fd h rest w r =
    (r.1.open_files ≡ (fd, moved r.0 h) ∷ rest)
    × ((q : Text) → r.1.files q ≡ w.files q)
    × (r.1.pending ≤ w.pending)

abbrev pub HasRead : ℕ → Handle → List (ℕ × Handle) → Disk → Option Bytes × Disk → Type 0
HasRead fd h rest w r =
    (r.1.open_files ≡ (fd, advanced r.0 h) ∷ rest)
    × ((q : Text) → r.1.files q ≡ w.files q)
    × (r.1.pending ≤ w.pending)

abbrev pub Exact : Handle → ℕ → Bytes → Option Bytes × Disk → Type 0
Exact h n c (none, w') = Unit
Exact h n c (some bytes, w') =
    (length bytes ≤ n)
    × (bytes ≡ take (length bytes) (drop h.position c))
    × (0 < n → h.position < length c → 0 < length bytes)

abbrev pub Spends : Disk → Option Bytes × Disk → Type 0
Spends w (none, w') = is_eintr w'.errno ≡ true → w'.pending < w.pending
Spends w (some bytes, w') = Unit

pub read_in-HasRead :
    (m n fd : ℕ) (h : Handle) (rest : List (ℕ × Handle)) (w : Disk)
    → w.open_files ≡ (fd, h) ∷ rest
    → w.pending ≡ m
    → HasRead fd h rest w (read_in m ((fd, h) ∷ rest) n w)
read_in-HasRead (suc m) n fd h rest w e f = (e, λ q. refl, omega arith)
read_in-HasRead zero n fd h rest w e f = elim (Option-cases (w.files h.name)) [
  | inl none_there ↦
      subst (λ o. HasRead fd h rest w (read_file_in (fd, h) rest n o w)) (sym none_there)
        (e, λ q. refl, omega arith)
  | inr (c, there) ↦
      subst (λ o. HasRead fd h rest w (read_file_in (fd, h) rest n o w)) (sym there)
        (refl, λ q. refl, omega arith)
]

pub read_in-Exact :
    (m n fd : ℕ) (h : Handle) (rest : List (ℕ × Handle)) (c : Bytes) (w : Disk)
    → w.files h.name ≡ some c
    → Exact h n c (read_in m ((fd, h) ∷ rest) n w)
read_in-Exact (suc m) n fd h rest c w e = tt
read_in-Exact zero n fd h rest c w e =
    subst (λ o. Exact h n c (read_file_in (fd, h) rest n o w)) (sym e)
      (
        length-take_le n (drop h.position c),
        take-length-take n (drop h.position c),
        λ lt inside.
            length-take_some n (drop h.position c) lt (omega (arith, length-drop h.position c)),
      )

pub read_in-Spends :
    (m n : ℕ) (l : List (ℕ × Handle)) (w : Disk) → w.pending ≡ m → Spends w (read_in m l n w)
read_in-Spends m n [] w e = λ f. cc
read_in-Spends (suc m) n (x ∷ rest) w e = λ f. omega arith
read_in-Spends zero n (x ∷ rest) w e = elim (Option-cases (w.files x.1.name)) [
  | inl none_there ↦ subst (λ o. Spends w (read_file_in x rest n o w)) (sym none_there) (λ f. cc)
  | inr (c, there) ↦ subst (λ o. Spends w (read_file_in x rest n o w)) (sym there) tt
]

abbrev pub Wrote : Handle → ℕ → List (ℕ × Handle) → Bytes → Disk → Option ℕ × Disk → Type 0
Wrote h fd rest bytes w (none, w') =
    (w'.open_files ≡ w.open_files)
    × (w'.files h.name ≡ w.files h.name)
    × (w'.pending + (if is_eintr w'.errno then 1 else 0) ≤ w.pending)
Wrote h fd rest bytes w (some n, w') =
    (c : Bytes)
    → w.files h.name ≡ some c
    → ((h' : Handle) × (w'.open_files ≡ (fd, h') ∷ rest))
      × (n ≤ length bytes)
      × (w'.files h.name ≡ some (written h (take n bytes) c))

pub write_in-Wrote :
    (m fd : ℕ) (h : Handle) (rest : List (ℕ × Handle)) (bytes : Bytes) (w : Disk)
    → w.open_files ≡ (fd, h) ∷ rest
    → w.pending ≡ m
    → Wrote h fd rest bytes w (write_in m ((fd, h) ∷ rest) bytes w)
write_in-Wrote (suc m) fd h rest bytes w e f = (refl, refl, omega arith)
write_in-Wrote zero fd h rest bytes w e f = elim (Option-cases (w.files h.name)) [
  | inl none_there ↦
      subst (λ o. Wrote h fd rest bytes w (write_file_in (fd, h) rest bytes o w)) (sym none_there)
        (refl, refl, omega arith)
  | inr (c, there) ↦
      subst (λ o. Wrote h fd rest bytes w (write_file_in (fd, h) rest bytes o w)) (sym there)
        (λ d g.
          let same : c ≡ d = cc in
          let all = take-enough (length bytes) bytes (omega arith) in
          (
            (h, e),
            omega arith,
            put_self h.name (written h bytes c) w.files
                ∙ ap₂ (λ b k. some (written h b k)) (sym all) same,
          ))
]
