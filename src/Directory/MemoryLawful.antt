-- ===== src/Directory/MemoryLawful.antt =====
-- The system of Directory/Memory as one that meets the laws, and what it answers.
use lamina_fs.Prelude.{ℕ, ◌≡◌, refl, sym, subst, Option, none, some, List, [], ◌∷◌, length, arith}
use lamina_fs.Types.{Text, Bytes}
use lamina_fs.Directory.Calls.{seek_set, seek_end}
use lamina_fs.Directory.Laws.{Handle, IsLawful, moved}
use lamina_fs.Directory.Memory.{Disk, memory, seek_in, target, read_in, write_in, close_in}
use lamina_fs.Directory.MemoryLaws.{
  Opened, open_in-Opened, Sought, HasRead, read_in-HasRead, Exact, read_in-Exact, Spends,
  read_in-Spends, Wrote, write_in-Wrote,
}

abbrev pub Lands : ℕ → Option ℕ × Disk → Type 0
Lands k (none, w) = Unit
Lands k (some j, w) = j ≡ k

pub seek_set-Lands : (l : List (ℕ × Handle)) (k : ℕ) (w : Disk) → Lands k (seek_in l k seek_set w)
seek_set-Lands [] k w = tt
seek_set-Lands (x ∷ rest) k w = refl

pub seek_end-Lands :
    (fd : ℕ) (h : Handle) (rest : List (ℕ × Handle)) (c : Bytes) (w : Disk)
    → w.files h.name ≡ some c
    → Lands (length c) (seek_in ((fd, h) ∷ rest) 0 seek_end w)
seek_end-Lands fd h rest c w e =
    subst
      (λ o.
        Lands (length c) (
          target seek_end 0 o,
          record w { open_files = (fd, moved (target seek_end 0 o) h) ∷ rest },
        ))
      (sym e) (omega arith)

abbrev pub Closed : List (ℕ × Handle) → Disk → Disk → Type 0
Closed rest w w' = (w'.open_files ≡ rest) × ((q : Text) → w'.files q ≡ w.files q)

abbrev pub memory_laws : IsLawful memory
memory_laws = record {
  handles = λ w. w.open_files;
  content = λ w. w.files;
  interruptions = λ w. w.pending;
  open_ok = λ p flags mode fd w w' f.
      subst (Opened p flags w) f (open_in-Opened w.pending p flags w refl);
  open_fails =
      λ p flags mode w w' f. subst (Opened p flags w) f (open_in-Opened w.pending p flags w refl);
  seeks = λ fd k whence h rest o w w' e f. subst (Sought fd h rest w) f (
      subst (λ l. Sought fd h rest w (seek_in l k whence w)) (sym e)
        (refl, λ q. refl, omega arith));
  seek_set_ok = λ fd k j w w' f. subst (Lands k) f (seek_set-Lands w.open_files k w);
  seek_within =
      λ fd k h rest c w e f le. subst (λ l. (seek_in l k seek_set w).0 ≡ some k) (sym e) refl;
  seek_end_ok = λ fd j h rest c w w' e f g. subst (Lands (length c)) g (
      subst (λ l. Lands (length c) (seek_in l 0 seek_end w)) (sym e)
        (seek_end-Lands fd h rest c w f));
  reads = λ fd n h rest o w w' e f. subst (HasRead fd h rest w) f (
      subst (λ l. HasRead fd h rest w (read_in w.pending l n w)) (sym e)
        (read_in-HasRead w.pending n fd h rest w e refl));
  read_fails = λ fd n w w' f again.
      subst (Spends w) f (read_in-Spends w.pending n w.open_files w refl) again;
  read_ok = λ fd n h rest bytes c w w' e f g. subst (Exact h n c) g (
      subst (λ l. Exact h n c (read_in w.pending l n w)) (sym e)
        (read_in-Exact w.pending n fd h rest c w f));
  write_fails = λ fd h rest bytes w w' e f. subst (Wrote h fd rest bytes w) f (
      subst (λ l. Wrote h fd rest bytes w (write_in w.pending l bytes w)) (sym e)
        (write_in-Wrote w.pending fd h rest bytes w e refl));
  write_ok = λ fd n h rest bytes c w w' e f g.
      subst (Wrote h fd rest bytes w) g
        (subst (λ l. Wrote h fd rest bytes w (write_in w.pending l bytes w)) (sym e)
          (write_in-Wrote w.pending fd h rest bytes w e refl))
        c f;
  closes = λ fd h rest w e. subst (λ l. Closed rest w (close_in l w)) (sym e) (refl, λ q. refl);
  allocates = λ n w. (refl, λ q. refl, omega arith);
  frees = λ w. (refl, λ q. refl);
}
