-- ===== src/Shutdown/Stopping.antt =====
-- What the steps of the clients, of the destructor and of the processing thread of src/FileContext.cpp
-- keep while the destructor stops the thread.
use lamina_fs.Prelude.{
  ℕ, ◌+◌, ◌^◌, ◌<◌, Bool, true, false, ◌≡◌, ◌≢◌, refl, sym, ap, ◌∙◌, subst, Option, none, some,
  if◌then◌else◌, Bool-cases, Option-cases, inl, inr, arith,
}
use lamina_fs.RingBuffer.Queue
use lamina_fs.RingBuffer.Queue.{is_empty}
use lamina_fs.Context.{notify}
use lamina_fs.Wakeup.{wait}
use lamina_fs.Shutdown.{
  Phase, absent, tests, pops, works, waits, exits, Owner, active, cleared, joins, stopped, State,
  unstarted, start_processing_thread, stop_processing_thread, push, run_thread, OtherStep, pushes,
  notifies, stops, Run, starts, others, thread, IsReachable, begins, runs, restarts,
}

-- The steps that the thread still takes once `_processing` is reset and it is notified.
abbrev pub remaining : Phase → ℕ
remaining absent = 0
remaining exits = 0
remaining tests = 1
remaining works = 2
remaining waits = 2
remaining pops = 3

-- What the thread needs in each phase to come to its end.
abbrev pub CanEnd : Phase → ℕ → Type 0
CanEnd absent value = ⊥
CanEnd tests value = Unit
CanEnd works value = Unit
CanEnd exits value = Unit
CanEnd pops value = 0 < value
CanEnd waits value = 0 < value

-- What holds where the destructor is.
abbrev pub IsStopping : Owner → Bool → Phase → ℕ → Type 0
IsStopping active processing phase value =
    (processing ≡ false → phase ≡ absent) × (processing ≡ true → phase ≢ absent)
IsStopping cleared processing phase value = (processing ≡ false) × (phase ≢ absent)
IsStopping joins processing phase value = (processing ≡ false) × CanEnd phase value
IsStopping stopped processing phase value = (processing ≡ false) × (phase ≡ absent)

CanEnd-notified : (phase : Phase) (value : ℕ) → phase ≢ absent → 0 < value → CanEnd phase value
CanEnd-notified absent value there lt = absurd (there refl)
CanEnd-notified tests value there lt = tt
CanEnd-notified works value there lt = tt
CanEnd-notified exits value there lt = tt
CanEnd-notified pops value there lt = lt
CanEnd-notified waits value there lt = lt

CanEnd-present : (phase : Phase) (value : ℕ) → CanEnd phase value → phase ≢ absent
CanEnd-present absent value h = absurd h
CanEnd-present tests value h = λ e. cc
CanEnd-present pops value h = λ e. cc
CanEnd-present works value h = λ e. cc
CanEnd-present waits value h = λ e. cc
CanEnd-present exits value h = λ e. cc

notified-IsStopping :
    (owner : Owner) (processing : Bool) (phase : Phase) (value value' : ℕ)
    → 0 < value'
    → IsStopping owner processing phase value
    → IsStopping owner processing phase value'
notified-IsStopping active processing phase value value' lt h = h
notified-IsStopping cleared processing phase value value' lt h = h
notified-IsStopping joins processing phase value value' lt h =
    (h.0, CanEnd-notified phase value' (CanEnd-present phase value h.1) lt)
notified-IsStopping stopped processing phase value value' lt h = h

abbrev pub StateIsStopping : State → Type 0
StateIsStopping s = IsStopping s.owner s.processing s.phase s.value

same-IsStopping : (s t : State) → StateIsStopping s → some s ≡ some t → StateIsStopping t
same-IsStopping s t h e = let same : s ≡ t = cc in subst StateIsStopping same h

module _ (capacity : ℕ) where
  -- What a step of the thread keeps, and how it comes nearer to its end.
  abbrev pub Advances : State → State → Type 0
  Advances s t =
      (t.owner ≡ s.owner)
      × (t.processing ≡ s.processing)
      × (s.phase ≢ absent)
      × (t.phase ≢ absent)
      × (s.processing ≡ false
          → CanEnd s.phase s.value
          → CanEnd t.phase t.value × (remaining t.phase < remaining s.phase))

  same-Advances : (s t u : State) → Advances s t → some t ≡ some u → Advances s u
  same-Advances s t u h e = let same : t ≡ u = cc in subst (λ v. Advances s v) same h

  abbrev pub popped : State → State
  popped s = record s {
    queue = (Queue.pop capacity 0 s.queue).1;
    phase = if is_empty s.queue then waits else works;
  }

  abbrev pub woken : State → Option ℕ → Option State
  woken s o = elim o [ none ↦ none | some value ↦ some (record s { value = value; phase = tests }) ]

  pub run_thread-Advances :
      (phase : Phase) (s t : State)
      → run_thread capacity (record s { phase = phase }) ≡ some t
      → Advances (record s { phase = phase }) t
  unfolding run_thread
  run_thread-Advances absent s t e = cc
  run_thread-Advances exits s t e = cc
  run_thread-Advances works s t e =
      same-Advances (record s { phase = works }) (record s { phase = tests }) t
        (refl, refl, λ a. cc, λ a. cc, λ off ready. (tt, omega arith)) e
  run_thread-Advances tests s t e =
      same-Advances (record s { phase = tests })
        (record s { phase = if s.processing then pops else exits }) t
        (
          refl,
          refl,
          λ a. cc,
          elim (Bool-cases s.processing) [ inl on ↦ rw on (λ a. cc) | inr off ↦ rw off (λ a. cc) ],
          λ off ready. rw off (tt, omega arith),
        )
        e
  run_thread-Advances pops s t e =
      same-Advances (record s { phase = pops }) (popped s) t
        (
          refl,
          refl,
          λ a. cc,
          elim (Bool-cases (is_empty s.queue)) [ inl e ↦ rw e (λ a. cc) | inr e ↦ rw e (λ a. cc) ],
          λ off ready. elim (Bool-cases (is_empty s.queue)) [
            | inl empty ↦ rw empty (ready, omega arith)
            | inr full ↦ rw full (tt, omega arith)
          ],
        )
        e
  run_thread-Advances waits s t e = elim (Option-cases (wait s.value)) [
    | inl blocked ↦ let off : none ≡ some t = ap (woken s) (sym blocked) ∙ e in cc
    | inr (value, free) ↦
        same-Advances (record s { phase = waits }) (record s { value = value; phase = tests }) t
          (refl, refl, λ a. cc, λ a. cc, λ off ready. (tt, omega arith))
          (ap (woken s) (sym free) ∙ e)
  ]

  stop-IsStopping :
      (owner : Owner) (phase : Phase) (s t : State)
      → stop_processing_thread (record s { owner = owner; phase = phase }) ≡ some t
      → s.value + 1 < 2 ^ 32
      → IsStopping owner s.processing phase s.value
      → StateIsStopping t
  unfolding stop_processing_thread
  stop-IsStopping active phase s t e small h = elim (Bool-cases s.processing) [
    | inl on ↦
        let v : State = record s { phase = phase; processing = false; owner = cleared } in
        same-IsStopping v t (refl, h.1 on)
          (ap (λ b. some (if b then v else record s { phase = phase; owner = stopped })) (sym on)
            ∙ e)
    | inr off ↦
        let v : State = record s { phase = phase; owner = stopped } in
        same-IsStopping v t (off, h.0 off)
          (ap
              (λ b.
                some (
                  if b then record s { phase = phase; processing = false; owner = cleared } else v))
              (sym off)
            ∙ e)
  ]
  stop-IsStopping cleared phase s t e small h =
      same-IsStopping (record s { phase = phase; value = notify s.value; owner = joins }) t
        (h.0, CanEnd-notified phase (notify s.value) h.1 (ground arith)) e
  stop-IsStopping joins exits s t e small h =
      same-IsStopping (record s { phase = absent; owner = stopped }) t (h.0, refl) e
  stop-IsStopping joins absent s t e small h = cc
  stop-IsStopping joins tests s t e small h = cc
  stop-IsStopping joins pops s t e small h = cc
  stop-IsStopping joins works s t e small h = cc
  stop-IsStopping joins waits s t e small h = cc
  stop-IsStopping stopped phase s t e small h = cc

  OtherStep-IsStopping :
      {s t : State} → OtherStep capacity s t → StateIsStopping s → StateIsStopping t
  unfolding push
  OtherStep-IsStopping (pushes s p) h = h
  OtherStep-IsStopping (notifies s left e small) h =
      notified-IsStopping s.owner s.processing s.phase s.value (notify s.value) (ground arith) h
  OtherStep-IsStopping (stops s t e small) h = stop-IsStopping s.owner s.phase s t e small h

  thread-IsStopping :
      (owner : Owner) (s t : State)
      → Advances s t
      → IsStopping owner s.processing s.phase s.value
      → IsStopping owner t.processing t.phase t.value
  thread-IsStopping active s t (same, kept, present, there, nearer) h =
      (λ off. absurd (present (h.0 (sym kept ∙ off))), λ on. there)
  thread-IsStopping cleared s t (same, kept, present, there, nearer) h = (kept ∙ h.0, there)
  thread-IsStopping joins s t (same, kept, present, there, nearer) (off, ready) =
      (kept ∙ off, (nearer off ready).0)
  thread-IsStopping stopped s t (same, kept, present, there, nearer) h = absurd (present h.1)

  pub Run-IsStopping :
      {s t : State} {n : ℕ} → StateIsStopping s → Run capacity s n t → StateIsStopping t
  Run-IsStopping h starts = h
  Run-IsStopping h (others before step) = OtherStep-IsStopping step (Run-IsStopping h before)
  Run-IsStopping {s} {t} h (thread {t = v} before step) =
      let a = run_thread-Advances v.phase v t step in
      subst (λ owner. IsStopping owner t.processing t.phase t.value) (sym a.0)
        (thread-IsStopping v.owner v t a (Run-IsStopping h before))

  started-IsStopping :
      (s : State)
      → s.processing ≡ false
      → StateIsStopping (record (start_processing_thread s) { owner = active })
  unfolding start_processing_thread
  started-IsStopping s off = rw off ((λ on. cc), (λ on. λ a. cc))

  pub reachable-IsStopping : {s : State} → IsReachable capacity s → StateIsStopping s
  reachable-IsStopping begins = started-IsStopping unstarted refl
  reachable-IsStopping (runs before run) = Run-IsStopping (reachable-IsStopping before) run
  reachable-IsStopping (restarts {s} before at) =
      started-IsStopping s
        (subst (λ o. IsStopping o s.processing s.phase s.value) at (reachable-IsStopping before)).0
