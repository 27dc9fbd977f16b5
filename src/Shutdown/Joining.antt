-- ===== src/Shutdown/Joining.antt =====
-- Why `join` in `stopProcessingThread` of src/FileContext.cpp returns.
use lamina_fs.Prelude.{
  ℕ, ◌+◌, ◌-◌, ◌≤◌, ◌<◌, false, ◌≡◌, refl, sym, ap, ◌∙◌, subst, none, some, ◌==◌, if◌then◌else◌,
  inl, inr, ◌⊎◌, arith,
}
use lamina_fs.Wakeup.{wait}
use lamina_fs.Shutdown.{
  Phase, absent, tests, pops, works, waits, exits, joins, stopped, State, stop_processing_thread,
  push, run_thread, OtherStep, pushes, notifies, stops, Run, starts, others, thread, IsReachable,
}
use lamina_fs.Shutdown.Stopping.{
  remaining, CanEnd, IsStopping, StateIsStopping, popped, woken, run_thread-Advances,
  Run-IsStopping, reachable-IsStopping,
}

module _ (capacity : ℕ) where
  -- Where a run of a context that is being stopped is, after `n` steps of the thread of which there
  -- are at most `bound`: the thread is joined, or has been.
  abbrev IsEnding : ℕ → ℕ → State → Type 0
  IsEnding bound n t =
      ((t.owner ≡ joins) × (n + remaining t.phase ≤ bound))
      ⊎ ((t.owner ≡ stopped) × (t.phase ≡ absent) × (n ≤ bound))

  join-IsEnding :
      (phase : Phase) (bound n : ℕ) (s t : State)
      → stop_processing_thread (record s { owner = joins; phase = phase }) ≡ some t
      → n + remaining phase ≤ bound
      → IsEnding bound n t
  unfolding stop_processing_thread
  join-IsEnding exits bound n s t e le =
      let same : record s { phase = absent; owner = stopped } ≡ t = cc in
      subst (IsEnding bound n) same (inr (refl, refl, omega arith))
  join-IsEnding absent bound n s t e le = cc
  join-IsEnding tests bound n s t e le = cc
  join-IsEnding pops bound n s t e le = cc
  join-IsEnding works bound n s t e le = cc
  join-IsEnding waits bound n s t e le = cc

  stopped-ends : (s t : State) → s.owner ≡ stopped → stop_processing_thread s ≡ some t → ⊥
  unfolding stop_processing_thread
  stopped-ends s t e f =
      let off : none ≡ some t =
        subst (λ o. stop_processing_thread (record s { owner = o }) ≡ some t) e f in
      cc

  OtherStep-IsEnding :
      (bound n : ℕ) {s t : State} → OtherStep capacity s t → IsEnding bound n s → IsEnding bound n t
  unfolding push
  OtherStep-IsEnding bound n (pushes s p) h = h
  OtherStep-IsEnding bound n (notifies s left e small) h = h
  OtherStep-IsEnding bound n (stops s t e small) (inl (at, le)) =
      join-IsEnding s.phase bound n s t
        (subst (λ o. stop_processing_thread (record s { owner = o }) ≡ some t) at e) le
  OtherStep-IsEnding bound n (stops s t e small) (inr (at, gone, le)) =
      absurd (stopped-ends s t at e)

  Run-IsEnding :
      {s t : State} {n : ℕ}
      → StateIsStopping s
      → s.owner ≡ joins
      → Run capacity s n t
      → IsEnding (remaining s.phase) n t
  Run-IsEnding h at starts = inl (at, omega arith)
  Run-IsEnding {s} h at (others {n = n} before step) =
      OtherStep-IsEnding (remaining s.phase) n step (Run-IsEnding h at before)
  Run-IsEnding {s} {t} h at (thread {n = n} {t = v} before step) =
      let (same, kept, present, _, nearer) = run_thread-Advances capacity v.phase v t step in
      elim (Run-IsEnding h at before) [
        | inl (there, le) ↦
            let (off, ready) =
              subst (λ o. IsStopping o v.processing v.phase v.value) there
                (Run-IsStopping capacity h before) in
            let (after, less) = nearer off ready in inl (same ∙ there, omega (arith, less, le))
        | inr (there, gone, le) ↦ absurd (present gone)
      ]

  -- What can happen next while the thread is joined: a step of the thread, or the return.
  abbrev pub GoesOn : State → Type 0
  GoesOn t =
      ((u : State) × (run_thread capacity t ≡ some u))
      ⊎ ((u : State) × (stop_processing_thread t ≡ some u) × (u.owner ≡ stopped))

  -- A thread that waits goes on when it is notified.
  run_thread-notified :
      (t : State)
      → t.phase ≡ waits
      → 0 < t.value
      → run_thread capacity t ≡ some (record t { value = t.value - 1; phase = tests })
  unfolding run_thread wait
  run_thread-notified t at lt =
      let some_left : (t.value == 0) ≡ false = ground arith in
      ap (λ phase. run_thread capacity (record t { phase = phase })) at
      ∙ ap (λ b. woken capacity t (if b then none else some (t.value - 1))) some_left

  joins-GoesOn :
      (phase : Phase) (t : State)
      → CanEnd phase t.value
      → GoesOn (record t { owner = joins; phase = phase })
  unfolding run_thread stop_processing_thread
  joins-GoesOn absent t ready = absurd ready
  joins-GoesOn tests t ready =
      inl (record t { owner = joins; phase = if t.processing then pops else exits }, refl)
  joins-GoesOn pops t ready = inl (popped capacity (record t { owner = joins }), refl)
  joins-GoesOn works t ready = inl (record t { owner = joins; phase = tests }, refl)
  joins-GoesOn exits t ready = inr (record t { owner = stopped; phase = absent }, refl, refl)
  joins-GoesOn waits t ready = inl (
    record t { owner = joins; value = t.value - 1; phase = tests },
    run_thread-notified (record t { owner = joins; phase = waits }) refl ready,
  )

  remaining-bounded : (phase : Phase) → remaining phase ≤ 3
  remaining-bounded absent = omega arith
  remaining-bounded tests = omega arith
  remaining-bounded pops = omega arith
  remaining-bounded works = omega arith
  remaining-bounded waits = omega arith
  remaining-bounded exits = omega arith

  -- `join` returns: in every state of a context in which the destructor or `releaseMount` has reset
  -- `_processing` and notified the thread, and whatever the queue holds and the clients do from there
  -- on, the thread takes at most three more steps, the processing of an item being one; and as long
  -- as it has not been joined, it can take a step or `join` can return.
  pub join_returns :
      (n : ℕ) (s t : State)
      → IsReachable capacity s
      → s.owner ≡ joins
      → Run capacity s n t
      → (n ≤ 3) × ((t.owner ≡ stopped) ⊎ GoesOn t)
  join_returns n s t reached at run =
      let h = reachable-IsStopping capacity reached in
      let last = Run-IsStopping capacity h run in
      let bound = remaining-bounded s.phase in
      elim (Run-IsEnding h at run) [
        | inl (there, le) ↦
            let (off, ready) = subst (λ o. IsStopping o t.processing t.phase t.value) there last in
            (
              omega arith,
              inr (
                  subst (λ o. GoesOn (record t { owner = o })) (sym there)
                    (joins-GoesOn t.phase t ready)),
            )
        | inr (there, gone, le) ↦ (omega arith, inl there)
      ]
