-- ===== src/Shutdown/Tests.antt =====
-- A context that is destroyed while an item is queued.
use lamina_fs.Prelude.{◌≤◌, ◌≡◌, ◌⊎◌, refl, [], ◌∷◌, false, arith}
use lamina_fs.RingBuffer.Queue
use lamina_fs.Shutdown.{
  State, unstarted, start_processing_thread, stop_processing_thread, push, run_thread, joins,
  stopped, tests, pops, works, exits, cleared, Run, starts, others, thread, pushes, stops,
  IsReachable, begins, runs,
}
use lamina_fs.Shutdown.Joining.{GoesOn, join_returns}

-- The thread is about to pop one of two items when the destructor has notified it, and leaves the other.
abbrev joining : State
joining = record {
  queue = 7 ∷ 8 ∷ [];
  value = 1;
  pending = 1;
  processing = false;
  phase = pops;
  owner = joins;
}

abbrev ended : State
ended = record joining { queue = 8 ∷ []; phase = exits }

to_joining : IsReachable 4 joining
unfolding start_processing_thread stop_processing_thread push run_thread Queue.push
to_joining =
    let s = start_processing_thread unstarted in
    let v = push 4 8 (push 4 7 s) in
    let u : State = record v { phase = pops } in
    let c : State = record u { processing = false; owner = cleared } in
    runs begins (
      others
        (others (thread (others (others starts (pushes s 7)) (pushes (push 4 7 s) 8)) refl)
          (stops u c refl (omega arith)))
        (stops c joining refl (omega arith)))

to_ended : Run 4 joining 3 ended
unfolding run_thread Queue.pop
to_ended =
    thread {t = record ended { phase = tests }}
      (thread {t = record ended { phase = works }} (thread starts refl) refl) refl

join_returns_example : (3 ≤ 3) × ((joins ≡ stopped) ⊎ GoesOn 4 ended)
join_returns_example = join_returns 4 3 joining ended to_joining refl to_ended
