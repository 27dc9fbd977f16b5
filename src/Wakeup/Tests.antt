-- ===== src/Wakeup/Tests.antt =====
-- The thread goes to wait, a client pushes, and has not notified it yet.
use lamina_fs.Prelude.{◌+◌, ◌<◌, refl}
use lamina_fs.RingBuffer.Queue
use lamina_fs.RingBuffer.Queue.{is_empty}
use lamina_fs.Wakeup.{
  State, initial, pop, push, takes, pushes, IsReachable, starts, next, no_lost_wakeup,
}

abbrev asleep : State
asleep = push 2 9 (pop 2 initial)

asleep-IsReachable : IsReachable 2 asleep
unfolding initial
asleep-IsReachable = next (next starts (takes initial refl)) (pushes (pop 2 initial) 9)

no_lost_wakeup_example : 0 < asleep.value + asleep.pending
unfolding initial pop push Queue.push Queue.pop
no_lost_wakeup_example = no_lost_wakeup 2 asleep asleep-IsReachable refl refl
