-- ===== src/Waiting/Tests.antt =====
-- Client 0 sleeps for the item at 1000 when the thread completes it.
use lamina_fs.Prelude.{true, ◌≡◌, refl}
use lamina_fs.Waiting.{
  State, initial, checks, set_client, check, complete, waits, looks, completes, IsReachable, starts,
  next, no_lost_completion,
}

abbrev called : State
called = record initial { clients = set_client 0 (checks 1000) initial.clients }

abbrev asleep : State
asleep = complete 1000 (check 0 1000 called)

asleep-IsReachable : IsReachable asleep
unfolding initial check
asleep-IsReachable =
    next (next (next starts (waits initial 0 1000 refl)) (looks called 0 1000 refl))
      (completes (check 0 1000 called) 1000 refl)

no_lost_completion_example : asleep.owes ≡ true
unfolding initial check complete
no_lost_completion_example = no_lost_completion asleep 0 1000 asleep-IsReachable refl refl
