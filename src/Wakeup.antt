-- ===== src/Wakeup.antt =====
-- How a push wakes the processing thread: src/util/Semaphore.h, `RingBuffer::push` and the end of the
-- loop of `processingFunc` in src/FileContext.cpp. The queue is the bounded queue that the ring buffer
-- is; a client notifies after it has let go of the lock, so other steps may come between.
mod Tests
use lamina_fs.Prelude.{
  ℕ, suc, ◌+◌, ◌-◌, ◌%◌, ◌^◌, ◌<◌, Bool, true, false, ◌≡◌, ◌≢◌, refl, Option, none, some, List, [],
  ◌∷◌, ◌++◌, length, ◌==◌, Bool-cases, inl, inr, if◌then◌else◌, arith,
}
use lamina_fs.RingBuffer.Queue
use lamina_fs.RingBuffer.Queue.{is_empty}
use lamina_fs.Context.{notify}

-- `Semaphore::wait`: the value after it, `none` while it blocks.
unfoldable pub wait : ℕ → Option ℕ
wait value = if value == 0 then none else some (value - 1)

-- What the thread is about to do: to pop, or to wait.
pub data Phase : Type 0 where
  pops waits : Phase

-- `pending` counts the clients that have pushed into an empty queue and still have to notify.
pub record State : Type 0 where
  pub queue : List ℕ
  pub value : ℕ
  pub pending : ℕ
  pub phase : Phase

pub initial : State
initial = record { queue = []; value = 0; pending = 0; phase = pops }

module _ (capacity : ℕ) where
  -- A client's push, when the queue has room.
  pub push : ℕ → State → State
  push p s =
      let (done, wakes, queue) = Queue.push capacity p s.queue in
      record s { queue = queue; pending = if wakes then suc s.pending else s.pending }

  -- The thread's `pop`: an empty queue sends it to wait.
  pub pop : State → State
  pop s = record s {
    queue = (Queue.pop capacity 0 s.queue).1;
    phase = if is_empty s.queue then waits else pops;
  }

  -- The steps of the clients and of the thread. The value does not overflow: 2 ^ 32 notifications
  -- do not pile up. `stops` is the notification of `stopProcessingThread`.
  pub data Step : State → State → Type 0 where
    pushes : (s : State) (p : ℕ) → Step s (push p s)
    notifies :
        (s : State) (others : ℕ)
        → s.pending ≡ suc others
        → s.value + 1 < 2 ^ 32
        → Step s (record s { value = notify s.value; pending = others })
    takes : (s : State) → s.phase ≡ pops → Step s (pop s)
    wakes :
        (s : State) (value : ℕ)
        → s.phase ≡ waits
        → wait s.value ≡ some value
        → Step s (record s { value = value; phase = pops })
    stops : (s : State) → s.value + 1 < 2 ^ 32 → Step s (record s { value = notify s.value })

  pub data IsReachable : State → Type 0 where
    starts : IsReachable initial
    next : {s t : State} → IsReachable s → Step s t → IsReachable t

  -- A thread that waits while items are queued has a notification, or gets one.
  abbrev IsAwake : State → Type 0
  IsAwake s = s.phase ≡ waits → is_empty s.queue ≡ false → 0 < s.value + s.pending

  push-wakes :
      (q : List ℕ) (p value pending : ℕ)
      → (is_empty q ≡ false → 0 < value + pending)
      → is_empty (Queue.push capacity p q).2 ≡ false
      → 0 < value + (if (Queue.push capacity p q).1 then suc pending else pending)
  unfolding Queue.push
  push-wakes [] p value pending h = elim (Bool-cases (0 == capacity)) [
    | inl e ↦ rw e (λ g. cc)
    | inr e ↦ rw e (λ g. omega arith)
  ]
  push-wakes (x ∷ q) p value pending h = elim (Bool-cases (length (x ∷ q) == capacity)) [
    | inl e ↦ rw e (λ g. h refl)
    | inr e ↦ rw e (λ g. h refl)
  ]

  pop-waits :
      (q : List ℕ) (value pending : ℕ)
      → (if is_empty q then waits else pops) ≡ waits
      → is_empty (Queue.pop capacity 0 q).1 ≡ false
      → 0 < value + pending
  unfolding Queue.pop
  pop-waits [] value pending f g = cc
  pop-waits (x ∷ q) value pending f g = cc

  Step-IsAwake : {s t : State} → Step s t → IsAwake s → IsAwake t
  unfolding push pop wait Queue.push Queue.pop
  Step-IsAwake (pushes s p) h = λ f g. push-wakes s.queue p s.value s.pending (h f) g
  Step-IsAwake (notifies s others e small) h = λ f g. ground arith
  Step-IsAwake (takes s e) h = pop-waits s.queue s.value s.pending
  Step-IsAwake (wakes s value f e) h = λ g k. cc
  Step-IsAwake (stops s small) h = λ f g. ground arith

  -- No wake-up is lost: in every state that the steps reach, a thread that waits while items are
  -- queued has a notification, or a client is about to notify it.
  pub no_lost_wakeup :
      (s : State)
      → IsReachable s
      → s.phase ≡ waits
      → is_empty s.queue ≡ false
      → 0 < s.value + s.pending
  unfolding initial
  no_lost_wakeup s reached = awake reached
    where
      awake : {t : State} → IsReachable t → IsAwake t
      awake starts = λ f g. cc
      awake (next before step) = Step-IsAwake step (awake before)
