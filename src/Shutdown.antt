-- ===== src/Shutdown.antt =====
-- How the processing thread starts and stops: `startProcessingThread`, `stopProcessingThread` and the
-- loop of `processingFunc` of src/FileContext.cpp, with the semaphore of src/util/Semaphore.h. The
-- queue is the bounded queue that the ring buffer is. What the thread does with an item is left out:
-- Context/Turn is about it.
pub mod Stopping
pub mod Joining
mod Tests
use lamina_fs.Prelude.{
  ℕ, suc, ◌+◌, ◌^◌, ◌<◌, Bool, true, false, ◌≡◌, Option, none, some, List, [], if◌then◌else◌, map,
}
use lamina_fs.RingBuffer.Queue
use lamina_fs.RingBuffer.Queue.{is_empty}
use lamina_fs.Context.{notify}
use lamina_fs.Wakeup.{wait}

-- What the thread is about to do: to test `_processing`, to pop, to process an item, or to wait. It is
-- `absent` before it starts and after it is joined.
pub data Phase : Type 0 where
  absent tests pops works waits exits : Phase

-- Where the destructor or `releaseMount` is: `cleared` has reset `_processing`, `joins` has notified the
-- thread.
pub data Owner : Type 0 where
  active cleared joins stopped : Owner

-- `pending` counts the clients that have pushed into an empty queue and still have to notify.
pub record State : Type 0 where
  pub queue : List ℕ
  pub value : ℕ
  pub pending : ℕ
  pub processing : Bool
  pub phase : Phase
  pub owner : Owner

-- The members before the thread starts.
abbrev pub unstarted : State
unstarted = record {
  queue = [];
  value = 0;
  pending = 0;
  processing = false;
  phase = absent;
  owner = active;
}

-- `startProcessingThread`
unfoldable pub start_processing_thread : State → State
start_processing_thread s =
    if s.processing then s else record s { processing = true; phase = tests }

-- `stopProcessingThread`, up to each of its three accesses to what it shares with the thread: `none`
-- while `join` blocks.
unfoldable pub stop_processing_thread : State → Option State
stop_processing_thread s = elim s.owner [
  | active ↦ some (
      if s.processing
      then record s { processing = false; owner = cleared }
      else record s { owner = stopped })
  | cleared ↦ some (record s { value = notify s.value; owner = joins })
  | joins ↦ elim s.phase [
    | absent ↦ none
    | tests ↦ none
    | pops ↦ none
    | works ↦ none
    | waits ↦ none
    | exits ↦ some (record s { phase = absent; owner = stopped })
  ]
  | stopped ↦ none
]

module _ (capacity : ℕ) where
  -- A client's push, when the queue has room.
  unfoldable pub push : ℕ → State → State
  unfolding Queue.push
  push p s =
      let (done, wakes, queue) = Queue.push capacity p s.queue in
      record s { queue = queue; pending = if wakes then suc s.pending else s.pending }

  -- A step of the loop of `processingFunc`: `none` while it blocks, or when there is no thread.
  unfoldable pub run_thread : State → Option State
  unfolding Queue.pop wait
  run_thread s = elim s.phase [
    | absent ↦ none
    | tests ↦ some (record s { phase = if s.processing then pops else exits })
    | pops ↦ some (record s {
      queue = (Queue.pop capacity 0 s.queue).1;
      phase = if is_empty s.queue then waits else works;
    })
    | works ↦ some (record s { phase = tests })
    | waits ↦ elim (wait s.value) [
      | none ↦ none
      | some value ↦ some (record s { value = value; phase = tests })
    ]
    | exits ↦ none
  ]

  -- The steps of the clients and of what stops the thread. The value does not overflow: 2 ^ 32 notifications
  -- do not pile up.
  pub data OtherStep : State → State → Type 0 where
    pushes : (s : State) (p : ℕ) → OtherStep s (push p s)
    notifies :
        (s : State) (left : ℕ)
        → s.pending ≡ suc left
        → s.value + 1 < 2 ^ 32
        → OtherStep s (record s { value = notify s.value; pending = left })
    stops : (s t : State) → stop_processing_thread s ≡ some t → s.value + 1 < 2 ^ 32 → OtherStep s t

  -- The states that are reached after so many steps of the thread and any others between them.
  pub data Run (s : State) : ℕ → State → Type 0 where
    starts : Run s 0 s
    others : {n : ℕ} {t u : State} → Run s n t → OtherStep t u → Run s n u
    thread : {n : ℕ} {t u : State} → Run s n t → run_thread t ≡ some u → Run s (suc n) u

  -- The states of a context from its constructor on. `releaseMount` starts the thread again.
  pub data IsReachable : State → Type 0 where
    begins : IsReachable (record (start_processing_thread unstarted) { owner = active })
    runs : {n : ℕ} {s t : State} → IsReachable s → Run s n t → IsReachable t
    restarts :
        {s : State}
        → IsReachable s
        → s.owner ≡ stopped
        → IsReachable (record (start_processing_thread s) { owner = active })
