-- ===== src/Context/Tests.antt =====
-- Requests and turns of a context with four slots and room for two items.
use lamina_fs.Prelude.{ℕ, false, ◌≡◌, ◌≢◌, refl, some, [], ◌∷◌, length, arith}
use lamina_fs.Types.{read, exists, do_not_free_buffer, free_buffer}
use lamina_fs.PoolAllocator
use lamina_fs.PoolAllocator.{PoolAllocator}
use lamina_fs.PoolAllocator.Slots
use lamina_fs.PoolAllocator.Slots.{free_slot, free_slot-init}
use lamina_fs.RingBuffer
use lamina_fs.RingBuffer.{RingBuffer, get_count}
use lamina_fs.RingBuffer.Bounds
use lamina_fs.WorkItem.{WorkItem, blank}
use lamina_fs.Mounts.Tests.{text, disk, two_mounts, two_mounts-AreSound}
use lamina_fs.Processing.Keeps.{Keeps, perform-Keeps}
use lamina_fs.Processing.{perform}
use lamina_fs.Context.{FileContext, Request, submit}
use lamina_fs.Context.Requests.{callback_request}
use lamina_fs.Context.Turn.{IsReady, queued, slot_address, performed, PlainTurn, turn-plain}
use lamina_fs.Context.Callback.{CallbackTurn, turn-callback}
use lamina_fs.Context.Submit.{exhausted, submit-exhausted}
use lamina_fs.Context.Queued.{Submits, submit-queued}

abbrev plain_item : WorkItem
plain_item = record blank {
  operation = read;
  filename = text "/data/x";
  allocator = some 1;
  buffer_bytes = 10;
}

abbrev callback_item : WorkItem
callback_item = record plain_item {
  callback = some 5;
  callback_user_data = 6;
  callback_buffer_action = free_buffer;
}

abbrev empty_queue : RingBuffer ℕ
empty_queue = record {
  buffer = 0 ∷ 0 ∷ [];
  capacity = 2;
  read_pos = 1;
  write_pos = 1;
  full = false;
}

-- The address of slot 1 waits.
abbrev one_queued : RingBuffer ℕ
one_queued = record {
  buffer = 0 ∷ 1128 ∷ [];
  capacity = 2;
  read_pos = 1;
  write_pos = 0;
  full = false;
}

abbrev context : PoolAllocator → RingBuffer ℕ → WorkItem → FileContext ℕ
context pool queue item = record {
  interfaces = disk ∷ [];
  mounts = two_mounts;
  pool = pool;
  items = λ p. item;
  queue = queue;
  semaphore = 0;
  alloc = 1;
  calls = [];
  notified = 0;
  world = 0;
}

abbrev idle : FileContext ℕ
idle = context (PoolAllocator.init 1000 4) empty_queue blank

abbrev waiting : WorkItem → FileContext ℕ
waiting item = context (PoolAllocator.init 1000 4) one_queued item

empty_queue-IsValid : RingBuffer.Bounds.IsValid empty_queue
empty_queue-IsValid = ground arith

one_queued-IsValid : RingBuffer.Bounds.IsValid one_queued
one_queued-IsValid = ground arith

idle-IsReady : IsReady idle
unfolding PoolAllocator.init
idle-IsReady = record {
  sound = two_mounts-AreSound;
  pool = PoolAllocator.Slots.init-IsValid 1000 4;
  queue = empty_queue-IsValid;
  not_null = λ e. omega arith;
}

waiting-IsReady : (item : WorkItem) → IsReady (waiting item)
unfolding PoolAllocator.init
waiting-IsReady item = record {
  sound = two_mounts-AreSound;
  pool = PoolAllocator.Slots.init-IsValid 1000 4;
  queue = one_queued-IsValid;
  not_null = λ e. omega arith;
}

idle_queue : queued idle ≡ []
unfolding get_count
idle_queue = refl

waiting_queue : (item : WorkItem) → queued (waiting item) ≡ slot_address (waiting item) 1 ∷ []
unfolding get_count PoolAllocator.init
waiting_queue item = refl

waiting_not_null : (item : WorkItem) → slot_address (waiting item) 1 ≢ 0
unfolding PoolAllocator.init
waiting_not_null item = λ e. omega arith

turn-plain_example :
    (item : WorkItem) × (w : ℕ) × (perform two_mounts plain_item 0 ≡ some (item, w))
    × PlainTurn (waiting plain_item) (slot_address (waiting plain_item) 1) [] item w
unfolding PoolAllocator.init
turn-plain_example =
    turn-plain (waiting plain_item) (slot_address (waiting plain_item) 1) []
      (waiting-IsReady plain_item) (waiting_queue plain_item) (waiting_not_null plain_item)
      (λ e. cc) refl

turn-callback_example :
    (item : WorkItem) × (w : ℕ) × (perform two_mounts callback_item 0 ≡ some (item, w))
    × CallbackTurn (waiting callback_item) 1 5 [] item w
unfolding PoolAllocator.init
turn-callback_example =
    turn-callback (waiting callback_item) 1 5 [] (waiting-IsReady callback_item) (omega arith)
      (waiting_queue callback_item) (λ e. cc) refl (λ e. refl)

abbrev request : Request
request = callback_request (text "//data/./x") exists 5 do_not_free_buffer 6 (λ item. item)

idle_free : free_slot idle.pool 2 ≡ 1
idle_free = free_slot-init 1000 4 2

idle_room : length (queued idle) ≢ idle.queue.capacity
unfolding get_count
idle_room = λ e. omega arith

submit-queued_example : (j : ℕ) × (ctx' : FileContext ℕ) × Submits request idle j ctx'
submit-queued_example =
    submit-queued request idle 2 idle-IsReady (ground arith) (omega arith) idle_room idle_free

-- A pool of no slots.
abbrev no_slots : FileContext ℕ
no_slots = context (PoolAllocator.init 1000 0) empty_queue blank

no_slots-IsReady : IsReady no_slots
unfolding PoolAllocator.init
no_slots-IsReady = record {
  sound = two_mounts-AreSound;
  pool = PoolAllocator.Slots.init-IsValid 1000 0;
  queue = empty_queue-IsValid;
  not_null = λ e. omega arith;
}

none_free : (i : ℕ) → free_slot no_slots.pool i ≡ 0
none_free i = ground (arith, free_slot-init 1000 0 i)

submit-exhausted_example : submit request no_slots ≡ some (0, false, exhausted request no_slots)
submit-exhausted_example =
    submit-exhausted request no_slots no_slots-IsReady (ground arith) (omega arith) none_free

perform_result : (r : WorkItem × ℕ) × (perform two_mounts plain_item 0 ≡ some r)
perform_result = performed (waiting plain_item) 0 (waiting-IsReady plain_item) (λ e. cc)

perform-Keeps_example : Keeps plain_item perform_result.0.0
perform-Keeps_example = perform-Keeps plain_item two_mounts 0 perform_result.0 perform_result.1
