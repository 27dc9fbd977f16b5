-- ===== src/Context/Race/Tests.antt =====
-- A client releases the item of slot 0 before the thread has come to the end of its turn.
use lamina_fs.Prelude.{ℕ, true, ◌≡◌, refl, some, [], ◌∷◌, ◌++◌, arith}
use lamina_fs.Types.{exists, do_not_free_buffer}
use lamina_fs.PoolAllocator.Slots.{free_slot}
use lamina_fs.PoolAllocator.Tests.{one_taken, one_taken-IsValid}
use lamina_fs.RingBuffer
use lamina_fs.RingBuffer.Bounds.{init-IsValid}
use lamina_fs.WorkItem.{WorkItem, blank, is_completed}
use lamina_fs.Mounts.Tests.{text, disk, two_mounts, two_mounts-AreSound}
use lamina_fs.Context.{FileContext, Request, release_work_item, submit, finish_item}
use lamina_fs.Context.Requests.{callback_request}
use lamina_fs.Context.Submit.{requested}
use lamina_fs.Context.Turn.{IsReady, queued}
use lamina_fs.Context.Race.{finish-early_release}

abbrev request : Request
request = callback_request (text "/data/x") exists 5 do_not_free_buffer 6 (λ item. item)

abbrev completed_item : WorkItem
completed_item = record blank { operation = exists; completed = true }

-- The thread has completed the only item, and not yet read its callback.
abbrev ending : FileContext ℕ
ending = record {
  interfaces = disk ∷ [];
  mounts = two_mounts;
  pool = one_taken;
  items = λ p. completed_item;
  queue = RingBuffer.init (0 ∷ 0 ∷ []) 2;
  semaphore = 0;
  alloc = 1;
  calls = [];
  notified = 0;
  world = 0;
}

ending-IsReady : IsReady ending
ending-IsReady = record {
  sound = two_mounts-AreSound;
  pool = one_taken-IsValid;
  queue = init-IsValid (0 ∷ 0 ∷ []) (omega arith) (omega arith);
  not_null = λ e. omega arith;
}

finish-early_release_example :
    (released : FileContext ℕ) × (asked : FileContext ℕ) × (ended : FileContext ℕ)
    × (release_work_item 1000 ending ≡ some released)
    × (submit request released ≡ some (1000, true, asked))
    × (finish_item 1000 asked ≡ some ended)
    × (ended.calls ≡ (5, 6, requested request) ∷ [])
    × (free_slot ended.pool 0 ≡ 1)
    × (queued ended ≡ queued ending ++ (1000 ∷ []))
unfolding RingBuffer.init RingBuffer.get_count is_completed
finish-early_release_example =
    finish-early_release ending 0 5 request ending-IsReady (omega arith)
      (λ k lt. absurd (omega arith)) (λ e. omega arith) refl refl (ground arith) (omega arith) refl
      refl
