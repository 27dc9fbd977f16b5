-- ===== src/Context/System/Tests.antt =====
-- A context of four slots and a queue of two, in which a client asks whether a file exists.
use lamina_fs.Prelude.{
  ◌⊎◌, ℕ, true, ◌≡◌, refl, sym, ap, subst, some, [], ◌∷◌, length, arith, occurrences,
}
use lamina_fs.PoolAllocator
use lamina_fs.PoolAllocator.Tests.{one_taken, alloc_first}
use lamina_fs.RingBuffer
use lamina_fs.RingBuffer.Tests.{holds_one, push_first}
use lamina_fs.PoolAllocator.{PoolAllocator}
use lamina_fs.Types.{exists, do_not_free_buffer}
use lamina_fs.Mounts.{is_some}
use lamina_fs.Mounts.Tests.{text, disk}
use lamina_fs.Context.{Request, alloc_work_item_common, push_item, release_work_item, turn}
use lamina_fs.Context.Create.{create}
use lamina_fs.Context.Requests.{callback_request}
use lamina_fs.Context.Submit.{allocated, init_work_item-requested}
use lamina_fs.Context.Turn.{queued}
use lamina_fs.Context.System.{System, CanRun, allocates, pushes, IsReachable, starts, next, filled}
use lamina_fs.Context.System.Invariant.{IsConsistent, occurrences-head}
use lamina_fs.Context.System.Safety.{new_system, reachable-IsConsistent}
use lamina_fs.Context.System.Faults.{reachable-safe}
use lamina_fs.Context.System.Drain.{drain, AllCanRun, drain-Drains}
use lamina_fs.Context.System.Drained.{Drains}

abbrev request : Request
request = callback_request (text "//data/./x") exists 5 do_not_free_buffer 6 (λ item. item)

abbrev start : System ℕ
start = new_system disk 1 1000 (0 ∷ 0 ∷ []) 4 0

start-IsReachable : IsReachable start
start-IsReachable =
    starts disk 1 1000 (0 ∷ 0 ∷ []) 4 0 (λ e. omega arith) (omega arith) (omega arith)

allocates_first :
    alloc_work_item_common request start.ctx ≡ some (1000, allocated request start.ctx 0 one_taken)
unfolding alloc_work_item_common create PoolAllocator.init
allocates_first =
    rw (alloc_first, init_work_item-requested request (ground arith) (omega arith)) refl

abbrev asked : System ℕ
asked = record start {
  ctx = filled request 1000 (allocated request start.ctx 0 one_taken);
  pending = 1000 ∷ [];
}

asked-IsReachable : IsReachable asked
asked-IsReachable = next start-IsReachable (
    allocates start request 1000 (allocated request start.ctx 0 one_taken) (ground arith)
      (omega arith) refl allocates_first (λ e. omega arith))

-- The item is queued, and the semaphore notified.
abbrev one_request : System ℕ
one_request = record asked {
  ctx = record asked.ctx { queue = holds_one; semaphore = 1 };
  pending = [];
  pushed = 1000 ∷ [];
}

pushes_first : push_item 1000 asked.ctx ≡ some (true, one_request.ctx)
unfolding push_item create
pushes_first = rw push_first refl

one_request-IsReachable : IsReachable one_request
one_request-IsReachable =
    next asked-IsReachable (pushes asked [] [] 1000 one_request.ctx refl pushes_first)

one_queued : queued one_request.ctx ≡ 1000 ∷ []
unfolding RingBuffer.get_count
one_queued = refl

request-CanRun : CanRun (one_request.ctx.items 1000)
unfolding create PoolAllocator.init
request-CanRun = record { no_segment = λ e. cc; freeable = λ e. cc }

one_request-AllCanRun : AllCanRun one_request.ctx
one_request-AllCanRun p lt =
    let here : occurrences p (1000 ∷ []) ≡ occurrences p (queued one_request.ctx) =
      ap (occurrences p) (sym one_queued) in
    let same : 1000 ≡ p = ground arith in
    subst (λ a. CanRun (one_request.ctx.items a)) same request-CanRun

reachable-IsConsistent_example : IsConsistent one_request
reachable-IsConsistent_example = reachable-IsConsistent one_request one_request-IsReachable

drain-Drains_example :
    (t : System ℕ) × (drain 2 one_request.ctx ≡ some (true, t.ctx)) × Drains one_request t
drain-Drains_example =
    drain-Drains one_request 2 one_request-IsReachable one_request-AllCanRun
      (omega (arith, ap (λ q. length q) one_queued))

reachable-safe_example :
    (is_some (turn one_request.ctx) ≡ true)
    × (is_some (push_item 1128 one_request.ctx) ≡ true)
    × ((occurrences 1128 one_request.held ≡ 0)
        ⊎ (is_some (release_work_item 1128 one_request.ctx) ≡ true))
    × (is_some (alloc_work_item_common request one_request.ctx) ≡ true)
reachable-safe_example =
    reachable-safe one_request 1128 request one_request-IsReachable
      (λ p rest e.
        one_request-AllCanRun p (omega (arith, ap (occurrences p) e, occurrences-head p rest)))
      (ground arith) (omega arith)
