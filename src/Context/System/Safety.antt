-- ===== src/Context/System/Safety.antt =====
-- The invariant over all sequences of steps from a new context.
use lamina_fs.Prelude.{
  ℕ, ◌^◌, ◌<◌, true, ◌≡◌, ◌≢◌, refl, sym, ap, ◌∙◌, List, [], length, if◌then◌else◌, arith,
  occurrences, ltb,
}
use lamina_fs.Device.{DeviceInterface}
use lamina_fs.PoolAllocator
use lamina_fs.PoolAllocator.Slots.{free_slot, free_slot-init}
use lamina_fs.RingBuffer
use lamina_fs.Context.Turn.{queued, slot_address}
use lamina_fs.Context.Create.{create, create-IsReady}
use lamina_fs.Context.System.{
  System, Step, allocates, exhausts, pushes, spins, turns, idles, releases, configures, IsReachable,
  starts, next,
}
use lamina_fs.Context.System.Invariant.{IsConsistent}
use lamina_fs.Context.System.Requesting.{allocates-IsConsistent, exhausts-IsConsistent}
use lamina_fs.Context.System.Queueing.{
  pushes-IsConsistent, spins-IsConsistent, configures-IsConsistent,
}
use lamina_fs.Context.System.Turning.{turns-IsConsistent, idles-IsConsistent}
use lamina_fs.Context.System.Releasing.{releases-IsConsistent}

module _ {W : Type 0} where
  pub Step-IsConsistent : {s t : System W} → Step s t → IsConsistent s → IsConsistent t
  Step-IsConsistent (allocates s q p ctx text small able e ne) h =
      allocates-IsConsistent s q p ctx text small able e ne h
  Step-IsConsistent (exhausts s q ctx text small e) h = exhausts-IsConsistent s q ctx text small e h
  Step-IsConsistent (pushes s before after p ctx split e) h =
      pushes-IsConsistent s before after p ctx split e h
  Step-IsConsistent (spins s p ctx e) h = spins-IsConsistent s p ctx e h
  Step-IsConsistent (turns s p rest ctx e t) h = turns-IsConsistent s p rest ctx e t h
  Step-IsConsistent (idles s ctx e t) h = idles-IsConsistent s ctx e t h
  Step-IsConsistent (releases s before after p ctx split e) h =
      releases-IsConsistent s before after p ctx split e h
  Step-IsConsistent (configures s r step) h = configures-IsConsistent s r step h

  abbrev pub new_system : DeviceInterface W → ℕ → ℕ → List ℕ → ℕ → W → System W
  new_system directory alloc storage cells slots w = record {
    ctx = create directory alloc storage cells (length cells) slots w;
    pending = [];
    held = [];
    pushed = [];
    taken = [];
  }

  new-empty :
      (directory : DeviceInterface W) (alloc storage : ℕ) (cells : List ℕ) (slots : ℕ) (w : W)
      → 0 < length cells
      → queued (create directory alloc storage cells (length cells) slots w) ≡ []
  unfolding create RingBuffer.init RingBuffer.get_count
  new-empty directory alloc storage cells slots w room = refl

  new-free :
      (directory : DeviceInterface W) (alloc storage : ℕ) (cells : List ℕ) (slots : ℕ) (w : W)
      (i : ℕ)
      → i < (create directory alloc storage cells (length cells) slots w).pool.capacity
      → free_slot (create directory alloc storage cells (length cells) slots w).pool i ≡ 1
  unfolding create PoolAllocator.init
  new-free directory alloc storage cells slots w i lt =
      let below : ltb i slots ≡ true = ground arith in
      free_slot-init storage slots i ∙ ap (λ b. if b then 1 else 0) below

  new-IsConsistent :
      (directory : DeviceInterface W) (alloc storage : ℕ) (cells : List ℕ) (slots : ℕ) (w : W)
      → storage ≢ 0
      → 0 < length cells
      → length cells < 2 ^ 64
      → IsConsistent (new_system directory alloc storage cells slots w)
  new-IsConsistent directory alloc storage cells slots w ne room small =
      let (ready, registered) =
        create-IsReady directory alloc storage cells slots w ne room small in
      let empty = new-empty directory alloc storage cells slots w room in
      let none_queued : (p : ℕ)
          → occurrences p (queued (create directory alloc storage cells (length cells) slots w))
            ≡ 0 =
        λ p. ap (occurrences p) empty in
      record {
        ready = ready;
        registered = registered;
        accounts = λ i lt. omega (
          arith,
          new-free directory alloc storage cells slots w i lt,
          none_queued
              (slot_address (create directory alloc storage cells (length cells) slots w) i),
        );
        owned = λ p lt. absurd (omega (arith, none_queued p));
        waiting = λ p lt. absurd (omega (arith, none_queued p));
        finished = λ p lt. absurd (omega arith);
        order = sym empty;
      }

  -- However the clients and the thread take their steps, the mounts are sound and the pool and the
  -- queue valid; each slot of the pool is either free or has one owner, which is a client that has
  -- still to push it, the queue, or a client that has still to release it, so that no slot is lost
  -- or used twice; the items that are pending or queued have not run, those to be released have
  -- completed and have no callback; and the pushed items are those taken, in the same order,
  -- followed by those queued. The clients' requests are any for C strings of fewer than 2 ^ 32
  -- bytes, `writeFile` and `writeFileSegment` included. Each call and each turn is one step, so that
  -- a client acts before or after a turn and never in it; a turn that would fault is no step.
  pub reachable-IsConsistent : (s : System W) → IsReachable s → IsConsistent s
  reachable-IsConsistent s (starts directory alloc storage cells slots w ne room small) =
      new-IsConsistent directory alloc storage cells slots w ne room small
  reachable-IsConsistent s (next before step) =
      Step-IsConsistent step (reachable-IsConsistent _ before)
