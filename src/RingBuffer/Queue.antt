-- ===== src/RingBuffer/Queue.antt =====
-- What src/util/RingBuffer.h promises: a queue of at most `capacity` items, oldest first.
use lamina_fs.Prelude.{ℕ, Bool, true, false, List, [], ◌∷◌, ◌++◌, length, ◌==◌, if◌then◌else◌}
use lamina_fs.RingBuffer.{Call, Reply, put, get, count, pushed, popped, counted}

abbrev pub is_empty {ℓ} : {T : Type ℓ} → List T → Bool
is_empty [] = true
is_empty (x ∷ q) = false

module _ {ℓ} {T : Type ℓ} (capacity : ℕ) where
  unfoldable pub push : T → List T → Bool × Bool × List T
  push v q = if length q == capacity then (false, false, q) else (true, is_empty q, q ++ (v ∷ []))

  unfoldable pub pop : T → List T → T × List T
  pop d [] = (d, [])
  pop d (x ∷ q) = (x, q)

  unfoldable pub call : Call T → List T → Reply T × List T
  unfolding push pop
  call (put v) q = let (done, notify, q') = push v q in (pushed done notify, q')
  call (get d) q = let (v, q') = pop d q in (popped v, q')
  call count q = (counted (length q), q)

  unfoldable pub run : List (Call T) → List T → List (Reply T) × List T
  unfolding call
  run [] q = ([], q)
  run (c ∷ cs) q =
      let (reply, q') = call c q in let (replies, last) = run cs q' in (reply ∷ replies, last)
