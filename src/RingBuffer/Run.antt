-- ===== src/RingBuffer/Run.antt =====
-- Sequences of calls of a `RingBuffer`, beside the queue of its contents.
use lamina_fs.Prelude.{◌≡◌, refl, some, List, [], ◌∷◌}
use lamina_fs.RingBuffer.{RingBuffer, Call, put, get, count, call, run}
use lamina_fs.RingBuffer.Queue
use lamina_fs.RingBuffer.Bounds.{IsValid}
use lamina_fs.RingBuffer.Contents.{contents, length-contents}
use lamina_fs.RingBuffer.Refine.{push_refines, pop_refines}

module _ {ℓ} {T : Type ℓ} (d : T) where
  -- What one answer and the ring after it have to do with the queue.
  pub record Refines (r : RingBuffer T) (c : Call T) : Type ℓ where
    pub after : RingBuffer T
    pub answers : call c r ≡ some ((Queue.call r.capacity c (contents d r)).0, after)
    pub holds : contents d after ≡ (Queue.call r.capacity c (contents d r)).1
    pub valid : IsValid after
    pub same_capacity : after.capacity ≡ r.capacity

  call-Refines : (c : Call T) (r : RingBuffer T) → IsValid r → Refines r c
  unfolding call Queue.call
  call-Refines (put v) r valid =
      let (r', answers, holds, valid', same) = push_refines d v r valid in
      record {
        after = r';
        answers = rw answers;
        holds = holds;
        valid = valid';
        same_capacity = same;
      }
  call-Refines (get e) r valid =
      let (r', answers, holds, valid', same) = pop_refines d e r valid in
      record {
        after = r';
        answers = rw answers;
        holds = holds;
        valid = valid';
        same_capacity = same;
      }
  call-Refines count r valid = record {
    after = r;
    answers = rw (length-contents d r);
    holds = refl;
    valid = valid;
    same_capacity = refl;
  }

  -- No sequence of calls tells a valid ring from the bounded queue of its contents, no call
  -- leaves the storage, and the ring at the end is valid and holds what the queue holds.
  pub run_refines :
      (cs : List (Call T)) (r : RingBuffer T)
      → IsValid r
      → (last : RingBuffer T) × (run cs r ≡ some ((Queue.run r.capacity cs (contents d r)).0, last))
        × (contents d last ≡ (Queue.run r.capacity cs (contents d r)).1)
        × IsValid last
  unfolding run Queue.run
  run_refines [] r valid = (r, refl, refl, valid)
  run_refines (c ∷ cs) r valid =
      let step = call-Refines c r valid in
      let (last, answers, holds, valid') = run_refines cs step.after step.valid in
      (
        last,
        rw (step.answers, answers, step.holds, step.same_capacity),
        rw (holds, step.holds, step.same_capacity),
        valid',
      )
