-- ===== src/RingBuffer/Tests.antt =====
-- Runs of the ring buffer of src/util/RingBuffer.h.
use lamina_fs.Prelude.{ℕ, ◌≤◌, ◌<◌, false, true, ◌≡◌, refl, some, List, [], ◌∷◌, arith}
use lamina_fs.RingBuffer.{
  RingBuffer, Call, put, get, count, pushed, popped, counted, get_count, run, push, init, next_pos,
}
use lamina_fs.RingBuffer.Queue
use lamina_fs.RingBuffer.Bounds.{IsValid, advance, get_count_bounds}
use lamina_fs.RingBuffer.Contents.{contents}
use lamina_fs.RingBuffer.Run.{run_refines}

-- 8, then 9, round the end of the storage
abbrev wrapped : RingBuffer ℕ
wrapped = record {
  buffer = 9 ∷ 7 ∷ 8 ∷ [];
  capacity = 3;
  read_pos = 2;
  write_pos = 1;
  full = false;
}

abbrev script : List (Call ℕ)
script = put 1 ∷ put 2 ∷ count ∷ get 0 ∷ get 0 ∷ get 0 ∷ get 0 ∷ put 5 ∷ []

wrapped-IsValid : IsValid wrapped
wrapped-IsValid = ground arith

replies :
    (Queue.run 3 script (contents 0 wrapped)).0
    ≡ pushed true false
      ∷ pushed false false
      ∷ counted 3
      ∷ popped 8
      ∷ popped 9
      ∷ popped 1
      ∷ popped 0
      ∷ pushed true true
      ∷ []
unfolding Queue.run get_count
replies = refl

run_refines_example :
    (last : RingBuffer ℕ) × (run script wrapped
      ≡ some ((Queue.run 3 script (contents 0 wrapped)).0, last))
    × (contents 0 last ≡ (Queue.run 3 script (contents 0 wrapped)).1)
    × IsValid last
run_refines_example = run_refines 0 script wrapped wrapped-IsValid

get_count_bounds_example :
    (get_count wrapped ≤ 3)
    × (wrapped.full ≡ false → get_count wrapped < 3)
    × (advance 3 2 (get_count wrapped) ≡ 1)
get_count_bounds_example = get_count_bounds wrapped wrapped-IsValid

-- A ring with room for two items, one of which it holds.
abbrev pub holds_one : RingBuffer ℕ
holds_one = record {
  buffer = 1000 ∷ 0 ∷ [];
  capacity = 2;
  read_pos = 0;
  write_pos = 1;
  full = false;
}

pub push_first : push 1000 (init (0 ∷ 0 ∷ []) 2) ≡ some (true, true, holds_one)
unfolding push init next_pos
push_first = refl
