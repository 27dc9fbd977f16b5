-- ===== src/RingBuffer.antt =====
-- src/util/RingBuffer.h: the ring buffer of a fixed capacity. One call under `_lock` is one
-- function; `push` spins until one round of its loop is done.
pub mod Queue
pub mod Bounds
pub mod Contents
pub mod Refine
pub mod Run
pub mod Tests
use lamina_fs.Prelude.{
  ℕ, suc, zero, ◌+◌, ◌-◌, ◌%◌, ◌^◌, Bool, true, false, not, ◌||◌, Option, none, some, List, [], ◌∷◌,
  length, get_elem?, set, ltb, leb, ◌==◌, if◌then◌else◌, ◌>>=◌,
}

-- The members of `RingBuffer<T>` that carry the queue. `_lock` makes each call below atomic; the
-- call of `_semaphore` is the second part of what `push` returns.
pub record RingBuffer {ℓ} (T : Type ℓ) : Type ℓ where
  pub buffer : List T
  pub capacity : ℕ
  pub read_pos : ℕ
  pub write_pos : ℕ
  pub full : Bool

-- `uint64_t` addition and subtraction.
abbrev pub add64 : ℕ → ℕ → ℕ
add64 a b = (a + b) % 2 ^ 64

abbrev pub sub64 : ℕ → ℕ → ℕ
sub64 a b = (a + 2 ^ 64 - b) % 2 ^ 64

-- `x++; if (x == _capacity) x = 0;`
pub next_pos : ℕ → ℕ → ℕ
next_pos capacity x = let x' = add64 x 1 in if x' == capacity then 0 else x'

module _ {ℓ} {T : Type ℓ} where
  -- The constructor, over the `capacity` uninitialised cells that the allocator returns.
  unfoldable pub init : List T → ℕ → RingBuffer T
  init storage capacity = record {
    buffer = storage;
    capacity = capacity;
    read_pos = 0;
    write_pos = 0;
    full = false;
  }

  -- The locked block of `push`: `done`, `notify` and the buffer. `none` is a write out of bounds.
  pub push : T → RingBuffer T → Option (Bool × Bool × RingBuffer T)
  unfolding next_pos
  push v r =
      if r.full
      then some (false, false, r)
      else if ltb r.write_pos (length r.buffer)
      then (let w = next_pos r.capacity r.write_pos in
          some (
            true,
            r.write_pos == r.read_pos,
            record r {
              buffer = set r.buffer r.write_pos v;
              write_pos = w;
              full = if w == r.read_pos then true else r.full;
            },
          ))
      else none

  -- `none` is a read out of bounds.
  pub pop : T → RingBuffer T → Option (T × RingBuffer T)
  unfolding next_pos
  pop default_value r =
      if r.full || not (r.read_pos == r.write_pos)
      then (do
        v ← get_elem? r.buffer r.read_pos
        some (v, record r { read_pos = next_pos r.capacity r.read_pos; full = false }))
      else some (default_value, r)

  unfoldable pub get_count : RingBuffer T → ℕ
  get_count r =
      if r.full
      then r.capacity
      else if leb r.read_pos r.write_pos
      then sub64 r.write_pos r.read_pos
      else add64 (sub64 r.capacity r.read_pos) r.write_pos

-- A client's calls under the lock, and what each of them returns.
pub data Call {ℓ} (T : Type ℓ) : Type ℓ where
  put : T → Call T
  get : T → Call T
  count : Call T

pub data Reply {ℓ} (T : Type ℓ) : Type ℓ where
  pushed : Bool → Bool → Reply T
  popped : T → Reply T
  counted : ℕ → Reply T

module _ {ℓ} {T : Type ℓ} where
  pub call : Call T → RingBuffer T → Option (Reply T × RingBuffer T)
  unfolding push pop get_count
  call (put v) r = do (done, notify, r') ← push v r; some (pushed done notify, r')
  call (get d) r = do (v, r') ← pop d r; some (popped v, r')
  call count r = some (counted (get_count r), r)

  pub run : List (Call T) → RingBuffer T → Option (List (Reply T) × RingBuffer T)
  unfolding call
  run [] r = some ([], r)
  run (c ∷ cs) r = do
    (reply, r') ← call c r
    (replies, last) ← run cs r'
    some (reply ∷ replies, last)
