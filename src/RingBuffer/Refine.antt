-- ===== src/RingBuffer/Refine.antt =====
-- A valid `RingBuffer` behaves as the queue of the items that it holds, call by call.
use lamina_fs.Prelude.{
  suc, ◌-◌, ◌<◌, ◌≡◌, refl, true, false, some, [], ◌∷◌, ◌++◌, length, get_or, set, length-set,
  get_elem?-eq-get_or, arith, Bool-cases, if◌then◌else◌, inl, inr, ◌==◌,
}
use lamina_fs.RingBuffer.{RingBuffer, next_pos, push, pop, get_count}
use lamina_fs.RingBuffer.Queue
use lamina_fs.RingBuffer.Queue.{is_empty}
use lamina_fs.RingBuffer.Bounds.{IsValid, next_pos-eq-advance, get_count_bounds}
use lamina_fs.RingBuffer.Contents.{
  contents, length-contents, window-set, window_of_pos, is_empty-window,
}

module _ {ℓ} {T : Type ℓ} (d : T) where
  -- The ring that an accepted `push` leaves.
  abbrev pushed_ring : T → RingBuffer T → RingBuffer T
  pushed_ring v r =
      let w = next_pos r.capacity r.write_pos in
      record r {
        buffer = set r.buffer r.write_pos v;
        write_pos = w;
        full = if w == r.read_pos then true else r.full;
      }

  push-full : (v : T) (r : RingBuffer T) → r.full ≡ true → push v r ≡ some (false, false, r)
  unfolding push
  push-full v r e = rw e

  push-room :
      (v : T) (r : RingBuffer T)
      → IsValid r
      → r.full ≡ false
      → push v r ≡ some (true, r.write_pos == r.read_pos, pushed_ring v r)
  unfolding push
  push-room v r valid e = ground arith

  pushed_ring-IsValid :
      (v : T) (r : RingBuffer T) → IsValid r → r.full ≡ false → IsValid (pushed_ring v r)
  unfolding next_pos
  pushed_ring-IsValid v r valid e = ground (arith, length-set r.buffer r.write_pos v)

  get_count-pushed :
      (v : T) (r : RingBuffer T)
      → IsValid r
      → r.full ≡ false
      → get_count (pushed_ring v r) ≡ suc (get_count r)
  unfolding get_count next_pos
  get_count-pushed v r valid e = ground arith

  contents-pushed :
      (v : T) (r : RingBuffer T)
      → IsValid r
      → r.full ≡ false
      → contents d (pushed_ring v r) ≡ contents d r ++ (v ∷ [])
  contents-pushed v r valid e =
      let bounds = get_count_bounds r valid in
      rw (get_count-pushed v r valid e) (
        window-set d r.buffer r.capacity r.read_pos (get_count r) r.write_pos v (omega arith)
          valid.read_in (bounds.1 e) bounds.2)

  get_count-zero :
      (r : RingBuffer T)
      → IsValid r
      → r.full ≡ false
      → (get_count r == 0) ≡ (r.write_pos == r.read_pos)
  unfolding get_count
  get_count-zero r valid e = ground arith

  get_count-full : (r : RingBuffer T) → r.full ≡ true → get_count r ≡ r.capacity
  unfolding get_count
  get_count-full r e = rw e

  -- `push` answers as the queue does, and leaves the ring holding the longer queue.
  pub push_refines :
      (v : T) (r : RingBuffer T)
      → IsValid r
      → (r' : RingBuffer T) × (push v r
          ≡ some (
            (Queue.push r.capacity v (contents d r)).0,
            (Queue.push r.capacity v (contents d r)).1,
            r',
          ))
        × (contents d r' ≡ (Queue.push r.capacity v (contents d r)).2)
        × IsValid r'
        × (r'.capacity ≡ r.capacity)
  unfolding Queue.push
  push_refines v r valid = elim (Bool-cases r.full) [
    | inl e ↦
        let same : (length (contents d r) == r.capacity) ≡ true =
          ground (arith, length-contents d r, get_count-full r e) in
        rw same (r, push-full v r e, refl, valid, refl)
    | inr e ↦
        let room : (length (contents d r) == r.capacity) ≡ false =
          ground (arith, length-contents d r, (get_count_bounds r valid).1 e) in
        rw room (
          pushed_ring v r,
          rw (push-room v r valid e, is_empty-window d, get_count-zero r valid e),
          contents-pushed v r valid e,
          pushed_ring-IsValid v r valid e,
          refl,
        )
  ]

  -- The ring that a `pop` of an item leaves.
  abbrev popped_ring : RingBuffer T → RingBuffer T
  popped_ring r = record r { read_pos = next_pos r.capacity r.read_pos; full = false }

  pop-item :
      (e : T) (r : RingBuffer T)
      → IsValid r
      → 0 < get_count r
      → pop e r ≡ some (get_or r.buffer r.read_pos d, popped_ring r)
  unfolding pop get_count
  pop-item e r valid p = ground (arith, get_elem?-eq-get_or r.buffer r.read_pos d)

  pop-empty : (e : T) (r : RingBuffer T) → IsValid r → get_count r ≡ 0 → pop e r ≡ some (e, r)
  unfolding pop get_count
  pop-empty e r valid p = ground arith

  popped_ring-IsValid : (r : RingBuffer T) → IsValid r → IsValid (popped_ring r)
  unfolding next_pos
  popped_ring-IsValid r valid = ground arith

  get_count-popped :
      (r : RingBuffer T) → IsValid r → 0 < get_count r → get_count (popped_ring r) ≡ get_count r - 1
  unfolding get_count next_pos
  get_count-popped r valid p = ground arith

  contents-popped :
      (r : RingBuffer T)
      → IsValid r
      → 0 < get_count r
      → contents d r ≡ get_or r.buffer r.read_pos d ∷ contents d (popped_ring r)
  contents-popped r valid p =
      rw
        (
          get_count-popped r valid p,
          next_pos-eq-advance r.capacity r.read_pos valid.read_in valid.small,
        )
        (window_of_pos d r.buffer r.capacity r.read_pos (get_count r) p)

  -- `pop` answers as the queue does, and leaves the ring holding the rest.
  pub pop_refines :
      (e : T) (r : RingBuffer T)
      → IsValid r
      → (r' : RingBuffer T) × (pop e r ≡ some ((Queue.pop r.capacity e (contents d r)).0, r'))
        × (contents d r' ≡ (Queue.pop r.capacity e (contents d r)).1)
        × IsValid r'
        × (r'.capacity ≡ r.capacity)
  unfolding Queue.pop
  pop_refines e r valid = elim (Bool-cases (get_count r == 0)) [
    | inl z ↦
        let zero_count : get_count r ≡ 0 = ground arith in
        (r, rw (zero_count) (pop-empty e r valid zero_count), rw zero_count, valid, refl)
    | inr z ↦
        let p : 0 < get_count r = ground arith in
        rw (contents-popped r valid p)
          (popped_ring r, pop-item e r valid p, refl, popped_ring-IsValid r valid, refl)
  ]
