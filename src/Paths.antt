-- ===== src/Paths.antt =====
-- src/FileContext.cpp, `FileContext::normalizePath`: the path is normalised in its own buffer.
pub mod Canonical
pub mod Machine
pub mod Resolving
pub mod Buffer
pub mod Loops
pub mod Simulate
pub mod Finish
pub mod Correct
pub mod Text
mod Tests
use lamina_fs.Prelude.{
  ℕ, zero, suc, ◌+◌, ◌-◌, ◌%◌, ◌^◌, Bool, true, false, ◌&&◌, ◌||◌, Option, none, some, List, [],
  ◌∷◌, length, get_elem?, set, ltb, leb, ◌==◌, if◌then◌else◌, ◌>>=◌,
}

-- `uint32_t` addition.
abbrev pub add32 : ℕ → ℕ → ℕ
add32 a b = (a + b) % 2 ^ 32

abbrev pub slash : ℕ
slash = b'/'

abbrev pub dot : ℕ
dot = b'.'

-- `strlen`; `none` is a buffer without a terminator.
pub strlen : List ℕ → Option ℕ
strlen [] = none
strlen (c ∷ cs) = if c == 0 then some 0 else (do n ← strlen cs; some (suc n))

-- `path[i] = c`; `none` is a write out of bounds.
pub store : List ℕ → ℕ → ℕ → Option (List ℕ)
store path i c = if ltb i (length path) then some (set path i c) else none

-- `while (writePos > 0 && path[writePos - 1] != '/') --writePos;`
pub back : List ℕ → ℕ → Option ℕ
back path zero = some 0
back path (suc w) = do
  c ← get_elem? path w
  let rest = back path w
  if c == slash then some (suc w) else rest

-- The test for "/.." once "/.." has been read: what follows is a slash or the end.
ends_parent : List ℕ → ℕ → ℕ → Option Bool
ends_parent path read_pos c2 =
    if c2 == dot
    then (do c3 ← get_elem? path (add32 read_pos 3); some (c3 == 0 || c3 == slash))
    else some false

-- One round of the `do … while (found)` loop: `found`, `writePos` and `readPos`.
pub round : List ℕ → ℕ → ℕ → Option (Bool × ℕ × ℕ)
unfolding ends_parent
round path write_pos read_pos = do
  c0 ← get_elem? path read_pos
  if c0 == slash
      then (do
        c1 ← get_elem? path (add32 read_pos 1)
        if c1 == slash
            then some (true, write_pos, add32 read_pos 1)
            else if c1 == dot
            then (do
              c2 ← get_elem? path (add32 read_pos 2)
              parent ← ends_parent path read_pos c2
              if parent
                  then (do w ← back path write_pos; some (true, w - 1, add32 read_pos 3))
                  else if c2 == slash || c2 == 0
                  then some (true, write_pos, add32 read_pos 2)
                  else some (false, write_pos, read_pos))
            else some (false, write_pos, read_pos))
      else some (false, write_pos, read_pos)

-- The `do … while (found)` loop, on fuel.
pub skip : ℕ → List ℕ → ℕ → ℕ → Option (ℕ × ℕ)
skip zero path w r = none
skip (suc fuel) path w r = do
  (found, w', r') ← round path w r
  elim found [ true ↦ skip fuel path w' r' | false ↦ some (w', r') ]

-- The rest of the body of the outer loop, which goes on with `next`.
pub copy_char : (List ℕ → ℕ → ℕ → Option (List ℕ × ℕ)) → List ℕ → ℕ × ℕ → Option (List ℕ × ℕ)
copy_char next path (w, r) = do
  c ← get_elem? path r
  path' ← store path w c
  elim (c == 0) [ true ↦ some (path', w) | false ↦ next path' (add32 w 1) (add32 r 1) ]

-- The outer loop, on fuel: the buffer and `writePos` where it ends.
pub copy : ℕ → ℕ → List ℕ → ℕ → ℕ → Option (List ℕ × ℕ)
copy zero input_len path w r = none
copy (suc fuel) input_len path w r = elim (ltb w input_len) [
  | true ↦ skip (suc input_len) path w r >>= copy_char (copy fuel input_len) path
  | false ↦ some (path, w)
]

-- "remove trailing slash"
pub trim_slash : List ℕ → ℕ → Option (List ℕ)
trim_slash path w =
    if ltb 1 w
    then (do c ← get_elem? path (w - 1); if c == slash then store path (w - 1) 0 else some path)
    else some path

-- "fixup root slash"
pub fix_root : ℕ → List ℕ → Option (List ℕ)
fix_root input_len path = do
  c ← get_elem? path 0
  if c == 0 && leb 1 input_len then (do path' ← store path 0 slash; store path' 1 0) else some path

-- The whole function, on a buffer that holds a C string. `none` would be an access out of bounds
-- or a loop out of fuel.
pub normalize_path : List ℕ → Option (List ℕ)
normalize_path path = do
  len ← strlen path
  let input_len = len % 2 ^ 32
  (path', w) ← copy (suc input_len) input_len path 0 0
  path'' ← trim_slash path' w
  fix_root input_len path''
