-- ===== src/Blocks.antt =====
-- The blocks that a context of src/FileContext.cpp takes from its allocator and gives back. An address
-- that the allocator returns is an argument, and `none` is a `free` of a block that is not live. The
-- storage of the two vectors, and what a device allocates, are left out.
pub mod Frees
pub mod Balance
pub mod Safety
mod Tests
use lamina_fs.Prelude.{
  ℕ, Bool, Option, none, some, List, [], ◌∷◌, ◌++◌, ◌==◌, if◌then◌else◌, occurrences, ◌≡◌, ◌>>=◌,
}

-- `Allocator::free`, on the addresses of the live blocks.
unfoldable pub free : ℕ → List ℕ → Option (List ℕ)
free p [] = none
free p (q ∷ l) = let rest = free p l in if p == q then some l else (rest >>= λ l'. some (q ∷ l'))

-- What a context holds: its own block, the pool's storage and bitmask, the cells of the queue, the
-- interfaces, a `MountInfo` with its prefix for each mount, and the name of each item in use.
pub record Memory : Type 0 where
  pub live : List ℕ
  pub context : ℕ
  pub storage : ℕ
  pub bitmask : ℕ
  pub cells : ℕ
  pub interfaces : List ℕ
  pub mounts : List (ℕ × ℕ)
  pub names : List (ℕ × ℕ)

-- `lfs_context_create` and the constructors of the members.
unfoldable pub construct : ℕ → ℕ → ℕ → ℕ → Memory
construct context storage bitmask cells = record {
  live = cells ∷ bitmask ∷ storage ∷ context ∷ [];
  context = context;
  storage = storage;
  bitmask = bitmask;
  cells = cells;
  interfaces = [];
  mounts = [];
  names = [];
}

-- `registerDeviceInterface`, where the interface has its required functions or not.
unfoldable pub register_interface : Bool → ℕ → Memory → Memory
register_interface complete i m =
    if complete then record m { live = i ∷ m.live; interfaces = m.interfaces ++ (i ∷ []) } else m

-- `createMount` from the allocation of the `MountInfo` on, where the device is created or not.
unfoldable pub create_mount : Bool → ℕ → ℕ → Memory → Option Memory
unfolding free
create_mount created info prefix m =
    let live = info ∷ m.live in
    let failed = (do live' ← free info live; some (record m { live = live' })) in
    if created
    then some (record m { live = prefix ∷ live; mounts = m.mounts ++ ((info, prefix) ∷ []) })
    else failed

-- The entry with the address, and the others.
unfoldable pub take_entry : ℕ → List (ℕ × ℕ) → Option ((ℕ × ℕ) × List (ℕ × ℕ))
take_entry address [] = none
take_entry address (e ∷ es) =
    let later = (do (found, others) ← take_entry address es; some (found, e ∷ others)) in
    if e.0 == address then some (e, es) else later

-- `releaseMount`
unfoldable pub release_mount : ℕ → Memory → Option Memory
unfolding take_entry free
release_mount address m = elim (take_entry address m.mounts) [
  | none ↦ some m
  | some (found, others) ↦ do
    live₁ ← free found.1 m.live
    live₂ ← free found.0 live₁
    some (record m { live = live₂; mounts = others })
]

-- `initWorkItem` on the item at `item`.
unfoldable pub init_work_item : ℕ → ℕ → Memory → Memory
init_work_item item name m = record m { live = name ∷ m.live; names = (item, name) ∷ m.names }

-- The item on the stack in `allocWorkItemCommon`, whose name is freed after its callback.
unfoldable pub report_exhausted : ℕ → Memory → Option Memory
unfolding free
report_exhausted name m = do live ← free name (name ∷ m.live); some (record m { live = live })

-- `releaseWorkItemInternal`; an item that has been released has no name of its own any more.
unfoldable pub release_work_item : ℕ → Memory → Option Memory
unfolding take_entry free
release_work_item item m = do
  (found, others) ← take_entry item m.names
  live ← free found.1 m.live
  some (record m { live = live; names = others })

-- The loops of the destructor over the mounts and over the interfaces.
unfoldable pub free_mounts : List (ℕ × ℕ) → List ℕ → Option (List ℕ)
unfolding free
free_mounts [] live = some live
free_mounts (e ∷ es) live = do live₁ ← free e.1 live; live₂ ← free e.0 live₁; free_mounts es live₂

unfoldable pub free_all : List ℕ → List ℕ → Option (List ℕ)
unfolding free
free_all [] live = some live
free_all (p ∷ ps) live = do live₁ ← free p live; free_all ps live₁

-- The destructors of the members, the last one first.
unfoldable pub destroy_members : Memory → List ℕ → Option (List ℕ)
unfolding free
destroy_members m live = do
  live₁ ← free m.cells live
  live₂ ← free m.storage live₁
  free m.bitmask live₂

-- `lfs_context_destroy`: the blocks that are still live after it.
unfoldable pub destroy : Memory → Option (List ℕ)
unfolding free_mounts free_all destroy_members free
destroy m = do
  live₁ ← free_mounts m.mounts m.live
  live₂ ← free_all m.interfaces live₁
  live₃ ← destroy_members m live₂
  free m.context live₃
