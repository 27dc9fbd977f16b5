-- ===== src/Blocks/Safety.antt =====
-- The blocks of a context of src/FileContext.cpp from its creation to its destruction.
use lamina_fs.Prelude.{
  ℕ, Bool, true, ◌≡◌, refl, sym, ap, ◌∙◌, subst, Option, some, List, occurrences, Option-cases, inl,
  inr,
}
use lamina_fs.Mounts.{is_some}
use lamina_fs.Blocks.{
  Memory, construct, register_interface, create_mount, take_entry, release_mount, init_work_item,
  report_exhausted, release_work_item, destroy,
}
use lamina_fs.Blocks.Balance.{
  name_blocks, IsBalanced, Balances, construct-IsBalanced, register_interface-IsBalanced,
  create_mount-Balances, release_mount-Balances, init_work_item-IsBalanced,
  report_exhausted-Balances, release_work_item-Balances, destroy-Leaves,
}

-- The operations of a context, with whatever addresses the allocator returns.
pub data Step : Memory → Memory → Type 0 where
  registers : (m : Memory) (complete : Bool) (i : ℕ) → Step m (register_interface complete i m)
  mounts :
      (m m' : Memory) (created : Bool) (info prefix : ℕ)
      → create_mount created info prefix m ≡ some m'
      → Step m m'
  releases_mount : (m m' : Memory) (address : ℕ) → release_mount address m ≡ some m' → Step m m'
  requests : (m : Memory) (item name : ℕ) → Step m (init_work_item item name m)
  exhausts : (m m' : Memory) (name : ℕ) → report_exhausted name m ≡ some m' → Step m m'
  releases_item : (m m' : Memory) (item : ℕ) → release_work_item item m ≡ some m' → Step m m'

pub data IsReachable : Memory → Type 0 where
  creates :
      (context storage bitmask cells : ℕ) → IsReachable (construct context storage bitmask cells)
  next : {m m' : Memory} → IsReachable m → Step m m' → IsReachable m'

answered-IsBalanced : (o : Option Memory) (m : Memory) → Balances o → o ≡ some m → IsBalanced m
answered-IsBalanced o m b e =
    let both : some b.after ≡ some m = sym b.answers ∙ e in
    let same : b.after ≡ m = cc in subst IsBalanced same b.balanced

release_work_item-in_use :
    (item : ℕ) (m : Memory)
    → IsBalanced m
    → is_some (release_work_item item m) ≡ is_some (take_entry item m.names)
unfolding release_work_item
release_work_item-in_use item m h = elim (Option-cases (take_entry item m.names)) [
  | inl e ↦ rw e refl
  | inr ((found, others), e) ↦
      let b = release_work_item-Balances item m found others e h in
      ap is_some b.answers ∙ ap is_some (sym e)
]

release_work_item-IsBalanced :
    (item : ℕ) (m m' : Memory) → IsBalanced m → release_work_item item m ≡ some m' → IsBalanced m'
release_work_item-IsBalanced item m m' h e = elim (Option-cases (take_entry item m.names)) [
  | inl gone ↦
      let in_use : is_some (release_work_item item m) ≡ true = ap is_some e in
      let unused = release_work_item-in_use item m h ∙ ap is_some gone in cc
  | inr ((found, others), there) ↦
      answered-IsBalanced (release_work_item item m) m'
        (release_work_item-Balances item m found others there h) e
]

Step-IsBalanced : {m m' : Memory} → Step m m' → IsBalanced m → IsBalanced m'
Step-IsBalanced (registers m complete i) h = register_interface-IsBalanced complete i m h
Step-IsBalanced (mounts m m' created info prefix e) h =
    answered-IsBalanced (create_mount created info prefix m) m'
      (create_mount-Balances created info prefix m h) e
Step-IsBalanced (releases_mount m m' address e) h =
    answered-IsBalanced (release_mount address m) m' (release_mount-Balances address m h) e
Step-IsBalanced (requests m item name) h = init_work_item-IsBalanced item name m h
Step-IsBalanced (exhausts m m' name e) h =
    answered-IsBalanced (report_exhausted name m) m' (report_exhausted-Balances name m h) e
Step-IsBalanced (releases_item m m' item e) h = release_work_item-IsBalanced item m m' h e

reachable-IsBalanced : {m : Memory} → IsReachable m → IsBalanced m
reachable-IsBalanced (creates context storage bitmask cells) =
    construct-IsBalanced context storage bitmask cells
reachable-IsBalanced (next before step) = Step-IsBalanced step (reachable-IsBalanced before)

-- However a context is used, `createMount`, whether its device is created or not, `releaseMount`, of
-- any address, and a request for which there is no item free only blocks that are live, and the
-- release of an item does exactly when the item is in use.
pub reachable-frees :
    (m : Memory) (created : Bool) (address block name : ℕ)
    → IsReachable m
    → (is_some (create_mount created address block m) ≡ true)
      × (is_some (release_mount address m) ≡ true)
      × (is_some (report_exhausted name m) ≡ true)
      × (is_some (release_work_item address m) ≡ is_some (take_entry address m.names))
reachable-frees m created address block name reached =
    let h = reachable-IsBalanced reached in
    (
      ap is_some (create_mount-Balances created address block m h).answers,
      ap is_some (release_mount-Balances address m h).answers,
      ap is_some (report_exhausted-Balances name m h).answers,
      release_work_item-in_use address m h,
    )

-- However a context has been used, its destruction frees only blocks that are live, and what is left
-- of its blocks are the names of the items that are still in use, each as often as it stands there;
-- so that nothing is left when every item has been released.
pub destroy-frees :
    (m : Memory)
    → IsReachable m
    → (left : List ℕ) × (destroy m ≡ some left)
      × ((q : ℕ) → occurrences q left ≡ occurrences q (name_blocks m.names))
destroy-frees m reached =
    let r = destroy-Leaves m (reachable-IsBalanced reached) in (r.left, r.answers, r.exact)
