-- ===== src/Blocks/Tests.antt =====
-- A context with two interfaces, a mount, a mount whose device fails, and two items, one of which is
-- released before the context is destroyed.
use lamina_fs.Prelude.{ℕ, true, false, ◌≡◌, refl, some, List, [], ◌∷◌, occurrences}
use lamina_fs.Mounts.{is_some}
use lamina_fs.Blocks.{
  Memory, construct, register_interface, create_mount, take_entry, release_mount, init_work_item,
  report_exhausted, release_work_item, destroy, free,
}
use lamina_fs.Blocks.Balance.{name_blocks}
use lamina_fs.Blocks.Safety.{
  IsReachable, creates, next, registers, mounts, requests, releases_item, reachable-frees,
  destroy-frees,
}

abbrev used : Memory
used = record {
  live = 60 ∷ 51 ∷ 50 ∷ 41 ∷ 40 ∷ 4 ∷ 3 ∷ 2 ∷ 1 ∷ [];
  context = 1;
  storage = 2;
  bitmask = 3;
  cells = 4;
  interfaces = 40 ∷ 41 ∷ [];
  mounts = (50, 51) ∷ [];
  names = (1000, 60) ∷ [];
}

abbrev two_items : Memory
two_items = record used {
  live = 61 ∷ 60 ∷ 51 ∷ 50 ∷ 41 ∷ 40 ∷ 4 ∷ 3 ∷ 2 ∷ 1 ∷ [];
  names = (1128, 61) ∷ (1000, 60) ∷ [];
}

abbrev no_items : Memory
no_items = record used { live = 51 ∷ 50 ∷ 41 ∷ 40 ∷ 4 ∷ 3 ∷ 2 ∷ 1 ∷ []; names = [] }

abbrev no_mounts : Memory
no_mounts = record no_items { live = 41 ∷ 40 ∷ 4 ∷ 3 ∷ 2 ∷ 1 ∷ []; mounts = [] }

used-IsReachable : IsReachable used
unfolding construct register_interface create_mount init_work_item release_work_item take_entry free
used-IsReachable =
    let first = register_interface true 40 (construct 1 2 3 4) in
    next
      (next
        (next
          (next
            (next
              (next (next (creates 1 2 3 4) (registers (construct 1 2 3 4) true 40))
                (registers first true 41))
              (mounts no_mounts no_mounts false 55 56 refl))
            (mounts no_mounts no_items true 50 51 refl))
          (requests no_items 1000 60))
        (requests used 1128 61))
      (releases_item two_items used 1128 refl)

reachable-frees_example :
    (is_some (create_mount false 50 70 used) ≡ true)
    × (is_some (release_mount 50 used) ≡ true)
    × (is_some (report_exhausted 71 used) ≡ true)
    × (is_some (release_work_item 50 used) ≡ is_some (take_entry 50 used.names))
reachable-frees_example = reachable-frees used false 50 70 71 used-IsReachable

destroy-frees_example :
    (left : List ℕ) × (destroy used ≡ some left)
    × ((q : ℕ) → occurrences q left ≡ occurrences q (name_blocks used.names))
destroy-frees_example = destroy-frees used used-IsReachable
