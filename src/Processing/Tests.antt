-- ===== src/Processing/Tests.antt =====
-- Runs of `processingFunc` over two mounts.
use lamina_fs.Prelude.{suc, true, false, ◌≡◌, refl, none, some, [], ◌∷◌, ◌++◌, reverse, length}
use lamina_fs.Types.{not_found, write, write_segment, mount_write_file}
use lamina_fs.WorkItem.{WorkItem, blank}
use lamina_fs.Mounts.{has, is_some}
use lamina_fs.Mounts.Search.{readable}
use lamina_fs.Mounts.Tests.{
  text, root, data_mount, two_mounts, two_mounts-AreSound, data_mount-IsSound, data_mount-serves,
}
use lamina_fs.Processing.{visit, try_exists, perform_exists, perform_size, perform_read, perform}
use lamina_fs.Processing.Visit.{overlay, visit-eq-overlay}
use lamina_fs.Processing.Overlay.{exists_from, size_from, read_from, perform-overlay}
use lamina_fs.Processing.Safety.{perform-safe, segment-fault}

abbrev write_item : WorkItem
write_item = record blank {
  operation = write;
  filename = text "/data/x";
  buffer = some (1 ∷ []);
  buffer_bytes = 1;
}

abbrev segment_item : WorkItem
segment_item = record write_item { operation = write_segment }

visit-eq-overlay_example :
    visit (suc (length two_mounts)) try_exists two_mounts (text "/data/x") none (blank, 0)
    ≡ overlay try_exists
        (text "/data/x")
        (readable (text "/data/x") (reverse two_mounts))
        (blank, 0)
visit-eq-overlay_example =
    visit-eq-overlay try_exists two_mounts (text "/data/x") (blank, 0) two_mounts-AreSound.distinct

perform-overlay_example :
    (perform_exists two_mounts write_item 0
      ≡ exists_from
          (readable (text "/data/x") (reverse two_mounts))
          (text "/data/x")
          (record write_item { result_code = not_found })
          0)
    × (perform_size two_mounts write_item 0
        ≡ size_from
            (readable (text "/data/x") (reverse two_mounts))
            (text "/data/x")
            (record write_item { result_code = not_found; buffer_bytes = 0 })
            0)
    × (perform_read two_mounts write_item 0
        ≡ read_from 1
            (readable (text "/data/x") (reverse two_mounts))
            (text "/data/x")
            (record write_item { result_code = not_found; buffer_bytes = 0 })
            0)
perform-overlay_example = perform-overlay two_mounts write_item 0 two_mounts-AreSound.distinct

perform-safe_example : is_some (perform two_mounts write_item 0) ≡ true
perform-safe_example = perform-safe two_mounts write_item 0 two_mounts-AreSound (λ e. cc)

segment-fault_example :
    (has data_mount.permissions mount_write_file ≡ false)
    × (perform ((root ∷ []) ++ (data_mount ∷ [])) segment_item 0 ≡ none)
segment-fault_example =
    segment-fault (root ∷ []) data_mount segment_item 0 data_mount-IsSound refl data_mount-serves
      refl
