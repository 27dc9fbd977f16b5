-- ===== src/Directory/MountedTests.antt =====
-- A directory /srv mounted on /data, on a system that interrupts the first two calls.
use lamina_fs.Prelude.{◌-◌, ◌^◌, false, ◌≡◌, refl, none, some, [], ◌∷◌, if◌then◌else◌, ◌==◌, arith}
use lamina_fs.Types.{ok, read, write}
use lamina_fs.WorkItem.{WorkItem, blank}
use lamina_fs.Mounts.{
  MountInfo, matches, strstr, find_mutable, find_mutable_from, device_path, denied,
}
use lamina_fs.Mounts.Search.{readable}
use lamina_fs.Mounts.Tests.{text}
use lamina_fs.Processing.{perform, perform_write}
use lamina_fs.Directory.{get_device_path, open_file, retry}
use lamina_fs.Directory.Files.{write_file, write_opened}
use lamina_fs.Directory.Memory.{Disk, memory}
use lamina_fs.Directory.MemoryLawful.{memory_laws}
use lamina_fs.Directory.Tests.{disk, device, written_disk, there}
use lamina_fs.Directory.Interface.{Host, in_system, directory_interface}
use lamina_fs.Directory.Mounted.{Serves, Delivers, mounted-Delivers}
use lamina_fs.Directory.RoundTrip.{perform-write_read}

abbrev mounted : MountInfo (Host Disk)
mounted = record {
  address = 100;
  prefix = text "/data";
  device = 1;
  interface = directory_interface memory 3;
  prefix_len = 5;
  permissions = 31;
}

abbrev host : Host Disk
host = record {
  devices = λ d. if d == 1 then some device else none;
  next = 2;
  system = disk;
  faulted = false;
}

abbrev reading : WorkItem
reading = record blank { operation = read; filename = text "/data/a"; buffer_bytes = 2 ^ 64 - 1 }

abbrev writing : WorkItem
writing = record blank {
  operation = write;
  filename = text "/data/a";
  buffer = some (8 ∷ 9 ∷ []);
  buffer_bytes = 2;
}

mounted-Serves : Serves memory 3 (mounted ∷ []) mounted device (text "/data/a") (text "/srv/a")
unfolding readable matches strstr device_path
mounted-Serves = record { distinct = (tt, tt); only = refl; directory = refl; host_path = there }

mounted-Delivers_example :
    Delivers memory 3 memory_laws reading
      (text "/srv/a")
      (1 ∷ 2 ∷ 3 ∷ 4 ∷ 5 ∷ [])
      (1 ∷ 2 ∷ 3 ∷ 4 ∷ 5 ∷ [])
      host
      (perform (mounted ∷ []) reading host)
mounted-Delivers_example =
    mounted-Delivers memory 3 memory_laws (mounted ∷ []) mounted device (text "/srv/a")
      (1 ∷ 2 ∷ 3 ∷ 4 ∷ 5 ∷ []) reading host mounted-Serves refl refl refl (omega arith)
      (omega arith) (λ e. omega arith) (omega arith)

writes_first :
    find_mutable (mounted ∷ []) (text "/data/a") write
    ≡ some (mounted, device_path (text "/data/a") mounted)
unfolding find_mutable find_mutable_from matches strstr denied device_path
writes_first = refl

performs_writing :
    perform (mounted ∷ []) writing host
    ≡ some (record writing { result_code = ok }, in_system host written_disk)
unfolding perform perform_write find_mutable find_mutable_from matches strstr denied device_path
    directory_interface write_file open_file get_device_path retry write_opened
performs_writing = refl

perform-write_read_example :
    Delivers memory 3 memory_laws reading
      (text "/srv/a")
      (8 ∷ 9 ∷ [])
      (8 ∷ 9 ∷ [])
      (in_system host written_disk)
      (perform (mounted ∷ []) reading (in_system host written_disk))
perform-write_read_example =
    perform-write_read memory 3 memory_laws (mounted ∷ []) mounted device (text "/srv/a")
      (1 ∷ 2 ∷ 3 ∷ 4 ∷ 5 ∷ []) (8 ∷ 9 ∷ []) writing reading (record writing { result_code = ok })
      host (in_system host written_disk) mounted-Serves writes_first refl refl refl refl refl refl
      refl refl (omega arith) (omega arith) (omega arith) (omega arith) performs_writing refl refl
