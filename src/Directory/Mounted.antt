-- ===== src/Directory/Mounted.antt =====
-- The processing thread of src/FileContext.cpp over a mount of the directory device of
-- src/device/Directory.cpp.
use lamina_fs.Prelude.{
  ℕ, ◌+◌, ◌-◌, ◌^◌, ◌<◌, ◌≤◌, Bool, true, false, ◌≡◌, ◌≢◌, refl, sym, ap, ◌∙◌, Option, none, some,
  List, [], ◌∷◌, ◌++◌, length, take, drop, reverse, ◌>>=◌,
}
use lamina_fs.Types.{ErrorCode, ok, not_found, read, Text, Bytes}
use lamina_fs.WorkItem.{WorkItem}
use lamina_fs.Mounts.{MountInfo, is_some, device_path}
use lamina_fs.Mounts.Search.{readable, Distinct}
use lamina_fs.Processing.{try_read, perform, perform_read}
use lamina_fs.Processing.Visit.{overlay}
use lamina_fs.Processing.Overlay.{operations-overlay}
use lamina_fs.Directory.{DirectoryDevice, get_device_path}
use lamina_fs.Directory.Calls.{Posix}
use lamina_fs.Directory.Laws.{IsLawful}
use lamina_fs.Directory.Portion.{terminator}
use lamina_fs.Directory.Files.{read_file}
use lamina_fs.Directory.Reading.{Reads}
use lamina_fs.Directory.ReadFile.{read_file-Reads}
use lamina_fs.Directory.Interface.{Host, in_system, as_read, device_read, directory_interface}

-- The only mount that serves a path is tried, and what it leaves is the result.
first-break :
    {S : Type 0} (o : Option (Bool × S))
    → (o >>= λ (found, s'). elim found [ true ↦ some s' | false ↦ some s' ]) ≡ (o >>= λ r. some r.1)
first-break none = refl
first-break (some (true, s)) = refl
first-break (some (false, s)) = refl

overlay-only :
    {W S : Type 0} (body : MountInfo W → Text → S → Option (Bool × S)) (path : Text)
    (m : MountInfo W) (s : S)
    → overlay body path (m ∷ []) s ≡ (body m (device_path path m) s >>= λ r. some r.1)
unfolding overlay
overlay-only body path m s = first-break (body m (device_path path m) s)

-- The item once the device has answered a reading.
abbrev pub read_item : {W : Type 0} → WorkItem → ℕ × Option Bytes × ErrorCode × W → WorkItem × W
read_item item (n, b, e, w) = (record item { buffer_bytes = n; buffer = b; result_code = e }, w)

module _ {W : Type 0} (os : Posix W) (fuel : ℕ) where
  try_read-directory :
      (max_bytes : ℕ) (m : MountInfo (Host W)) (path : Text) (item : WorkItem) (h : Host W)
      → m.interface ≡ directory_interface os fuel
      → (try_read max_bytes m path (item, h) >>= λ r. some r.1)
        ≡ some (
            read_item item (
              as_read h item.buffer item.result_code (
                device_read os fuel m.device path item.offset max_bytes item.buffer
                  item.null_terminate item.result_code h)))
  unfolding try_read directory_interface
  try_read-directory max_bytes m path item h e =
      ap (λ i. try_read max_bytes (record m { interface = i }) path (item, h) >>= λ r. some r.1) e

  perform_read-directory :
      (ms : List (MountInfo (Host W))) (m : MountInfo (Host W)) (item : WorkItem) (h : Host W)
      → Distinct ms
      → readable item.filename (reverse ms) ≡ m ∷ []
      → m.interface ≡ directory_interface os fuel
      → item.operation ≡ read
      → perform ms item h
        ≡ some (
            read_item
              (record item { result_code = not_found; buffer_bytes = 0 })
              (as_read h item.buffer not_found (
                device_read os fuel m.device
                  (device_path item.filename m)
                  item.offset
                  item.buffer_bytes
                  item.buffer
                  item.null_terminate
                  not_found
                  h)))
  unfolding perform
  perform_read-directory ms m item h distinct only e op =
      let start = record item { result_code = not_found; buffer_bytes = 0 } in
      ap (λ o. perform ms (record item { operation = o }) h) op
      ∙ ap (λ o. perform_read ms (record item { operation = o }) h) (sym op)
      ∙ (operations-overlay ms item h distinct).2
      ∙ ap (λ l. overlay (try_read item.buffer_bytes) item.filename l (start, h)) only
      ∙ overlay-only (try_read item.buffer_bytes) item.filename m (start, h)
      ∙ try_read-directory item.buffer_bytes m (device_path item.filename m) start h e

  -- The mount `m`, of the directory device `dev`, is the only one that is read for a path, which `dev`
  -- has at `p` on the host.
  pub record Serves (ms : List (MountInfo (Host W))) (m : MountInfo (Host W))
      (dev : DirectoryDevice) (filename p : Text) : Type 0 where
    pub distinct : Distinct ms
    pub only : readable filename (reverse ms) ≡ m ∷ []
    pub directory : m.interface ≡ directory_interface os fuel
    pub host_path : get_device_path dev (device_path filename m) ≡ some p

  module _ (laws : IsLawful os) where
    -- What is known of a request to read a file that holds `c`, of which `wanted` is the part asked
    -- for.
    pub record Delivers (item : WorkItem) (p : Text) (c wanted : Bytes) (h : Host W)
        (o : Option (WorkItem × Host W)) : Type 0 where
      pub delivered : WorkItem
      pub after : W
      pub performs : o ≡ some (delivered, in_system h after)
      pub closed : laws.handles after ≡ laws.handles h.system
      pub unchanged : laws.content after p ≡ some c
      pub bounded : delivered.buffer_bytes ≤ length wanted
      pub right :
          0 < delivered.buffer_bytes
          → (delivered.buffer
              ≡ some (take delivered.buffer_bytes wanted ++ terminator item.null_terminate))
            × (delivered.result_code ≡ ok)
      pub progress :
          item.offset ≤ length c
          → delivered.result_code ≡ ok
          → is_some delivered.buffer ≡ true
          → 0 < length wanted
          → 0 < delivered.buffer_bytes

    pub delivering :
        (ms : List (MountInfo (Host W))) (m : MountInfo (Host W)) (dev : DirectoryDevice) (p : Text)
        (c wanted : Bytes) (item : WorkItem) (h : Host W)
        → Serves ms m dev item.filename p
        → h.devices m.device ≡ some dev
        → item.operation ≡ read
        → Reads os laws p c wanted item.offset (laws.handles h.system) item.null_terminate (
            read_file os fuel dev
              (device_path item.filename m)
              item.offset
              item.buffer_bytes
              item.buffer
              item.null_terminate
              not_found
              h.system)
        → Delivers item p c wanted h (perform ms item h)
    delivering ms m dev p c wanted item h serves there op r = record {
      delivered = record item {
        buffer_bytes = r.bytes_read;
        buffer = r.buffer;
        result_code = r.error;
      };
      after = r.after;
      performs =
          perform_read-directory ms m item h serves.distinct serves.only serves.directory op
          ∙ ap
              (λ a. some (
                read_item (record item { result_code = not_found; buffer_bytes = 0 })
                  (as_read h item.buffer not_found a)))
              (ap
                  (λ o. o >>= λ d.
                    read_file os fuel d (device_path item.filename m) item.offset item.buffer_bytes
                      item.buffer item.null_terminate not_found h.system)
                  there
                ∙ r.answers);
      closed = r.closed;
      unchanged = r.unchanged;
      bounded = r.bounded;
      right = r.right;
      progress = r.progress;
    }

    -- In a context whose only readable mount for a path is one of the directory device, on a
    -- system that meets the laws, the processing of a request to read a regular file ends: no
    -- function is null, the device faults nowhere and closes what it opens, and no device and no
    -- file changes. The item reports no more bytes than were asked for and are there. If it
    -- reports any, its buffer holds exactly that many of them, from the first one, with the
    -- terminator if one was asked for, and its result is `LFS_OK`; where the offset is in the
    -- file, the result is `LFS_OK` and the buffer is not null, it reports some bytes if there
    -- were any. No mount is registered twice. The file, the offset and the fuel are as for
    -- `read_file-Reads`: fewer than 2 ^ 64 - 1 bytes, an offset less than 2 ^ 64 that is not one
    -- more than the file's size, more fuel than interruptions.
    pub mounted-Delivers :
        (ms : List (MountInfo (Host W))) (m : MountInfo (Host W)) (dev : DirectoryDevice) (p : Text)
        (c : Bytes) (item : WorkItem) (h : Host W)
        → Serves ms m dev item.filename p
        → h.devices m.device ≡ some dev
        → item.operation ≡ read
        → laws.content h.system p ≡ some c
        → length c < 2 ^ 64 - 1
        → item.offset < 2 ^ 64
        → item.offset ≢ length c + 1
        → laws.interruptions h.system < fuel
        → Delivers item p c (take item.buffer_bytes (drop item.offset c)) h (perform ms item h)
    mounted-Delivers ms m dev p c item h serves there op holds small in_range some_room lt =
        delivering ms m dev p c (take item.buffer_bytes (drop item.offset c)) item h serves there op
          (read_file-Reads os laws fuel dev (device_path item.filename m) p item.offset
            item.buffer_bytes c item.buffer item.null_terminate not_found h.system serves.host_path
            holds small in_range some_room lt)
