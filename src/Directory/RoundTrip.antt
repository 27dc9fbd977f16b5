-- ===== src/Directory/RoundTrip.antt =====
-- A request to write a file and one to read it, processed by the thread of src/FileContext.cpp over a
-- mount of the directory device of src/device/Directory.cpp.
use lamina_fs.Prelude.{
  ℕ, ◌-◌, ◌^◌, ◌<◌, ◌≤◌, true, ◌≡◌, sym, ap, ap₂, ◌∙◌, subst, Option, none, some, List, length, leb,
  ◌>>=◌, arith,
}
use lamina_fs.Types.{ErrorCode, ok, unsupported, not_found, read, write, truncate, Text, Bytes}
use lamina_fs.WorkItem.{WorkItem}
use lamina_fs.Mounts.{MountInfo, device_path, find_mutable}
use lamina_fs.Processing.{perform, write_mode}
use lamina_fs.Directory.{DirectoryDevice}
use lamina_fs.Directory.Calls.{Posix}
use lamina_fs.Directory.Laws.{Handle, IsLawful}
use lamina_fs.Directory.Reading.{Reads}
use lamina_fs.Directory.Portion.{take-enough}
use lamina_fs.Directory.Files.{read_file, write_file}
use lamina_fs.Directory.WriteFile.{write_file-Writes, write_file-read_file}
use lamina_fs.Directory.Interface.{
  Host, in_system, as_sized, device_write, given, directory_interface,
}
use lamina_fs.Directory.Mounted.{Serves, Delivers, delivering}

-- The item once the device has answered a writing.
abbrev written_item : {W : Type 0} → WorkItem → ℕ × ErrorCode × W → WorkItem × W
written_item item (n, e, w) = (record item { buffer_bytes = n; result_code = e }, w)

given-all :
    (o : Option Bytes) (n : ℕ) (bytes : Bytes)
    → o ≡ some bytes
    → n ≡ length bytes
    → given o n ≡ some bytes
given-all o n bytes e f =
    let fits : leb n (length bytes) ≡ true = ground (arith, f) in
    ap (λ b. given b n) e ∙ rw fits (ap some (take-enough n bytes (omega (arith, f))))

module _ {W : Type 0} (os : Posix W) (fuel : ℕ) where
  abbrev by_target :
      WorkItem → Host W → Option (MountInfo (Host W) × Text) → Option (WorkItem × Host W)
  by_target item h o = elim o [
    | none ↦ some (record item { buffer_bytes = 0; result_code = unsupported }, h)
    | some (m, path) ↦ m.interface.write_file >>= λ write_file. some (
        written_item item (
          write_file m.device path item.offset item.buffer item.buffer_bytes
            (write_mode item.operation) item.result_code h))
  ]

  perform_write-directory :
      (ms : List (MountInfo (Host W))) (m : MountInfo (Host W)) (path : Text) (item : WorkItem)
      (h : Host W)
      → find_mutable ms item.filename write ≡ some (m, path)
      → m.interface ≡ directory_interface os fuel
      → item.operation ≡ write
      → perform ms item h
        ≡ some (
            written_item item (
              as_sized h item.result_code (
                device_write os fuel m.device path item.offset item.buffer item.buffer_bytes
                  truncate item.result_code h)))
  unfolding perform directory_interface
  perform_write-directory ms m path item h found e op =
      let plain : WorkItem = record item { operation = write } in
      let answer = as_sized h item.result_code (
        device_write os fuel m.device path item.offset item.buffer item.buffer_bytes truncate
          item.result_code h) in
      ap (λ o. perform ms (record item { operation = o }) h) op
      ∙ ap (by_target plain h) found
      ∙ ap (λ i. by_target plain h (some (record m { interface = i }, path))) e
      ∙ ap (λ o. some (written_item (record item { operation = o }) answer)) (sym op)

  -- What the device answers to a writing of the whole buffer.
  device_write-all :
      (item : WorkItem) (device : ℕ) (dev : DirectoryDevice) (path : Text) (bytes : Bytes)
      (h : Host W)
      → h.devices device ≡ some dev
      → item.offset ≡ 0
      → item.buffer ≡ some bytes
      → item.buffer_bytes ≡ length bytes
      → device_write os fuel device path item.offset item.buffer item.buffer_bytes truncate
          item.result_code h
        ≡ write_file os fuel dev path 0 bytes truncate item.result_code h.system
  device_write-all item device dev path bytes h there start buffer size =
      let code = item.result_code in
      ap
        (λ o. o >>= λ d. given item.buffer item.buffer_bytes >>= λ b.
          write_file os fuel d path item.offset b truncate code h.system)
        there
      ∙ ap (λ o. o >>= λ b. write_file os fuel dev path item.offset b truncate code h.system)
          (given-all item.buffer item.buffer_bytes bytes buffer size)
      ∙ ap (λ k. write_file os fuel dev path k bytes truncate code h.system) start

  -- Where a mount of the directory device is the first to be written for a path and the only one
  -- to be read, on a system that meets the laws, a request to write a file is processed by the
  -- thread, which reports it with `LFS_OK` as written in full; then a request to read it is
  -- processed next. The item of the reading reports no more bytes than were written; if it
  -- reports any, its buffer holds exactly that many of the bytes written, from the first one,
  -- with the terminator if one was asked for, and its result is `LFS_OK`; with `LFS_OK` and a
  -- buffer that is not null it reports some, if any were written. The file was a regular one;
  -- the bytes are at most those asked for and fewer than 2 ^ 64 - 1, and the fuel is more than
  -- the interruptions by signals.
  pub perform-write_read :
      (laws : IsLawful os) (ms : List (MountInfo (Host W))) (m : MountInfo (Host W))
      (dev : DirectoryDevice) (p : Text) (c bytes : Bytes) (writing reading written : WorkItem)
      (h h' : Host W)
      → Serves os fuel ms m dev reading.filename p
      → find_mutable ms writing.filename write ≡ some (m, device_path reading.filename m)
      → writing.operation ≡ write
      → writing.offset ≡ 0
      → writing.buffer ≡ some bytes
      → writing.buffer_bytes ≡ length bytes
      → reading.operation ≡ read
      → reading.offset ≡ 0
      → h.devices m.device ≡ some dev
      → laws.content h.system p ≡ some c
      → length bytes ≤ reading.buffer_bytes
      → length bytes < 2 ^ 64 - 1
      → laws.interruptions h.system < fuel
      → laws.interruptions h'.system < fuel
      → perform ms writing h ≡ some (written, h')
      → written.result_code ≡ ok
      → written.buffer_bytes ≡ length bytes
      → Delivers os fuel laws reading p bytes bytes h' (perform ms reading h')
  perform-write_read laws ms m dev p c bytes writing reading written h h' serves target op start
        buffer size op' start' there holds fits small lt lt' done success whole =
      let path = device_path reading.filename m in
      let code = writing.result_code in
      let wrote =
        write_file-Writes os laws fuel dev path p 0 c bytes truncate code h.system serves.host_path
          holds (omega arith) lt in
      let mine : WorkItem × Host W = (
        record writing { buffer_bytes = wrote.bytes_written; result_code = wrote.error },
        in_system h wrote.after,
      ) in
      let answer : perform ms writing h ≡ some mine =
        perform_write-directory ms m path writing h target serves.directory op
        ∙ ap (λ a. some (written_item writing (as_sized h code a)))
            (device_write-all writing m.device dev path bytes h there start buffer size
              ∙ wrote.answers) in
      let theirs : WorkItem × Host W = (written, h') in
      let both : some mine ≡ some theirs = sym answer ∙ done in
      let same : mine ≡ theirs = cc in
      let n : wrote.bytes_written ≡ length bytes = ap (λ r. r.0.buffer_bytes) same ∙ whole in
      let e : wrote.error ≡ ok = ap (λ r. r.0.result_code) same ∙ success in
      let w : wrote.after ≡ h'.system = ap (λ r. r.1.system) same in
      let d : h'.devices m.device ≡ some dev = ap (λ r. r.1.devices m.device) (sym same) ∙ there in
      let final : write_file os fuel dev path 0 bytes truncate code h.system
          ≡ some (length bytes, ok, h'.system) =
        wrote.answers
        ∙ ap (λ k. some (k, wrote.error, wrote.after)) n
        ∙ ap₂ (λ a b. some (length bytes, a, b)) e w in
      let before =
        write_file-read_file os laws fuel dev path p c bytes reading.buffer_bytes reading.buffer
          reading.null_terminate code not_found h.system h'.system serves.host_path holds fits small
          lt lt' final in
      let closed : laws.handles h.system ≡ laws.handles h'.system =
        sym wrote.closed ∙ ap laws.handles w in
      delivering os fuel laws ms m dev p bytes bytes reading h' serves d op' (
        subst
          (λ (k : ℕ × List (ℕ × Handle)).
            Reads os laws p bytes bytes k.0 k.1 reading.null_terminate (
              read_file os fuel dev path k.0 reading.buffer_bytes reading.buffer
                reading.null_terminate not_found h'.system))
          (ap₂ (λ k l. (k, l)) (sym start') closed) before)
