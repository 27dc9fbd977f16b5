-- ===== src/Directory/Paths.antt =====
-- `getDevicePath` of src/device/Directory.cpp.
use lamina_fs.Prelude.{◌+◌, ◌%◌, ◌^◌, ◌<◌, true, ◌≡◌, ap, some, ◌++◌, length, leb, arith}
use lamina_fs.Types.{Text}
use lamina_fs.Directory.{init, get_device_path}
use lamina_fs.Directory.Portion.{take-enough}

-- In a device made for a path, the path of a file is the device's path followed by the file's, and
-- both copies fit their buffer, provided that the two paths and the terminator take fewer than
-- 2 ^ 32 bytes.
pub get_device_path-joins :
    (path file_path : Text)
    → length path + length file_path + 1 < 2 ^ 32
    → get_device_path (init path) file_path ≡ some (path ++ file_path)
unfolding get_device_path init
get_device_path-joins path file_path small =
    let whole : length path % 2 ^ 32 ≡ length path = omega arith in
    let size : (length path + length file_path + 1) % 2 ^ 32 ≡ length path + length file_path + 1 =
      omega arith in
    let first : leb (length path + 1) (length path + length file_path + 1) ≡ true = ground arith in
    let second : leb (length path + length file_path + 1) (length path + length file_path + 1)
        ≡ true =
      ground arith in
    rw (whole, size, first, second)
      (ap (λ p. some (p ++ file_path)) (take-enough (length path) path (omega arith)))
