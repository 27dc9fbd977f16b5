-- ===== src/Directory/Errors.antt =====
-- What `convertError` of src/device/Directory.cpp answers.
use lamina_fs.Prelude.{◌≢◌}
use lamina_fs.Types.{ok}
use lamina_fs.Directory.{convert_error}
use lamina_fs.Directory.Calls.{
  Errno, no_error, eexist, eperm, eacces, erofs, enoent, enospc, eintr, other_error,
}

pub convert_error-failure : (e : Errno) → convert_error e ≢ ok
unfolding convert_error
convert_error-failure no_error = λ h. cc
convert_error-failure eexist = λ h. cc
convert_error-failure eperm = λ h. cc
convert_error-failure eacces = λ h. cc
convert_error-failure erofs = λ h. cc
convert_error-failure enoent = λ h. cc
convert_error-failure enospc = λ h. cc
convert_error-failure eintr = λ h. cc
convert_error-failure (other_error n) = λ h. cc
