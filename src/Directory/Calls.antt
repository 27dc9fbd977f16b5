-- ===== src/Directory/Calls.antt =====
-- The operating system as src/device/Directory.cpp calls it. Each call takes and returns the state of
-- the system, `W`, of which `errno` is a part; `none` is the result -1 or the null pointer, and
-- `false` a result that is not 0.
use lamina_fs.Prelude.{ℕ, Bool, Option}
use lamina_fs.Types.{Text, Bytes}

-- The values of `errno` that the code names, and the others.
pub data Errno : Type 0 where
  no_error eexist eperm eacces erofs enoent enospc eintr : Errno
  other_error : ℕ → Errno

-- What the code reads of `struct stat`.
pub record StatInfo : Type 0 where
  pub is_dir : Bool
  pub is_reg : Bool
  pub st_size : ℕ

-- The flags of `open`: `O_WRONLY` against `O_RDONLY`, `O_CREAT`, `O_TRUNC` and `O_APPEND`.
pub record OpenFlags : Type 0 where
  pub writes : Bool
  pub creates : Bool
  pub truncates : Bool
  pub appends : Bool

pub data Whence : Type 0 where
  seek_set seek_end : Whence

-- `fts_info`
pub data FtsInfo : Type 0 where
  fts_d fts_default fts_dp fts_f fts_sl fts_slnone fts_dc fts_dot fts_nsok fts_ns fts_dnr : FtsInfo
  fts_err fts_other : FtsInfo

-- `FTSENT`
pub record FtsEntry : Type 0 where
  pub fts_info : FtsInfo
  pub fts_accpath : Text
  pub fts_errno : Errno

-- `open_path` is `open`, and `alloc` the client's allocator: whether it returns a buffer of so many bytes.
pub record Posix (W : Type 0) : Type 0 where
  pub errno : W → Errno
  pub set_errno : Errno → W → W
  pub stat : Text → W → Option StatInfo × W
  pub open_path : Text → OpenFlags → ℕ → W → Option ℕ × W
  pub lseek : ℕ → ℕ → Whence → W → Option ℕ × W
  pub read : ℕ → ℕ → W → Option Bytes × W
  pub write : ℕ → Bytes → W → Option ℕ × W
  pub close : ℕ → W → W
  pub unlink : Text → W → Bool × W
  pub mkdir : Text → W → Bool × W
  pub remove : Text → W → Bool × W
  pub fts_open : Text → W → Option ℕ × W
  pub fts_read : ℕ → W → Option FtsEntry × W
  pub fts_close : ℕ → W → W
  pub alloc : ℕ → W → Bool × W
  pub free : W → W
