-- ===== src/Device.antt =====
-- src/FileContext.h, `FileContext::DeviceInterface`: the functions by which a context reaches a
-- device. A device is a pointer, 0 for none; the state behind all devices is `W`. An out-parameter
-- is an argument too, since a device may leave it as it was. A null function is `none`.
use lamina_fs.Prelude.{ℕ, Bool, Option}
use lamina_fs.Types.{ErrorCode, WriteMode, Text, Bytes}

pub record DeviceInterface (W : Type 0) : Type 0 where
  pub create : Option (Text → W → ErrorCode × ℕ × W)
  pub destroy : Option (ℕ → W → W)
  pub file_exists : Option (ℕ → Text → W → Bool × W)
  pub file_size : Option (ℕ → Text → ErrorCode → W → ℕ × ErrorCode × W)
  pub read_file :
      Option
        (ℕ → Text → ℕ → ℕ → Option Bytes → Bool → ErrorCode → W → ℕ × Option Bytes × ErrorCode × W)
  pub write_file :
      Option (ℕ → Text → ℕ → Option Bytes → ℕ → WriteMode → ErrorCode → W → ℕ × ErrorCode × W)
  pub delete_file : Option (ℕ → Text → W → ErrorCode × W)
  pub create_dir : Option (ℕ → Text → W → ErrorCode × W)
  pub delete_dir : Option (ℕ → Text → W → ErrorCode × W)
