-- ===== src/Directory/Interface.antt =====
-- The functions of src/device/Directory.cpp as the constructor of `FileContext` in src/FileContext.cpp
-- registers them. A device is a pointer to a `DirectoryDevice`; a fault, or a loop out of fuel, is
-- noted in the host.
use lamina_fs.Prelude.{
  ℕ, suc, Bool, true, false, Option, none, some, [], length, take, leb, ◌==◌, if◌then◌else◌, ◌>>=◌,
}
use lamina_fs.Types.{ErrorCode, generic_error, WriteMode, Text, Bytes}
use lamina_fs.Device.{DeviceInterface}
use lamina_fs.Directory.{DirectoryDevice, create, file_exists, file_size}
use lamina_fs.Directory.Calls.{Posix}
use lamina_fs.Directory.Files.{read_file, write_file}
use lamina_fs.Directory.Removal.{delete_file, create_dir, delete_dir}

-- The devices by their pointers, the pointer that the allocator returns next, and the system.
pub record Host (W : Type 0) : Type 0 where
  pub devices : ℕ → Option DirectoryDevice
  pub next : ℕ
  pub system : W
  pub faulted : Bool

-- The bytes that a writing reads of its buffer.
abbrev pub given : Option Bytes → ℕ → Option Bytes
given none n = if n == 0 then some [] else none
given (some bytes) n = if leb n (length bytes) then some (take n bytes) else none

module _ {W : Type 0} where
  abbrev pub in_system : Host W → W → Host W
  in_system h w = record h { system = w }

  abbrev pub fault : Host W → Host W
  fault h = record h { faulted = true }

  -- What a device function returns to `processingFunc`.
  abbrev pub as_read :
      Host W
      → Option Bytes
      → ErrorCode
      → Option (ℕ × Option Bytes × ErrorCode × W)
      → ℕ × Option Bytes × ErrorCode × Host W
  as_read h buffer code none = (0, buffer, code, fault h)
  as_read h buffer code (some (n, b, e, w)) = (n, b, e, in_system h w)

  abbrev pub as_sized : Host W → ErrorCode → Option (ℕ × ErrorCode × W) → ℕ × ErrorCode × Host W
  as_sized h code none = (0, code, fault h)
  as_sized h code (some (n, e, w)) = (n, e, in_system h w)

  abbrev pub as_found : Host W → Option (Bool × W) → Bool × Host W
  as_found h none = (false, fault h)
  as_found h (some (b, w)) = (b, in_system h w)

  abbrev pub as_changed : Host W → Option (ErrorCode × W) → ErrorCode × Host W
  as_changed h none = (generic_error, fault h)
  as_changed h (some (e, w)) = (e, in_system h w)

  -- `create`: the pointer to a new device, or the null pointer.
  abbrev pub as_created : Host W → ErrorCode × Option DirectoryDevice × W → ErrorCode × ℕ × Host W
  as_created h (e, none, w) = (e, 0, in_system h w)
  as_created h (e, some dev, w) = (
    e,
    h.next,
    record h {
      devices = λ d. if d == h.next then some dev else h.devices d;
      next = suc h.next;
      system = w;
    },
  )

  -- `destroy`
  abbrev pub destroy : ℕ → Host W → Host W
  destroy device h = record h { devices = λ d. if d == device then none else h.devices d }

  module _ (os : Posix W) (fuel : ℕ) where
    abbrev pub device_write :
        ℕ
        → Text
        → ℕ
        → Option Bytes
        → ℕ
        → WriteMode
        → ErrorCode
        → Host W
        → Option (ℕ × ErrorCode × W)
    device_write device path offset buffer n mode code h = do
      dev ← h.devices device
      bytes ← given buffer n
      write_file os fuel dev path offset bytes mode code h.system

    abbrev pub device_read :
        ℕ
        → Text
        → ℕ
        → ℕ
        → Option Bytes
        → Bool
        → ErrorCode
        → Host W
        → Option (ℕ × Option Bytes × ErrorCode × W)
    device_read device path offset max_bytes buffer null_terminate code h = do
      dev ← h.devices device
      read_file os fuel dev path offset max_bytes buffer null_terminate code h.system

    -- The `DeviceInterface` of the constructor of `FileContext`.
    unfoldable pub directory_interface : DeviceInterface (Host W)
    unfolding create file_exists file_size read_file write_file delete_file create_dir delete_dir
    directory_interface = record {
      create = some (λ path h. as_created h (create os path h.system));
      destroy = some destroy;
      file_exists = some (λ device path h.
          as_found h (h.devices device >>= λ dev. file_exists os dev path h.system));
      file_size = some (λ device path code h.
          as_sized h code (h.devices device >>= λ dev. file_size os dev path code h.system));
      read_file = some (λ device path offset max_bytes buffer null_terminate code h.
          as_read h buffer code
            (device_read device path offset max_bytes buffer null_terminate code h));
      write_file = some (λ device path offset buffer n mode code h.
          as_sized h code (device_write device path offset buffer n mode code h));
      delete_file = some (λ device path h.
          as_changed h (h.devices device >>= λ dev. delete_file os dev path h.system));
      create_dir = some (λ device path h.
          as_changed h (h.devices device >>= λ dev. create_dir os dev path h.system));
      delete_dir = some (λ device path h.
          as_changed h (h.devices device >>= λ dev. delete_dir os fuel dev path h.system));
    }
