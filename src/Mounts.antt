-- ===== src/Mounts.antt =====
-- src/FileContext.cpp: the registered interfaces, the mounts, and the search for the mount of a
-- path. A mount is known by the address of its `MountInfo`.
pub mod Permissions
pub mod Match
pub mod Search
pub mod Sound
pub mod Release
pub mod Reachable
pub mod Tests
use Prim.Native.Nat.{bit_and, bit_or}
use lamina_fs.Prelude.{
  ℕ, suc, ◌%◌, ◌^◌, Bool, true, false, not, ◌&&◌, ◌||◌, Option, none, some, List, [], ◌∷◌, ◌++◌,
  reverse, length, get_elem?, get_or, drop, ◌==◌, if◌then◌else◌, ◌>>=◌,
}
use lamina_fs.Types.{
  ErrorCode, invalid_device, permissions_error, is_ok, Operation, write, delete, create_dir,
  delete_dir, mount_default, mount_read, mount_write_file, mount_delete_file, mount_create_dir,
  mount_delete_dir, Text,
}
use lamina_fs.Device.{DeviceInterface}

pub record MountInfo (W : Type 0) : Type 0 where
  pub address : ℕ
  pub prefix : Text
  pub device : ℕ
  pub interface : DeviceInterface W
  pub prefix_len : ℕ
  pub permissions : ℕ

abbrev pub is_some {ℓ} : {A : Type ℓ} → Option A → Bool
is_some none = false
is_some (some a) = true

abbrev pub starts_with : Text → Text → Bool
starts_with [] s = true
starts_with (c ∷ p) [] = false
starts_with (c ∷ p) (d ∷ s) = c == d && starts_with p s

-- `strstr(s, p)`: where `p` stands first in `s`.
unfoldable pub strstr : Text → Text → Option ℕ
strstr [] p = if starts_with p [] then some 0 else none
strstr (c ∷ s) p =
    let later = (do i ← strstr s p; some (suc i)) in if starts_with p (c ∷ s) then some 0 else later

-- `a & b` as a test
abbrev pub has : ℕ → ℕ → Bool
has permissions flag = not (bit_and permissions flag == 0)

-- The test of `findMutableMountAndPath` for a mount that does not allow the operation.
unfoldable pub denied : Operation → ℕ → Bool
denied write permissions = not (has permissions mount_write_file)
denied Operation.append permissions = not (has permissions mount_write_file)
denied delete permissions = not (has permissions mount_delete_file)
denied create_dir permissions = not (has permissions mount_create_dir)
denied delete_dir permissions = not (has permissions mount_delete_dir)
denied _ permissions = false

-- What `createMount` leaves: the result code, the mount (its address, 0 for none), the mounts
-- and the devices.
pub record Created (W : Type 0) : Type 0 where
  pub result_code : ErrorCode
  pub mount : ℕ
  pub mounts : List (MountInfo W)
  pub world : W

module _ {W : Type 0} where
  -- "check permissions against device interface's supported permissions"
  pub supported_permissions : DeviceInterface W → ℕ
  supported_permissions i =
      bit_or
        (bit_or
          (bit_or (bit_or mount_read (if is_some i.write_file then mount_write_file else 0))
            (if is_some i.delete_file then mount_delete_file else 0))
          (if is_some i.create_dir then mount_create_dir else 0))
        (if is_some i.delete_dir then mount_delete_dir else 0)

  pub calculated_permissions : DeviceInterface W → ℕ → ℕ
  calculated_permissions i mount_permissions =
      if mount_permissions == mount_default
      then supported_permissions i
      else bit_and mount_permissions (supported_permissions i)

  -- `registerDeviceInterface`: the index and the new interfaces; -1 is `none`.
  unfoldable pub register_device_interface :
      DeviceInterface W → List (DeviceInterface W) → Option ℕ × List (DeviceInterface W)
  register_device_interface i interfaces =
      if is_some i.create
        && is_some i.destroy
        && is_some i.file_exists
        && is_some i.file_size
        && is_some i.read_file
      then (some (length interfaces), interfaces ++ (i ∷ []))
      else (none, interfaces)

  -- `foundMount && foundMount == path && (…)`
  unfoldable pub matches : Text → MountInfo W → Bool
  unfolding strstr
  matches path m = elim (strstr path m.prefix) [
    | none ↦ false
    | some at ↦ at == 0 && (get_or path m.prefix_len 0 == b'/' || m.prefix_len == 1)
  ]

  unfoldable pub device_path : Text → MountInfo W → Text
  device_path path m = if m.prefix_len == 1 then path else drop m.prefix_len path

  -- The loop of `findNextMountAndPath`, over the mounts from the last one on.
  unfoldable pub find_next_from : Text → Option ℕ → List (MountInfo W) → Option (MountInfo W × Text)
  find_next_from path only_after [] = none
  find_next_from path only_after (m ∷ ms) = elim (has m.permissions mount_read) [
    | false ↦ find_next_from path only_after ms
    | true ↦ elim only_after [
      | some start ↦ find_next_from path (if m.address == start then none else some start) ms
      | none ↦ elim (matches path m) [
        | true ↦ some (m, device_path path m)
        | false ↦ find_next_from path none ms
      ]
    ]
  ]

  unfoldable pub find_next : List (MountInfo W) → Text → Option ℕ → Option (MountInfo W × Text)
  find_next mounts path search_start = find_next_from path search_start (reverse mounts)

  -- The loop of `findMutableMountAndPath`.
  unfoldable pub find_mutable_from :
      Text → Operation → List (MountInfo W) → Option (MountInfo W × Text)
  unfolding denied
  find_mutable_from path op [] = none
  find_mutable_from path op (m ∷ ms) =
      let later = find_mutable_from path op ms in
      if matches path m && not (denied op m.permissions)
      then some (m, device_path path m)
      else later

  unfoldable pub find_mutable : List (MountInfo W) → Text → Operation → Option (MountInfo W × Text)
  find_mutable mounts path op = find_mutable_from path op (reverse mounts)

  -- The rest of `createMount`, once the device's `_create` has returned.
  pub finish_mount :
      ℕ → Text → DeviceInterface W → ℕ → List (MountInfo W) → ErrorCode × ℕ × W → Created W
  finish_mount address mount_point interface permissions mounts (result, device, w) =
      if is_ok result && not (device == 0)
      then record {
        result_code = result;
        mount = address;
        mounts =
            mounts
            ++ (record {
              address = address;
              prefix = mount_point;
              device = device;
              interface = interface;
              prefix_len = length mount_point % 2 ^ 32;
              permissions = permissions;
            }
                ∷ []);
        world = w;
      }
      else record { result_code = result; mount = 0; mounts = mounts; world = w }

  -- `createMount`, where the allocator returns `address` for the new `MountInfo`. The outer `none`
  -- is a call of a null function.
  unfoldable pub create_mount :
      ℕ
      → ℕ
      → Text
      → Text
      → ℕ
      → List (DeviceInterface W)
      → List (MountInfo W)
      → W
      → Option (Created W)
  unfolding calculated_permissions finish_mount
  create_mount address device_type mount_point path mount_permissions interfaces mounts w =
      elim (get_elem? interfaces device_type) [
        | none ↦
            some (record { result_code = invalid_device; mount = 0; mounts = mounts; world = w })
        | some interface ↦
            let permissions = calculated_permissions interface mount_permissions in
            if permissions == 0
            then some
                (record { result_code = permissions_error; mount = 0; mounts = mounts; world = w })
            else (do
              create ← interface.create
              some (finish_mount address mount_point interface permissions mounts (create path w)))
      ]

  -- `std::find` and `erase`: the mount with the address, and the others.
  pub remove_mount : ℕ → List (MountInfo W) → Option (MountInfo W × List (MountInfo W))
  remove_mount address [] = none
  remove_mount address (m ∷ ms) =
      let later = (do (found, others) ← remove_mount address ms; some (found, m ∷ others)) in
      if m.address == address then some (m, ms) else later

  -- `releaseMount`, between the stop and the start of the processing thread.
  unfoldable pub release_mount : ℕ → List (MountInfo W) → W → Option (Bool × List (MountInfo W) × W)
  unfolding remove_mount
  release_mount address mounts w = elim (remove_mount address mounts) [
    | none ↦ some (false, mounts, w)
    | some (m, others) ↦ m.interface.destroy >>= λ destroy. some (true, others, destroy m.device w)
  ]
