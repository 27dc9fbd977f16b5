-- ===== src/Mounts/Tests.antt =====
-- A device and the mounts of it, on which the theorems on mounts and on processing are tried.
use Prim.Native.Char.{code}
use Prim.Native.String.{String}
use lamina_fs.Prelude.{
  ℕ, ◌+◌, Bool, true, false, ◌≡◌, refl, none, some, List, [], ◌∷◌, ◌++◌, length, get_or, arith,
}
use lamina_fs.Types.{ok, Text}
use lamina_fs.Device.{DeviceInterface}
use lamina_fs.Mounts.{
  MountInfo, Created, matches, device_path, register_device_interface, create_mount, release_mount,
  strstr, calculated_permissions,
}
use lamina_fs.Mounts.Permissions.{Allows, calculated-Allows}
use lamina_fs.Mounts.Match.{matches-device_path}
use lamina_fs.Mounts.Search.{Fresh}
use lamina_fs.Mounts.Sound.{
  IsRegistered, IsSound, AllRegistered, AreSound, register-AllRegistered, create_mount-AreSound,
}
use lamina_fs.Mounts.Release.{release_mount-AreSound}
use lamina_fs.Mounts.Reachable.{Registry, registers, creates, fresh, next, reachable-AreSound}

abbrev pub text : String → Text
text String.[] = []
text (String.◌∷◌ c s) = code c ∷ text s

-- A device that holds one file; its state counts the calls that change it. It cannot delete.
abbrev pub disk : DeviceInterface ℕ
disk = record {
  create = some (λ path w. (ok, 7, w));
  destroy = some (λ device w. w + 1);
  file_exists = some (λ device path w. (true, w));
  file_size = some (λ device path code w. (3, ok, w));
  read_file =
      some
        (λ device path offset max_bytes buffer terminate code w. (3, some (1 ∷ 2 ∷ 3 ∷ []), ok, w));
  write_file = some (λ device path offset buffer bytes mode code w. (bytes, ok, w + 1));
  delete_file = none;
  create_dir = none;
  delete_dir = none;
}

-- The same device, without the function to write.
abbrev pub read_only : DeviceInterface ℕ
read_only = record disk { write_file = none }

abbrev pub mount_at : ℕ → String → DeviceInterface ℕ → ℕ → MountInfo ℕ
mount_at address prefix interface permissions = record {
  address = address;
  prefix = text prefix;
  device = 7;
  interface = interface;
  prefix_len = length (text prefix);
  permissions = permissions;
}

abbrev pub root : MountInfo ℕ
root = mount_at 100 "/" disk 3

abbrev pub data_mount : MountInfo ℕ
data_mount = mount_at 200 "/data" read_only 1

abbrev pub two_mounts : List (MountInfo ℕ)
two_mounts = root ∷ data_mount ∷ []

pub disk-IsRegistered : IsRegistered disk
disk-IsRegistered = record {
  creates = refl;
  destroys = refl;
  exists = refl;
  sizes = refl;
  reads = refl;
}

read_only-IsRegistered : IsRegistered read_only
read_only-IsRegistered = record {
  creates = refl;
  destroys = refl;
  exists = refl;
  sizes = refl;
  reads = refl;
}

root-IsSound : IsSound root
root-IsSound = record {
  not_null = λ e. omega arith;
  registered = disk-IsRegistered;
  allows = record { writes = λ h. refl; deletes = λ h. cc; creates = λ h. cc; removes = λ h. cc };
  measured = refl;
}

pub data_mount-IsSound : IsSound data_mount
data_mount-IsSound = record {
  not_null = λ e. omega arith;
  registered = read_only-IsRegistered;
  allows = record { writes = λ h. cc; deletes = λ h. cc; creates = λ h. cc; removes = λ h. cc };
  measured = refl;
}

pub two_mounts-AreSound : AreSound two_mounts
two_mounts-AreSound = record {
  each = (root-IsSound, (data_mount-IsSound, tt));
  distinct = ((λ e. omega arith, tt), (tt, tt));
}

served :
    (matches (text "/data/x") data_mount ≡ true)
    × (matches (text "/database/x") data_mount ≡ false)
    × (matches (text "/data") data_mount ≡ false)
    × (device_path (text "/data/x") data_mount ≡ text "/x")
unfolding matches strstr device_path
served = (refl, refl, refl, refl)

pub data_mount-serves : matches (text "/data/x") data_mount ≡ true
unfolding matches strstr
data_mount-serves = refl

matches-device_path_example :
    (data_mount.prefix ++ device_path (text "/data/x") data_mount ≡ text "/data/x")
    × (get_or (device_path (text "/data/x") data_mount) 0 0 ≡ b'/')
matches-device_path_example =
    matches-device_path (text "/data/x") data_mount refl (λ e. omega arith) data_mount-serves

calculated-Allows_example : Allows read_only (calculated_permissions read_only 31)
calculated-Allows_example = calculated-Allows read_only 31

create_mount-AreSound_example :
    (c : Created ℕ) × (create_mount 300 0 (text "/data/extra") (text ".") 0 (disk ∷ []) two_mounts 0
      ≡ some c)
    × AreSound c.mounts
create_mount-AreSound_example =
    create_mount-AreSound 300 0 (text "/data/extra") (text ".") 0 (disk ∷ []) two_mounts 0
      (λ e. omega arith) (λ e. omega arith, (λ e. omega arith, tt)) (omega arith)
      (disk-IsRegistered, tt) two_mounts-AreSound

release_mount-AreSound_example :
    (found : Bool) × (others : List (MountInfo ℕ)) × (w' : ℕ) × (release_mount 200 two_mounts 0
      ≡ some (found, others, w'))
    × AreSound others
    × (found ≡ true
        → (m : MountInfo ℕ) × (before after : List (MountInfo ℕ)) × (destroy : ℕ → ℕ → ℕ)
          × (m.address ≡ 200)
          × (two_mounts ≡ before ++ (m ∷ after))
          × (others ≡ before ++ after)
          × (m.interface.destroy ≡ some destroy)
          × (w' ≡ destroy m.device 0)
          × Fresh 200 others)
    × (found ≡ false → Fresh 200 two_mounts × (others ≡ two_mounts) × (w' ≡ 0))
release_mount-AreSound_example = release_mount-AreSound 200 two_mounts 0 two_mounts-AreSound

-- The device is registered, then mounted on "/".
abbrev registered : Registry ℕ
registered = record { interfaces = (register_device_interface disk []).1; mounts = []; world = 0 }

root_created :
    (c : Created ℕ) × (create_mount 300 0 (text "/") (text ".") 0 registered.interfaces [] 0
      ≡ some c)
    × AreSound c.mounts
root_created =
    create_mount-AreSound 300 0 (text "/") (text ".") 0 registered.interfaces [] 0
      (λ e. omega arith) tt (omega arith) (register-AllRegistered disk [] tt)
      (record { each = tt; distinct = tt })

abbrev mounted : Registry ℕ
mounted = record registered { mounts = root_created.0.mounts; world = root_created.0.world }

reachable-AreSound_example : AllRegistered mounted.interfaces × AreSound mounted.mounts
reachable-AreSound_example = reachable-AreSound mounted (
    next (next (fresh 0) (registers (record { interfaces = []; mounts = []; world = 0 }) disk)) (
      creates registered 300 0 (text "/") (text ".") 0 root_created.0 (λ e. omega arith) tt
        (omega arith) root_created.1))
