-- ===== src/Mounts/Reachable.antt =====
-- The interfaces and mounts that a client can bring about by `registerDeviceInterface`,
-- `createMount` and `releaseMount`.
use lamina_fs.Prelude.{ℕ, ◌^◌, ◌<◌, Bool, ◌≡◌, ◌≢◌, subst, some, List, [], length}
use lamina_fs.Types.{Text}
use lamina_fs.Device.{DeviceInterface}
use lamina_fs.Mounts.{MountInfo, Created, register_device_interface, create_mount, release_mount}
use lamina_fs.Mounts.Search.{Fresh}
use lamina_fs.Mounts.Sound.{AllRegistered, AreSound, register-AllRegistered, create_mount-AreSound}
use lamina_fs.Mounts.Release.{release_mount-AreSound}

pub record Registry (W : Type 0) : Type 0 where
  pub interfaces : List (DeviceInterface W)
  pub mounts : List (MountInfo W)
  pub world : W

module _ {W : Type 0} where
  -- A call of the client, or work of the thread, which changes the devices alone. The allocator
  -- gives a new mount an address that no mount has.
  pub data Step : Registry W → Registry W → Type 0 where
    registers :
        (r : Registry W) (i : DeviceInterface W)
        → Step r (record r { interfaces = (register_device_interface i r.interfaces).1 })
    creates :
        (r : Registry W) (address device_type : ℕ) (point path : Text) (permissions : ℕ)
        (c : Created W)
        → address ≢ 0
        → Fresh address r.mounts
        → length point < 2 ^ 32
        → create_mount address device_type point path permissions r.interfaces r.mounts r.world
          ≡ some c
        → Step r (record r { mounts = c.mounts; world = c.world })
    releases :
        (r : Registry W) (address : ℕ) (found : Bool) (others : List (MountInfo W)) (w : W)
        → release_mount address r.mounts r.world ≡ some (found, others, w)
        → Step r (record r { mounts = others; world = w })
    works : (r : Registry W) (w : W) → Step r (record r { world = w })

  pub data IsReachable : Registry W → Type 0 where
    fresh : (w : W) → IsReachable (record { interfaces = []; mounts = []; world = w })
    next : {r s : Registry W} → IsReachable r → Step r s → IsReachable s

  abbrev pub IsGood : Registry W → Type 0
  IsGood r = AllRegistered r.interfaces × AreSound r.mounts

  pub Step-IsGood : {r s : Registry W} → Step r s → IsGood r → IsGood s
  Step-IsGood (registers r i) h = (register-AllRegistered i r.interfaces h.0, h.1)
  Step-IsGood (creates r address device_type point path permissions c ne new small e) h =
      let (c', e', sound) =
        create_mount-AreSound address device_type point path permissions r.interfaces r.mounts
          r.world ne new small h.0 h.1 in
      let same : c' ≡ c = cc in (h.0, subst (λ d. AreSound d.mounts) same sound)
  Step-IsGood (releases r address found others w e) h =
      let (found', others', w', e', sound, gone, kept) =
        release_mount-AreSound address r.mounts r.world h.1 in
      let same : others' ≡ others = cc in (h.0, subst AreSound same sound)
  Step-IsGood (works r w) h = h

  -- However a client registers interfaces and creates and releases mounts, the interfaces have
  -- their required functions and the mounts are sound.
  pub reachable-AreSound :
      (r : Registry W) → IsReachable r → AllRegistered r.interfaces × AreSound r.mounts
  reachable-AreSound r (fresh w) = (tt, record { each = tt; distinct = tt })
  reachable-AreSound r (next before step) = Step-IsGood step (reachable-AreSound _ before)
