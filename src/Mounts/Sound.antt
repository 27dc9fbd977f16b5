-- ===== src/Mounts/Sound.antt =====
-- What the mounts of a context have in common, and `createMount`.
use lamina_fs.Prelude.{
  ℕ, zero, suc, ◌^◌, ◌<◌, true, not, ◌&&◌, ◌≡◌, ◌≢◌, refl, some, Option-cases, List, [], ◌∷◌, ◌++◌,
  length, get_elem?, ◌==◌, arith, Bool-cases, inl, inr,
}
use lamina_fs.Prelude.{subst}
use lamina_fs.Types.{ErrorCode, invalid_device, permissions_error, Text, is_ok}
use lamina_fs.Device.{DeviceInterface}
use lamina_fs.Mounts.{
  MountInfo, Created, is_some, calculated_permissions, register_device_interface, finish_mount,
  create_mount,
}
use lamina_fs.Mounts.Permissions.{Allows, calculated-Allows}
use lamina_fs.Mounts.Search.{Fresh, Distinct, Distinct-snoc}

module _ {W : Type 0} where
  -- The required functions of a device interface.
  pub record IsRegistered (i : DeviceInterface W) : Type 0 where
    pub creates : is_some i.create ≡ true
    pub destroys : is_some i.destroy ≡ true
    pub exists : is_some i.file_exists ≡ true
    pub sizes : is_some i.file_size ≡ true
    pub reads : is_some i.read_file ≡ true

  abbrev pub AllRegistered : List (DeviceInterface W) → Type 0
  AllRegistered [] = Unit
  AllRegistered (i ∷ is) = IsRegistered i × AllRegistered is

  pub record IsSound (m : MountInfo W) : Type 0 where
    pub not_null : m.address ≢ 0
    pub registered : IsRegistered m.interface
    pub allows : Allows m.interface m.permissions
    pub measured : m.prefix_len ≡ length m.prefix

  abbrev pub AllSound : List (MountInfo W) → Type 0
  AllSound [] = Unit
  AllSound (m ∷ ms) = IsSound m × AllSound ms

  pub AllSound-snoc :
      (ms : List (MountInfo W)) (m : MountInfo W)
      → AllSound ms
      → IsSound m
      → AllSound (ms ++ (m ∷ []))
  AllSound-snoc [] m h s = (s, tt)
  AllSound-snoc (n ∷ ms) m h s = (h.0, AllSound-snoc ms m h.1 s)

  AllRegistered-snoc :
      (is : List (DeviceInterface W)) (i : DeviceInterface W)
      → AllRegistered is
      → IsRegistered i
      → AllRegistered (is ++ (i ∷ []))
  AllRegistered-snoc [] i h r = (r, tt)
  AllRegistered-snoc (j ∷ is) i h r = (h.0, AllRegistered-snoc is i h.1 r)

  -- `registerDeviceInterface` takes only interfaces that have the required functions: where all
  -- interfaces have them, all have them after it.
  pub register-AllRegistered :
      (i : DeviceInterface W) (is : List (DeviceInterface W))
      → AllRegistered is
      → AllRegistered (register_device_interface i is).1
  unfolding register_device_interface
  register-AllRegistered i is h =
      elim (Bool-cases (
        is_some i.create
        && is_some i.destroy
        && is_some i.file_exists
        && is_some i.file_size
        && is_some i.read_file)) [
          | inl e ↦ rw e (
              AllRegistered-snoc is i h (record {
                creates = ground arith;
                destroys = ground arith;
                exists = ground arith;
                sizes = ground arith;
                reads = ground arith;
              }))
          | inr e ↦ rw e h
        ]

  get_elem?-IsRegistered :
      (is : List (DeviceInterface W)) (k : ℕ) {i : DeviceInterface W}
      → AllRegistered is
      → get_elem? is k ≡ some i
      → IsRegistered i
  get_elem?-IsRegistered [] k h e = cc
  get_elem?-IsRegistered (j ∷ is) zero {i} h e =
      let same : j ≡ i = cc in subst IsRegistered same h.0
  get_elem?-IsRegistered (j ∷ is) (suc k) h e = get_elem?-IsRegistered is k h.1 e

  -- What the mounts of a context have in common.
  pub record AreSound (ms : List (MountInfo W)) : Type 0 where
    pub each : AllSound ms
    pub distinct : Distinct ms

  finish-AreSound :
      (address : ℕ) (point : Text) (i : DeviceInterface W) (p : ℕ) (ms : List (MountInfo W))
      (r : ErrorCode × ℕ × W)
      → address ≢ 0
      → Fresh address ms
      → length point < 2 ^ 32
      → IsRegistered i
      → Allows i p
      → AreSound ms
      → AreSound (finish_mount address point i p ms r).mounts
  unfolding finish_mount
  finish-AreSound address point i p ms (code, device, w) ne fresh small reg allows h =
      elim (Bool-cases (is_ok code && not (device == 0))) [
        | inl e ↦ rw e (record {
          each =
              AllSound-snoc ms _ h.each (record {
                not_null = ne;
                registered = reg;
                allows = allows;
                measured = omega arith;
              });
          distinct = Distinct-snoc ms _ h.distinct fresh;
        })
        | inr e ↦ rw e h
      ]

  -- With registered interfaces, sound mounts, a new address and a mount point of fewer than 2 ^
  -- 32 bytes, `createMount` calls no null function and its mounts are sound again, whatever the
  -- device type, the permissions and the device's answer.
  pub create_mount-AreSound :
      (address device_type : ℕ) (point path : Text) (permissions : ℕ)
      (is : List (DeviceInterface W)) (ms : List (MountInfo W)) (w : W)
      → address ≢ 0
      → Fresh address ms
      → length point < 2 ^ 32
      → AllRegistered is
      → AreSound ms
      → (c : Created W) × (create_mount address device_type point path permissions is ms w ≡ some c)
        × AreSound c.mounts
  unfolding create_mount
  create_mount-AreSound address device_type point path permissions is ms w ne fresh small reg h =
      elim (Option-cases (get_elem? is device_type)) [
        | inl e ↦ (
          record { result_code = invalid_device; mount = 0; mounts = ms; world = w },
          rw (e, create_mount) refl,
          h,
        )
        | inr (i, e) ↦
            let r = get_elem?-IsRegistered is device_type reg e in
            let p = calculated_permissions i permissions in
            elim (Bool-cases (p == 0)) [
              | inl z ↦ (
                record { result_code = permissions_error; mount = 0; mounts = ms; world = w },
                rw (e, z, create_mount) refl,
                h,
              )
              | inr z ↦ elim (Option-cases i.create) [
                | inl n ↦ absurd (ground (arith, r.creates))
                | inr (create, s) ↦ (
                  finish_mount address point i p ms (create path w),
                  rw (e, z, s, create_mount) refl,
                  finish-AreSound address point i p ms (create path w) ne fresh small r
                      (calculated-Allows i permissions) h,
                )
              ]
            ]
      ]
