-- ===== src/Mounts/Permissions.antt =====
-- The permission bits of a mount, and the functions of its device that they stand for.
use Prim.Native.Nat.{bit_and, bit_or}
use lamina_fs.Prelude.{
  ℕ, zero, suc, ◌/◌, ◌≤◌, Bool, true, false, ◌≡◌, ◌≢◌, ◌↔◌, refl, ap, ◌==◌, if◌then◌else◌, bit,
  bit_of_zero, bit-and, bit-le-one, arith, Bool-cases, inl, inr,
}
use lamina_fs.Types.{
  mount_read, mount_write_file, mount_delete_file, mount_create_dir, mount_delete_dir,
}
use lamina_fs.Device.{DeviceInterface}
use lamina_fs.Mounts.{is_some, has, supported_permissions, calculated_permissions}

zero_of_bits : (n x : ℕ) → x ≤ n → ((j : ℕ) → bit j x ≡ 0) → x ≡ 0
zero_of_bits zero x h bits = omega arith
zero_of_bits (suc n) zero h bits = refl
zero_of_bits (suc n) (suc x) h bits =
    omega (arith, bits 0, zero_of_bits n (suc x / 2) (omega arith) (λ j. bits (suc j)))

-- A flag has one bit.
abbrev IsFlag : ℕ → ℕ → Type 0
IsFlag flag k = (j : ℕ) → bit j flag ≡ (if j == k then 1 else 0)

has-bit : (flag k p : ℕ) → IsFlag flag k → has p flag ≡ true ↔ bit k p ≡ 1
has-bit flag k p one = (forward, backward)
  where
    at_flag : bit k (bit_and p flag) ≡ bit k p
    at_flag = ground (arith, bit-and p flag k, one k, bit-le-one k p)

    no_other : bit k p ≢ 1 → (j : ℕ) → bit j (bit_and p flag) ≡ 0
    no_other ne j = elim (Bool-cases (j == k)) [
      | inl e ↦ let same : j ≡ k = ground arith in rw same (ground (arith, at_flag, bit-le-one k p))
      | inr e ↦ ground (arith, bit-and p flag j, one j)
    ]

    forward : has p flag ≡ true → bit k p ≡ 1
    forward h = elim (Bool-cases (bit k p == 1)) [
      | inl e ↦ ground arith
      | inr e ↦
          let none_set =
            zero_of_bits (bit_and p flag) (bit_and p flag) (omega arith)
              (no_other (ground arith)) in
          ground (arith, none_set)
    ]

    backward : bit k p ≡ 1 → has p flag ≡ true
    backward h = elim (Bool-cases (bit_and p flag == 0)) [
      | inl e ↦
          let empty : bit_and p flag ≡ 0 = ground arith in
          ground (arith, at_flag, ap (bit k) empty, bit_of_zero k)
      | inr e ↦ rw e refl
    ]

write-IsFlag : IsFlag mount_write_file 1
write-IsFlag zero = refl
write-IsFlag (suc zero) = refl
write-IsFlag (suc (suc j)) = ground (arith, bit_of_zero j)

delete-IsFlag : IsFlag mount_delete_file 2
delete-IsFlag zero = refl
delete-IsFlag (suc zero) = refl
delete-IsFlag (suc (suc zero)) = refl
delete-IsFlag (suc (suc (suc j))) = ground (arith, bit_of_zero j)

create-IsFlag : IsFlag mount_create_dir 3
create-IsFlag zero = refl
create-IsFlag (suc zero) = refl
create-IsFlag (suc (suc zero)) = refl
create-IsFlag (suc (suc (suc zero))) = refl
create-IsFlag (suc (suc (suc (suc j)))) = ground (arith, bit_of_zero j)

remove-IsFlag : IsFlag mount_delete_dir 4
remove-IsFlag zero = refl
remove-IsFlag (suc zero) = refl
remove-IsFlag (suc (suc zero)) = refl
remove-IsFlag (suc (suc (suc zero))) = refl
remove-IsFlag (suc (suc (suc (suc zero)))) = refl
remove-IsFlag (suc (suc (suc (suc (suc j))))) = ground (arith, bit_of_zero j)

abbrev digit : Bool → ℕ
digit b = if b then 1 else 0

-- The bits of the permissions that an interface supports.
abbrev Supports : ℕ → Bool → Bool → Bool → Bool → Type 0
Supports p a b c d =
    (bit 0 p ≡ 1)
    × (bit 1 p ≡ digit a)
    × (bit 2 p ≡ digit b)
    × (bit 3 p ≡ digit c)
    × (bit 4 p ≡ digit d)

supported-Supports :
    {W : Type 0} (i : DeviceInterface W)
    → Supports
        (supported_permissions i)
        (is_some i.write_file)
        (is_some i.delete_file)
        (is_some i.create_dir)
        (is_some i.delete_dir)
unfolding supported_permissions
supported-Supports i =
    by_cases (is_some i.write_file) (is_some i.delete_file) (is_some i.create_dir)
      (is_some i.delete_dir)
  where
    by_cases :
        (a b c d : Bool)
        → Supports
            (bit_or
              (bit_or
                (bit_or
                  (bit_or mount_read (if a then mount_write_file else 0))
                  (if b then mount_delete_file else 0))
                (if c then mount_create_dir else 0))
              (if d then mount_delete_dir else 0))
            a
            b
            c
            d
    by_cases true true true true = (refl, refl, refl, refl, refl)
    by_cases true true true false = (refl, refl, refl, refl, refl)
    by_cases true true false true = (refl, refl, refl, refl, refl)
    by_cases true true false false = (refl, refl, refl, refl, refl)
    by_cases true false true true = (refl, refl, refl, refl, refl)
    by_cases true false true false = (refl, refl, refl, refl, refl)
    by_cases true false false true = (refl, refl, refl, refl, refl)
    by_cases true false false false = (refl, refl, refl, refl, refl)
    by_cases false true true true = (refl, refl, refl, refl, refl)
    by_cases false true true false = (refl, refl, refl, refl, refl)
    by_cases false true false true = (refl, refl, refl, refl, refl)
    by_cases false true false false = (refl, refl, refl, refl, refl)
    by_cases false false true true = (refl, refl, refl, refl, refl)
    by_cases false false true false = (refl, refl, refl, refl, refl)
    by_cases false false false true = (refl, refl, refl, refl, refl)
    by_cases false false false false = (refl, refl, refl, refl, refl)

-- A mount never has a permission that its interface does not support.
calculated-bit :
    {W : Type 0} (i : DeviceInterface W) (mount_permissions k : ℕ)
    → bit k (calculated_permissions i mount_permissions) ≡ 1
    → bit k (supported_permissions i) ≡ 1
unfolding calculated_permissions
calculated-bit i mount_permissions k h = ground (
  arith,
  bit-and mount_permissions (supported_permissions i) k,
  bit-le-one k (supported_permissions i),
)

-- With each permission of a mount comes the device function that the operation calls.
pub record Allows {W : Type 0} (i : DeviceInterface W) (permissions : ℕ) : Type 0 where
  pub writes : has permissions mount_write_file ≡ true → is_some i.write_file ≡ true
  pub deletes : has permissions mount_delete_file ≡ true → is_some i.delete_file ≡ true
  pub creates : has permissions mount_create_dir ≡ true → is_some i.create_dir ≡ true
  pub removes : has permissions mount_delete_dir ≡ true → is_some i.delete_dir ≡ true

-- `createMount` gives a mount only the permissions whose functions its interface has.
pub calculated-Allows :
    {W : Type 0} (i : DeviceInterface W) (mount_permissions : ℕ)
    → Allows i (calculated_permissions i mount_permissions)
calculated-Allows i mount_permissions =
    let p = calculated_permissions i mount_permissions in
    let s = supported-Supports i in
    record {
      writes = λ h. ground (
        arith,
        s,
        calculated-bit i mount_permissions 1 ((has-bit mount_write_file 1 p write-IsFlag).0 h),
      );
      deletes = λ h. ground (
        arith,
        s,
        calculated-bit i mount_permissions 2 ((has-bit mount_delete_file 2 p delete-IsFlag).0 h),
      );
      creates = λ h. ground (
        arith,
        s,
        calculated-bit i mount_permissions 3 ((has-bit mount_create_dir 3 p create-IsFlag).0 h),
      );
      removes = λ h. ground (
        arith,
        s,
        calculated-bit i mount_permissions 4 ((has-bit mount_delete_dir 4 p remove-IsFlag).0 h),
      );
    }
