-- ===== src/Directory/Portion.antt =====
-- The part of a file that `readFile` of src/device/Directory.cpp is asked for.
use lamina_fs.Prelude.{
  ℕ, zero, suc, ◌+◌, ◌-◌, ◌^◌, ◌%◌, ◌≤◌, ◌<◌, Bool, true, false, ◌≡◌, refl, sym, ap, ◌∙◌, Option,
  none, some, List, [], ◌∷◌, ◌++◌, length, take, drop, min, leb, ltb, if◌then◌else◌, ◌⊎◌, inl, inr,
  arith, append-nil,
}
use lamina_fs.Types.{Bytes}

abbrev pub terminator : Bool → Bytes
terminator b = if b then (0 ∷ []) else []

pub length-take_le {ℓ} : {A : Type ℓ} (n : ℕ) (xs : List A) → length (take n xs) ≤ n
length-take_le zero xs = omega arith
length-take_le (suc n) [] = omega arith
length-take_le (suc n) (x ∷ xs) = omega (arith, length-take_le n xs)

pub length-take_le_all {ℓ} : {A : Type ℓ} (n : ℕ) (xs : List A) → length (take n xs) ≤ length xs
length-take_le_all zero xs = omega arith
length-take_le_all (suc n) [] = omega arith
length-take_le_all (suc n) (x ∷ xs) = omega (arith, length-take_le_all n xs)

pub take-enough {ℓ} : {A : Type ℓ} (n : ℕ) (xs : List A) → length xs ≤ n → take n xs ≡ xs
take-enough zero [] h = refl
take-enough zero (x ∷ xs) h = absurd (omega arith)
take-enough (suc n) [] h = refl
take-enough (suc n) (x ∷ xs) h = ap (λ ys. x ∷ ys) (take-enough n xs (omega arith))

pub length-drop {ℓ} : {A : Type ℓ} (n : ℕ) (xs : List A) → length (drop n xs) ≡ length xs - n
length-drop zero xs = omega arith
length-drop (suc n) [] = omega arith
length-drop (suc n) (x ∷ xs) = omega (arith, length-drop n xs)

pub take-take {ℓ} : {A : Type ℓ} (k n : ℕ) (xs : List A) → k ≤ n → take k (take n xs) ≡ take k xs
take-take zero n xs h = refl
take-take (suc k) zero xs h = absurd (omega arith)
take-take (suc k) (suc n) [] h = refl
take-take (suc k) (suc n) (x ∷ xs) h = ap (λ ys. x ∷ ys) (take-take k n xs (omega arith))

pub length-take_mono {ℓ} :
    {A : Type ℓ} (k n : ℕ) (xs : List A) → k ≤ n → length (take k xs) ≤ length (take n xs)
length-take_mono zero n xs h = omega arith
length-take_mono (suc k) zero xs h = absurd (omega arith)
length-take_mono (suc k) (suc n) [] h = omega arith
length-take_mono (suc k) (suc n) (x ∷ xs) h = omega (arith, length-take_mono k n xs (omega arith))

pub take-length-take {ℓ} :
    {A : Type ℓ} (n : ℕ) (xs : List A) → take n xs ≡ take (length (take n xs)) xs
take-length-take zero xs = refl
take-length-take (suc n) [] = refl
take-length-take (suc n) (x ∷ xs) = ap (λ ys. x ∷ ys) (take-length-take n xs)

pub length-take_some {ℓ} :
    {A : Type ℓ} (n : ℕ) (xs : List A) → 0 < n → 0 < length xs → 0 < length (take n xs)
length-take_some zero xs h k = absurd (omega arith)
length-take_some (suc n) [] h k = absurd (omega arith)
length-take_some (suc n) (x ∷ xs) h k = omega arith

-- The bytes that `readFile` asks for.
abbrev pub counted : ℕ → ℕ → ℕ → ℕ
counted file_size offset max_bytes = min ((2 ^ 64 + file_size - offset) % 2 ^ 64) max_bytes

counted-enough :
    (size offset max_bytes : ℕ)
    → size < 2 ^ 64
    → offset < 2 ^ 64
    → (counted size offset max_bytes ≡ max_bytes)
      ⊎ ((size - offset ≤ counted size offset max_bytes) × (size - offset ≤ max_bytes))
counted-enough size offset max_bytes h k = ground arith

pub take-counted :
    (c : Bytes) (offset max_bytes : ℕ)
    → length c < 2 ^ 64
    → offset < 2 ^ 64
    → take (counted (length c) offset max_bytes) (drop offset c) ≡ take max_bytes (drop offset c)
take-counted c offset max_bytes h k =
    let left = length-drop offset c in
    elim (counted-enough (length c) offset max_bytes h k) [
      | inl e ↦ ap (λ n. take n (drop offset c)) e
      | inr (l, m) ↦
          take-enough (counted (length c) offset max_bytes) (drop offset c) (omega arith)
          ∙ sym (take-enough max_bytes (drop offset c) (omega arith))
    ]

abbrev pub buffer_of : Bool → ℕ → Bytes → Option Bytes
buffer_of null_terminate size bytes =
    if null_terminate
    then if ltb (length bytes) size then some (bytes ++ (0 ∷ [])) else none
    else if leb (length bytes) size
    then some bytes
    else none

pub buffer_of-some :
    (null_terminate : Bool) (size : ℕ) (bytes : Bytes)
    → length bytes + (if null_terminate then 1 else 0) ≤ size
    → buffer_of null_terminate size bytes ≡ some (bytes ++ terminator null_terminate)
buffer_of-some true size bytes h =
    let inside : ltb (length bytes) size ≡ true = ground arith in rw inside refl
buffer_of-some false size bytes h =
    let inside : leb (length bytes) size ≡ true = ground arith in
    rw inside (ap some (sym (append-nil bytes)))
