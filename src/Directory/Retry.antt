-- ===== src/Directory/Retry.antt =====
-- src/device/Directory.cpp: the loops that repeat a call while it fails with `EINTR`.
use lamina_fs.Prelude.{
  ℕ, zero, suc, ◌≤◌, ◌<◌, true, false, ◌≡◌, refl, ap, Option, none, some, Bool-cases, Option-cases,
  inl, inr, arith,
}
use lamina_fs.Directory.{is_eintr, retry}
use lamina_fs.Directory.Calls.{Posix}

module _ {ℓ} {W : Type 0} {A : Type ℓ} (os : Posix W) where
  -- What the loop answers is what the call answers in some state, before which it has only failed,
  -- so that what a failed call keeps is kept.
  pub record Retries (P : W → Type 0) (interruptions : W → ℕ) (call : W → Option A × W) (fuel : ℕ)
      (w : W) : Type ℓ where
    pub result : Option A
    pub before : W
    pub after : W
    pub answers : retry os fuel call w ≡ some (result, after)
    pub called : call before ≡ (result, after)
    pub kept : P before
    pub bounded : interruptions before ≤ interruptions w
    pub settled : result ≡ none → is_eintr (os.errno after) ≡ false

  pub retry-Retries :
      (P : W → Type 0) (interruptions : W → ℕ) (call : W → Option A × W)
      → ((v v' : W)
          → call v ≡ (none, v')
          → is_eintr (os.errno v') ≡ true
          → P v
          → P v' × (interruptions v' < interruptions v))
      → (fuel : ℕ) (w : W) → P w
      → interruptions w < fuel
      → Retries P interruptions call fuel w
  unfolding retry
  retry-Retries P interruptions call h zero w p lt = absurd (omega arith)
  retry-Retries P interruptions call h (suc fuel) w p lt = elim (Option-cases (call w).0) [
    | inr (a, e) ↦ record {
      result = some a;
      before = w;
      after = (call w).1;
      answers = rw (e, retry) refl;
      called = ap (λ o. (o, (call w).1)) e;
      kept = p;
      bounded = omega arith;
      settled = λ n. cc;
    }
    | inl e ↦ elim (Bool-cases (is_eintr (os.errno (call w).1))) [
      | inr settled ↦ record {
        result = none;
        before = w;
        after = (call w).1;
        answers = rw (e, retry) (rw settled refl);
        called = ap (λ o. (o, (call w).1)) e;
        kept = p;
        bounded = omega arith;
        settled = λ n. settled;
      }
      | inl again ↦
          let (kept, less) = h w (call w).1 (ap (λ o. (o, (call w).1)) e) again p in
          let r = retry-Retries P interruptions call h fuel (call w).1 kept (omega arith) in
          record {
            result = r.result;
            before = r.before;
            after = r.after;
            answers = rw (e, retry) (rw again r.answers);
            called = r.called;
            kept = r.kept;
            bounded = omega (arith, r.bounded);
            settled = r.settled;
          }
    ]
  ]
