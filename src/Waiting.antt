-- ===== src/Waiting.antt =====
-- How a client waits for an item without a callback: `WaitForWorkItem` of src/FileContext.cpp, and
-- the end of a turn of `processingFunc`, which sets `_completed` under the lock and notifies the
-- clients after it has let go of the lock.
mod Tests
use lamina_fs.Prelude.{
  ℕ, Bool, true, false, ◌≡◌, ◌≢◌, refl, sym, ap, ◌∙◌, ◌==◌, if◌then◌else◌, Bool-cases, inl, inr,
  arith,
}

-- What a client is about to do. `sleeps` is the wait on the condition variable.
pub data Client : Type 0 where
  idle returned : Client
  checks sleeps : ℕ → Client

-- `owes` says that the thread has completed an item and still has to notify.
pub record State : Type 0 where
  pub completed : ℕ → Bool
  pub owes : Bool
  pub clients : ℕ → Client

abbrev pub set_client : ℕ → Client → (ℕ → Client) → ℕ → Client
set_client c phase clients d = if c == d then phase else clients d

abbrev pub set_completed : ℕ → Bool → (ℕ → Bool) → ℕ → Bool
set_completed p b completed q = if p == q then b else completed q

pub initial : State
initial = record { completed = λ p. false; owes = false; clients = λ c. idle }

-- A round of the loop of `WaitForWorkItem`, under the lock: it ends, or the client sleeps.
pub check : ℕ → ℕ → State → State
check c p s = record s {
  clients = set_client c (if s.completed p then returned else sleeps p) s.clients;
}

-- The thread sets `_completed`.
pub complete : ℕ → State → State
complete p s = record s { completed = set_completed p true s.completed; owes = true }

-- `notify_all` wakes the clients that sleep.
abbrev pub woken : Client → Client
woken idle = idle
woken returned = returned
woken (checks p) = checks p
woken (sleeps p) = checks p

pub notify_all : State → State
notify_all s = record s { owes = false; clients = λ c. woken (s.clients c) }

-- The steps of the clients and of the thread. A client that sleeps may wake for no reason, and an
-- item is used again after its release.
pub data Step : State → State → Type 0 where
  waits :
      (s : State) (c p : ℕ)
      → s.clients c ≡ idle
      → Step s (record s { clients = set_client c (checks p) s.clients })
  looks : (s : State) (c p : ℕ) → s.clients c ≡ checks p → Step s (check c p s)
  wakes :
      (s : State) (c p : ℕ)
      → s.clients c ≡ sleeps p
      → Step s (record s { clients = set_client c (checks p) s.clients })
  completes : (s : State) (p : ℕ) → s.owes ≡ false → Step s (complete p s)
  notifies : (s : State) → s.owes ≡ true → Step s (notify_all s)
  reuses : (s : State) (p : ℕ) → Step s (record s { completed = set_completed p false s.completed })

pub data IsReachable : State → Type 0 where
  starts : IsReachable initial
  next : {s t : State} → IsReachable s → Step s t → IsReachable t

abbrev IsOwed : State → Type 0
IsOwed s = (c p : ℕ) → s.clients c ≡ sleeps p → s.completed p ≡ true → s.owes ≡ true

set_client-IsOwed :
    (s : State) (c : ℕ) (phase : Client)
    → IsOwed s
    → ((p : ℕ) → phase ≡ sleeps p → s.completed p ≡ true → s.owes ≡ true)
    → IsOwed (record s { clients = set_client c phase s.clients })
set_client-IsOwed s c phase h k d p asleep done = elim (Bool-cases (c == d)) [
  | inl e ↦ k p (ap (λ b. if b then phase else s.clients d) (sym e) ∙ asleep) done
  | inr e ↦ h d p (ap (λ b. if b then phase else s.clients d) (sym e) ∙ asleep) done
]

woken-awake : (client : Client) (p : ℕ) → woken client ≢ sleeps p
woken-awake idle p = λ e. cc
woken-awake returned p = λ e. cc
woken-awake (checks q) p = λ e. cc
woken-awake (sleeps q) p = λ e. cc

check-sleeps :
    (done : Bool) (p q : ℕ)
    → (if done then returned else sleeps p) ≡ sleeps q
    → (done ≡ false) × (p ≡ q)
check-sleeps true p q e = cc
check-sleeps false p q e = (refl, cc)

Step-IsOwed : {s t : State} → Step s t → IsOwed s → IsOwed t
unfolding check complete notify_all
Step-IsOwed (waits s c p e) h = set_client-IsOwed s c (checks p) h (λ q f. cc)
Step-IsOwed (looks s c p e) h =
    set_client-IsOwed s c (if s.completed p then returned else sleeps p) h (λ q f done.
      let (unfinished, same) = check-sleeps (s.completed p) p q f in
      let there : s.completed p ≡ true = ap s.completed same ∙ done in cc)
Step-IsOwed (wakes s c p e) h = set_client-IsOwed s c (checks p) h (λ q f. cc)
Step-IsOwed (completes s p e) h = λ c q f done. refl
Step-IsOwed (notifies s e) h = λ c q f. absurd (woken-awake (s.clients c) q f)
Step-IsOwed (reuses s p) h = λ c q f done. elim (Bool-cases (p == q)) [
  | inl e ↦
      let off : false ≡ true = ap (λ b. if b then false else s.completed q) (sym e) ∙ done in cc
  | inr e ↦ h c q f (ap (λ b. if b then false else s.completed q) (sym e) ∙ done)
]

-- No completion is lost: in every state that the steps reach, a client that sleeps for an item that
-- is completed is owed the notification of the thread.
pub no_lost_completion :
    (s : State) (c p : ℕ)
    → IsReachable s
    → s.clients c ≡ sleeps p
    → s.completed p ≡ true
    → s.owes ≡ true
unfolding initial
no_lost_completion s c p reached = owed reached c p
  where
    owed : {t : State} → IsReachable t → IsOwed t
    owed starts = λ d q f. cc
    owed (next before step) = Step-IsOwed step (owed before)
