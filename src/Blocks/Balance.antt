-- ===== src/Blocks/Balance.antt =====
-- That a context of src/FileContext.cpp holds exactly its live blocks.
use lamina_fs.Prelude.{
  ℕ, ◌+◌, Bool, true, false, ◌≡◌, refl, ap, subst, Option, none, some, List, [], ◌∷◌, ◌++◌, ◌==◌,
  occurrences, occurrences-append, arith, Bool-cases, inl, inr, ◌>>=◌,
}
use lamina_fs.Blocks.{
  Memory, construct, register_interface, create_mount, take_entry, release_mount, init_work_item,
  report_exhausted, release_work_item, destroy, destroy_members, free,
}
use lamina_fs.Blocks.Frees.{Leaves, free-Leaves, free_all-Leaves, mount_blocks, free_mounts-Leaves}

abbrev pub name_blocks : List (ℕ × ℕ) → List ℕ
name_blocks [] = []
name_blocks (e ∷ es) = e.1 ∷ name_blocks es

-- How often the context holds a block.
abbrev pub held : Memory → ℕ → ℕ
held m q =
    occurrences q (m.context ∷ m.storage ∷ m.bitmask ∷ m.cells ∷ [])
    + occurrences q m.interfaces
    + occurrences q (mount_blocks m.mounts)
    + occurrences q (name_blocks m.names)

abbrev pub IsBalanced : Memory → Type 0
IsBalanced m = (q : ℕ) → occurrences q m.live ≡ held m q

-- An operation that frees no block that is not live, and leaves a balanced context.
pub record Balances (o : Option Memory) : Type 0 where
  pub after : Memory
  pub answers : o ≡ some after
  pub balanced : IsBalanced after

mount_blocks-last :
    (es : List (ℕ × ℕ)) (e : ℕ × ℕ) (q : ℕ)
    → occurrences q (mount_blocks (es ++ (e ∷ [])))
      ≡ occurrences q (mount_blocks es) + occurrences q (e.1 ∷ e.0 ∷ [])
mount_blocks-last [] e q = omega arith
mount_blocks-last (x ∷ es) e q = omega (arith, mount_blocks-last es e q)

pub construct-IsBalanced :
    (context storage bitmask cells : ℕ) → IsBalanced (construct context storage bitmask cells)
unfolding construct
construct-IsBalanced context storage bitmask cells = λ q. omega arith

pub register_interface-IsBalanced :
    (complete : Bool) (i : ℕ) (m : Memory)
    → IsBalanced m
    → IsBalanced (register_interface complete i m)
unfolding register_interface
register_interface-IsBalanced false i m h = h
register_interface-IsBalanced true i m h =
    λ q. omega (arith, h q, occurrences-append q m.interfaces (i ∷ []))

-- A continuation that puts the live blocks back.
back-Balances :
    (f : ℕ → ℕ) (o : Option (List ℕ)) (k : List ℕ → Memory)
    → Leaves f o
    → ((l : List ℕ) → ((q : ℕ) → occurrences q l ≡ f q) → IsBalanced (k l))
    → Balances (o >>= λ l. some (k l))
back-Balances f o k r next = record {
  after = k r.left;
  answers = ap (λ a. a >>= λ l. some (k l)) r.answers;
  balanced = next r.left r.exact;
}

pub create_mount-Balances :
    (created : Bool) (info prefix : ℕ) (m : Memory)
    → IsBalanced m
    → Balances (create_mount created info prefix m)
unfolding create_mount
create_mount-Balances true info prefix m h = record {
  after = record m { live = prefix ∷ info ∷ m.live; mounts = m.mounts ++ ((info, prefix) ∷ []) };
  answers = refl;
  balanced = λ q. omega (arith, h q, mount_blocks-last m.mounts (info, prefix) q);
}
create_mount-Balances false info prefix m h =
    back-Balances (held m) (free info (info ∷ m.live)) (λ l. record m { live = l })
      (free-Leaves info (info ∷ m.live) (held m) (λ q. omega (arith, h q))) (λ l exact. exact)

pub report_exhausted-Balances :
    (name : ℕ) (m : Memory) → IsBalanced m → Balances (report_exhausted name m)
unfolding report_exhausted
report_exhausted-Balances name m h =
    back-Balances (held m) (free name (name ∷ m.live)) (λ l. record m { live = l })
      (free-Leaves name (name ∷ m.live) (held m) (λ q. omega (arith, h q))) (λ l exact. exact)

pub init_work_item-IsBalanced :
    (item name : ℕ) (m : Memory) → IsBalanced m → IsBalanced (init_work_item item name m)
unfolding init_work_item
init_work_item-IsBalanced item name m h = λ q. omega (arith, h q)

-- A found entry was among the others.
abbrev Taken : List (ℕ × ℕ) → Option ((ℕ × ℕ) × List (ℕ × ℕ)) → Type 0
Taken es none = Unit
Taken es (some (found, others)) =
    (q : ℕ)
    → (occurrences q (mount_blocks es)
        ≡ occurrences q (found.1 ∷ found.0 ∷ []) + occurrences q (mount_blocks others))
      × (occurrences q (name_blocks es)
          ≡ occurrences q (found.1 ∷ []) + occurrences q (name_blocks others))

abbrev past : ℕ × ℕ → Option ((ℕ × ℕ) × List (ℕ × ℕ)) → Option ((ℕ × ℕ) × List (ℕ × ℕ))
past x o = o >>= λ (found, others). some (found, x ∷ others)

past-Taken :
    (x : ℕ × ℕ) (es : List (ℕ × ℕ)) (o : Option ((ℕ × ℕ) × List (ℕ × ℕ)))
    → Taken es o
    → Taken (x ∷ es) (past x o)
past-Taken x es none h = tt
past-Taken x es (some (found, others)) h = λ q. (omega (arith, (h q).0), omega (arith, (h q).1))

take_entry-Taken : (address : ℕ) (es : List (ℕ × ℕ)) → Taken es (take_entry address es)
unfolding take_entry
take_entry-Taken address [] = tt
take_entry-Taken address (x ∷ es) = elim (Bool-cases (x.0 == address)) [
  | inl e ↦ rw e (λ q. (omega arith, omega arith))
  | inr e ↦ rw e (past-Taken x es (take_entry address es) (take_entry-Taken address es))
]

-- The release of a mount, of which there may be none with the address.
pub release_mount-Balances :
    (address : ℕ) (m : Memory) → IsBalanced m → Balances (release_mount address m)
unfolding release_mount
release_mount-Balances address m h =
    by_entry (take_entry address m.mounts) (take_entry-Taken address m.mounts)
  where
    by_entry :
        (o : Option ((ℕ × ℕ) × List (ℕ × ℕ)))
        → Taken m.mounts o
        → Balances (elim o [
          | none ↦ some m
          | some (found, others) ↦ free found.1 m.live >>= λ live₁.
              free found.0 live₁ >>= λ live₂. some (record m { live = live₂; mounts = others })
        ])
    by_entry none taken = record { after = m; answers = refl; balanced = h }
    by_entry (some (found, others)) taken =
        let final : ℕ → ℕ = held (record m { mounts = others }) in
        let between : ℕ → ℕ = λ q. occurrences q (found.0 ∷ []) + final q in
        let first = free-Leaves found.1 m.live between (λ q. omega (arith, h q, (taken q).0)) in
        let second = free-Leaves found.0 first.left final first.exact in
        record {
          after = record m { live = second.left; mounts = others };
          answers = rw (first.answers, second.answers) refl;
          balanced = second.exact;
        }

-- The release of an item that is in use.
pub release_work_item-Balances :
    (item : ℕ) (m : Memory) (found : ℕ × ℕ) (others : List (ℕ × ℕ))
    → take_entry item m.names ≡ some (found, others)
    → IsBalanced m
    → Balances (release_work_item item m)
unfolding release_work_item
release_work_item-Balances item m found others e h =
    let taken : Taken m.names (some (found, others)) =
      subst (Taken m.names) e (take_entry-Taken item m.names) in
    let final : ℕ → ℕ = held (record m { names = others }) in
    let freed = free-Leaves found.1 m.live final (λ q. omega (arith, h q, (taken q).1)) in
    record {
      after = record m { live = freed.left; names = others };
      answers = rw (e, freed.answers) refl;
      balanced = freed.exact;
    }

-- The destruction frees no block that is not live, and all but the names of the items in use.
pub destroy-Leaves :
    (m : Memory) → IsBalanced m → Leaves (λ q. occurrences q (name_blocks m.names)) (destroy m)
unfolding destroy destroy_members
destroy-Leaves m h =
    let f₅ : ℕ → ℕ = λ q. occurrences q (name_blocks m.names) in
    let f₄ : ℕ → ℕ = λ q. occurrences q (m.context ∷ []) + f₅ q in
    let f₃ : ℕ → ℕ = λ q. occurrences q (m.bitmask ∷ []) + f₄ q in
    let f₂ : ℕ → ℕ = λ q. occurrences q (m.storage ∷ []) + f₃ q in
    let f₁ : ℕ → ℕ = λ q. occurrences q (m.cells ∷ []) + f₂ q in
    let f₀ : ℕ → ℕ = λ q. occurrences q m.interfaces + f₁ q in
    let members : (l : List ℕ)
        → ((q : ℕ) → occurrences q l ≡ f₁ q)
        → Leaves f₄ (destroy_members m l) =
      λ l exact.
        let a = free-Leaves m.cells l f₂ exact in
        let b = free-Leaves m.storage a.left f₃ a.exact in
        let c = free-Leaves m.bitmask b.left f₄ b.exact in
        record {
          left = c.left;
          answers = rw (a.answers, destroy_members) (rw b.answers c.answers);
          exact = c.exact;
        } in
    let a = free_mounts-Leaves m.mounts m.live f₀ (λ q. omega (arith, h q)) in
    let b = free_all-Leaves m.interfaces a.left f₁ a.exact in
    let c = members b.left b.exact in
    let d = free-Leaves m.context c.left f₅ c.exact in
    record {
      left = d.left;
      answers = rw (a.answers, destroy) (rw b.answers (rw c.answers d.answers));
      exact = d.exact;
    }
