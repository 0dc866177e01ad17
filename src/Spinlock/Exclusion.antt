-- ===== src/Spinlock/Exclusion.antt =====
-- The spin lock: one holder at most, and a free lock is taken.
use hashcomp.Common.{
  ℕ, ◌<◌, ◌≡◌, ◌≢◌, refl, true, false, ◌==◌, arith, update, Bool-cases, inl, inr, ◌⊎◌, ◌↔◌,
}
use mathlib.Core.Bool.{false≢true}
use hashcomp.Spinlock.{
  busy, Pc, outside, exchanging, spinning, holding, holds, Move, spin_lock, win, lose, relax, retry,
  try_win, try_lose, spin_unlock, System, pick, Reach, start, later,
}

pub record Inv (m : ℕ) (pc : ℕ → Pc) : Type 0 where
  pub byte : m < 2
  pub unique : (i j : ℕ) → holds (pc i) ≡ true → holds (pc j) ≡ true → i ≡ j
  pub set : (i : ℕ) → holds (pc i) ≡ true → m ≡ 1
  pub owned : m ≡ 1 → (i : ℕ) × (holds (pc i) ≡ true)

module _ {m : ℕ} {pc : ℕ → Pc} (i : ℕ) (v : Inv m pc) where
  -- A thread without the lock moves to another place without it, while the byte stays.
  outside-Inv :
      {n : ℕ} (q : Pc) → n ≡ m → holds (pc i) ≡ false → holds q ≡ false → Inv n (update pc i q)
  outside-Inv q same before after =
      let other : (j : ℕ) → holds (update pc i q j) ≡ true → holds (pc j) ≡ true =
        λ j h. ground arith in
      let kept : (j : ℕ) → holds (pc j) ≡ true → holds (update pc i q j) ≡ true =
        λ j h. ground arith in
      record {
        byte = omega (arith, v.byte);
        unique = λ j k hj hk. v.unique j k (other j hj) (other k hk);
        set = λ j hj. omega (arith, v.set j (other j hj));
        owned = λ e. let (j, h) = v.owned (omega arith) in (j, kept j h);
      }

  -- A thread finds the byte at 0 and sets it.
  win-Inv : m ≡ 0 → Inv busy (update pc i holding)
  win-Inv free =
      let only : (j : ℕ) → holds (update pc i holding j) ≡ true → j ≡ i =
        λ j h. ground (arith, v.set j) in
      record {
        byte = omega arith;
        unique = λ j k hj hk. omega (arith, only j hj, only k hk);
        set = λ j hj. refl;
        owned = λ e. (i, ground arith);
      }

  unlock-Inv : holds (pc i) ≡ true → Inv 0 (update pc i outside)
  unlock-Inv held =
      let nobody : (j : ℕ) → holds (update pc i outside j) ≡ true → ⊥ =
        λ j h. ground (arith, v.unique j i) in
      record {
        byte = omega arith;
        unique = λ j k hj hk. absurd (nobody j hj);
        set = λ j hj. absurd (nobody j hj);
        owned = λ e. absurd (omega arith);
      }

pub Move-Inv :
    {m n : ℕ} {pc : ℕ → Pc} {p q : Pc} (i : ℕ)
    → Move m p n q
    → pc i ≡ p
    → Inv m pc
    → Inv n (update pc i q)
Move-Inv i spin_lock at v = outside-Inv i v _ refl (rw at refl) refl
Move-Inv i (win free) at v = win-Inv i v free
Move-Inv i (lose taken) at v = outside-Inv i v _ (omega (arith, v.byte)) (rw at refl) refl
Move-Inv i (relax taken) at v = outside-Inv i v _ refl (rw at refl) refl
Move-Inv i (retry free) at v = outside-Inv i v _ refl (rw at refl) refl
Move-Inv i (try_win free) at v = win-Inv i v free
Move-Inv i (try_lose taken) at v = outside-Inv i v _ (omega (arith, v.byte)) (rw at refl) refl
Move-Inv i spin_unlock at v = unlock-Inv i v (rw at refl)

pub Reach-Inv : {s : System} → Reach s → Inv s.lock s.pc
Reach-Inv start = record {
  byte = omega arith;
  unique = λ i j hi hj. absurd (false≢true hi);
  set = λ i hi. absurd (false≢true hi);
  owned = λ e. absurd (omega arith);
}
Reach-Inv (later r (pick i mv)) = Move-Inv i mv refl (Reach-Inv r)

-- In each state that threads reach by any interleaving of their steps, at most one holds the lock,
-- and the byte is 1 exactly if one does.
pub Reach-exclusion :
    {s : System}
    → Reach s
    → ((i j : ℕ) → holds (s.pc i) ≡ true → holds (s.pc j) ≡ true → i ≡ j)
      × ((s.lock ≡ 1) ↔ ((i : ℕ) × (holds (s.pc i) ≡ true)))
Reach-exclusion r = let v = Reach-Inv r in (v.unique, (v.owned, λ (i, h). v.set i h))

free_of_nobody : {m : ℕ} {pc : ℕ → Pc} → Inv m pc → ((j : ℕ) → holds (pc j) ≡ false) → m ≡ 0
free_of_nobody {m} {pc} v nobody = elim (Bool-cases (m == 1)) [
  | inl set ↦ let (j, h) = v.owned (ground arith) in ground (arith, nobody j)
  | inr clear ↦ let ne : m ≢ 1 = ground arith in omega (arith, v.byte)
]

-- A step of the thread `i`
pub data StepOf (i : ℕ) (s : System) : System → Type 0 where
  own :
      {m : ℕ} {q : Pc}
      → Move s.lock (s.pc i) m q
      → StepOf i s (record { lock = m; pc = update s.pc i q })

-- From each reachable state in which no thread holds the lock, a thread inside `spin_lock` can take
-- it by one or two steps of its own.
pub spin_lock_progress :
    {s : System} (i : ℕ)
    → Reach s
    → ((j : ℕ) → holds (s.pc j) ≡ false)
    → (s.pc i ≡ exchanging) ⊎ (s.pc i ≡ spinning)
    → (t : System) × (StepOf i s t ⊎ ((u : System) × StepOf i s u × StepOf i u t))
      × (t.pc i ≡ holding)
spin_lock_progress {s} i r nobody inside =
    let v = Reach-Inv r in
    let free : s.lock ≡ 0 = free_of_nobody v nobody in
    elim inside [
      | inl at ↦ (
        record { lock = busy; pc = update s.pc i holding },
        inl (own (rw at (win free))),
        ground arith,
      )
      | inr at ↦
          let u : System = record { lock = s.lock; pc = update s.pc i exchanging } in
          let there : u.pc i ≡ exchanging = ground arith in
          (
            record { lock = busy; pc = update u.pc i holding },
            inr (u, own (rw at (retry free)), own (rw there (win free))),
            ground arith,
          )
    ]
