-- ===== src/Spinlock/Tests.antt =====
-- The spin lock with two threads: one holds the lock, the other waits; then the first releases it.
use hashcomp.Common.{ℕ, ◌≡◌, refl, true, arith, update, inr, ◌⊎◌, ◌↔◌, false}
use hashcomp.Spinlock.{
  holds, outside, exchanging, spinning, holding, spin_lock, win, lose, spin_unlock, System, pick,
  Reach, start, later,
}
use hashcomp.Spinlock.Exclusion.{Reach-exclusion, StepOf, spin_lock_progress}

abbrev waiting : System
waiting = record {
  lock = 1;
  pc =
      update (update (update (update (λ i. outside) 0 exchanging) 0 holding) 1 exchanging) 1
        spinning;
}

waiting-Reach : Reach waiting
waiting-Reach =
    later (later (later (later start (pick 0 spin_lock)) (pick 0 (win refl))) (pick 1 spin_lock))
      (pick 1 (lose (omega arith)))

Reach-exclusion_example :
    ((i j : ℕ) → holds (waiting.pc i) ≡ true → holds (waiting.pc j) ≡ true → i ≡ j)
    × ((waiting.lock ≡ 1) ↔ ((i : ℕ) × (holds (waiting.pc i) ≡ true)))
Reach-exclusion_example = Reach-exclusion waiting-Reach

abbrev released : System
released = record { lock = 0; pc = update waiting.pc 0 outside }

released-Reach : Reach released
released-Reach = later waiting-Reach (pick 0 spin_unlock)

nobody : (j : ℕ) → holds (released.pc j) ≡ false
nobody j = ground arith

spin_lock_progress_example :
    (t : System) × (StepOf 1 released t ⊎ ((u : System) × StepOf 1 released u × StepOf 1 u t))
    × (t.pc 1 ≡ holding)
spin_lock_progress_example = spin_lock_progress 1 released-Reach nobody (inr refl)
