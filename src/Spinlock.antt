-- ===== src/Spinlock.antt =====
-- The spin lock of src/levelhash/spinlock.h, shared by any number of threads: each exchange, load and
-- store of the lock is one step of one thread.
pub mod Exclusion
mod Tests
use hashcomp.Common.{ℕ, ◌≡◌, ◌≢◌, Bool, true, false, update}

abbrev pub busy : ℕ
busy = 1

-- The atomic `xchgb`: what it returns, and the byte after it.
abbrev pub xchg_8 : ℕ → ℕ → ℕ × ℕ
xchg_8 lock x = (lock, x)

-- Where a thread stands.
pub data Pc : Type 0 where
  outside : Pc  -- in none of the functions, without the lock
  exchanging : Pc  -- head of `while (1)` in `spin_lock`
  spinning : Pc  -- `while (*lock) cpu_relax()`
  holding : Pc  -- `spin_lock` has returned, or `spin_trylock` has returned 0

abbrev pub holds : Pc → Bool
holds outside = false
holds exchanging = false
holds spinning = false
holds holding = true

-- One step of a thread: the byte and the place before it and after it.
pub data Move (m : ℕ) : Pc → ℕ → Pc → Type 0 where
  spin_lock : Move m outside m exchanging
  win : (xchg_8 m busy).0 ≡ 0 → Move m exchanging (xchg_8 m busy).1 holding
  lose : (xchg_8 m busy).0 ≢ 0 → Move m exchanging (xchg_8 m busy).1 spinning
  relax : m ≢ 0 → Move m spinning m spinning
  retry : m ≡ 0 → Move m spinning m exchanging
  try_win : (xchg_8 m busy).0 ≡ 0 → Move m outside (xchg_8 m busy).1 holding
  try_lose : (xchg_8 m busy).0 ≢ 0 → Move m outside (xchg_8 m busy).1 outside
  spin_unlock : Move m holding 0 outside

pub record System : Type 0 where
  pub lock : ℕ
  pub pc : ℕ → Pc

pub data Step (s : System) : System → Type 0 where
  pick :
      {m : ℕ} {q : Pc} (i : ℕ)
      → Move s.lock (s.pc i) m q
      → Step s (record { lock = m; pc = update s.pc i q })

-- SPINLOCK_INITIALIZER
abbrev pub init : System
init = record { lock = 0; pc = λ i. outside }

pub data Reach : System → Type 0 where
  start : Reach init
  later : {s t : System} → Reach s → Step s t → Reach t
