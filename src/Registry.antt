-- ===== src/Registry.antt =====
-- `ThreadRegistry` of src/mhash/universal_hash_table.h, with any number of threads: each load, store and
-- exchange of `usedTID` and `maxTid` is one step of one thread.
pub mod Owners
mod Tests
use hashcomp.Common.{
  ℕ, ◌+◌, ◌-◌, ◌%◌, ◌^◌, ◌≤◌, ◌<◌, ◌≡◌, ◌≢◌, Bool, true, false, Option, none, some, update,
}

abbrev pub registry_max_threads : ℕ
registry_max_threads = 128

-- Where a thread stands. The last field of `checking` is `curMax`, in the form of `max_tid`.
pub data Pc : Type 0 where
  not_assigned : Pc  -- `tl_tcico.tid` is NOT_ASSIGNED
  looking : ℕ → Pc  -- head of the loop over `tid`
  claiming : ℕ → Pc  -- before the exchange of `usedTID[tid]`
  reading : ℕ → Pc  -- before a load of `maxTid`
  checking : ℕ → ℕ → Pc  -- `while (curMax <= tid)`
  registered : ℕ → Pc  -- `tl_tcico.tid` is the number
  too_many : Pc  -- the loop has ended: `assert(false)`

-- `max_tid` is `maxTid` and one more, since that starts at -1.
pub record ThreadRegistry : Type 0 where
  pub used_tid : ℕ → Bool
  pub max_tid : ℕ

-- One step of a thread: the registry and the place before it and after it.
pub data Move (r : ThreadRegistry) : Pc → ThreadRegistry → Pc → Type 0 where
  get_tid : Move r not_assigned r (looking 0)
  in_use :
      {tid : ℕ}
      → tid < registry_max_threads
      → r.used_tid tid ≡ true
      → Move r (looking tid) r (looking (tid + 1))
  unused :
      {tid : ℕ}
      → tid < registry_max_threads
      → r.used_tid tid ≡ false
      → Move r (looking tid) r (claiming tid)
  lose : {tid : ℕ} → r.used_tid tid ≡ true → Move r (claiming tid) r (looking (tid + 1))
  win :
      {tid : ℕ}
      → r.used_tid tid ≡ false
      → Move r (claiming tid) (record r { used_tid = update r.used_tid tid true }) (reading tid)
  run_out : {tid : ℕ} → registry_max_threads ≤ tid → Move r (looking tid) r too_many
  load_max : {tid : ℕ} → Move r (reading tid) r (checking tid r.max_tid)
  raise :
      {tid cur_max : ℕ}
      → cur_max ≤ tid + 1
      → r.max_tid ≡ cur_max
      → Move r (checking tid cur_max) (record r { max_tid = tid + 2 }) (reading tid)
  outrun :
      {tid cur_max : ℕ}
      → cur_max ≤ tid + 1
      → r.max_tid ≢ cur_max
      → Move r (checking tid cur_max) r (reading tid)
  done : {tid cur_max : ℕ} → tid + 1 < cur_max → Move r (checking tid cur_max) r (registered tid)
  -- `~ThreadCheckInCheckOut`, at the end of the thread
  deregister_thread :
      {tid : ℕ}
      → Move r (registered tid) (record r { used_tid = update r.used_tid tid false }) not_assigned

pub record System : Type 0 where
  pub registry : ThreadRegistry
  pub pc : ℕ → Pc

pub data Step (s : System) : System → Type 0 where
  pick :
      {r : ThreadRegistry} {q : Pc} (i : ℕ)
      → Move s.registry (s.pc i) r q
      → Step s (record { registry = r; pc = update s.pc i q })

-- The constructor
abbrev pub init : System
init = record { registry = record { used_tid = λ tid. false; max_tid = 0 }; pc = λ i. not_assigned }

pub data Reach : System → Type 0 where
  start : Reach init
  later : {s t : System} → Reach s → Step s t → Reach t

-- `getMaxThreads`, which converts `maxTid` to 64 bits.
unfoldable pub get_max_threads : ThreadRegistry → ℕ
get_max_threads r = (r.max_tid + 2 ^ 64 - 1) % 2 ^ 64
