-- ===== src/TrieTest.antt =====
-- The loops of tests/MH_MicroTest.cpp over one of the tables of src/mhash, each by one thread that runs
-- alone. COUNT_HASH chooses the table; here it is a record of the operations that the loops call.
pub mod Hits
pub mod Basic
mod Tests
use hashcomp.Common.{ℕ, zero, suc, ◌+◌, ◌%◌, ◌^◌, Bool, if◌then◌else◌}

-- `Insert` and `Update` of a table
pub record Store (K V T : Type 0) : Type 0 where
  pub insert : T → K → V → Bool × T
  pub update : T → K → V → Bool × T

-- `hit` and `fail` of `measureWorker`, and the table
pub record Counters (T : Type 0) : Type 0 where
  pub hit : ℕ
  pub fail : ℕ
  pub table : T

-- `inserted++` in each round: an `int` in `simpleInsert`, a `uint64_t` in `insertWorker`
unfoldable pub count_rounds : ℕ → ℕ → ℕ
count_rounds bits zero = 0
count_rounds bits (suc i) = (count_rounds bits i + 1) % 2 ^ bits

module _ {K T : Type 0} (store : Store K K T) (loads : ℕ → K) where
  -- `mhash->Insert(loads[i], loads[i])` for each i: what it returns is not looked at.
  unfoldable pub insert_loads : ℕ → T → T
  insert_loads zero t = t
  insert_loads (suc i) t = (store.insert (insert_loads i t) (loads i) (loads i)).1

  -- `simpleInsert`: the number that it prints, and the table. The set of the loads is not used.
  unfoldable pub store_simple_insert : ℕ → T → ℕ × T
  store_simple_insert total_count t = (count_rounds 32 total_count, insert_loads total_count t)

  -- `insertWorker`: `exists` after it, and the table
  unfoldable pub store_insert_worker : ℕ → ℕ → T → ℕ × T
  store_insert_worker total_count exists t =
      ((exists + count_rounds 64 total_count) % 2 ^ 64, insert_loads total_count t)

  unfoldable pub store_measure_pass : ℕ → Counters T → Counters T
  store_measure_pass zero s = s
  store_measure_pass (suc i) s =
      let c = store_measure_pass i s in
      let (found, t) = store.update c.table (loads i) (loads i) in
      if found
      then record { hit = (c.hit + 1) % 2 ^ 64; fail = c.fail; table = t }
      else record { hit = c.hit; fail = (c.fail + 1) % 2 ^ 64; table = t }

  -- `measureWorker`, for so many passes until `stopMeasure` is set
  unfoldable pub store_measure_worker : ℕ → ℕ → T → Counters T
  store_measure_worker zero total_count t = record { hit = 0; fail = 0; table = t }
  store_measure_worker (suc passes) total_count t =
      store_measure_pass total_count (store_measure_worker passes total_count t)
