-- ===== src/MicroTest.antt =====
-- The passes of tests/LH_MicroTest.cpp over a level hash table, each by one thread that runs alone. A key
-- is the 8 bytes at its pointer.
pub mod Passes
pub mod Simple
pub mod Unique
pub mod Levels
pub mod Measure
pub mod Worker
mod Tests
use hashcomp.Common.{
  ℕ, zero, suc, ◌+◌, ◌*◌, ◌/◌, ◌%◌, ◌^◌, Option, none, some, List, [], ◌∷◌, ◌++◌, ◌==◌, length,
  take, if◌then◌else◌,
}
use hashcomp.Level.{LevelHash, level_query, level_delete, level_update}
use hashcomp.Level.Insert.{level_insert}
use hashcomp.Level.Resize.{Outcome, Draw, Memory, level_init}

-- DEFAULT_KEY_LENGTH
abbrev pub default_key_length : ℕ
default_key_length = 8

-- `level_calculate`: the rounds of `while (count >>= 1)`, and one. `none` if there are more than the given
-- number.
unfoldable pub level_calculate : ℕ → ℕ → Option ℕ
level_calculate zero count = none
level_calculate (suc rounds) count =
    let rest = level_calculate rounds (count / 2) in
    if count / 2 == 0 then some 1 else elim rest [ none ↦ none | some ret ↦ some (ret + 1) ]

-- `restart`, and the first table of `main`. `level_destroy` only frees the old table.
unfoldable pub restart : Memory → List Draw → ℕ → ℕ → Option (Outcome LevelHash)
restart memory draws thread_num key_range = elim (level_calculate 64 key_range) [
  | none ↦ none
  | some level_size ↦ level_init memory level_size draws thread_num
]

-- A counter, the table, and the local buffer for values
pub record Pass : Type 0 where
  pub count : ℕ
  pub table : LevelHash
  pub value : List ℕ

module _ (keys : ℕ → List ℕ) where
  -- The loop of insertions: `inserted` is an `int`.
  unfoldable pub insert_pass : ℕ → LevelHash → Pass
  insert_pass zero t = record { count = 0; table = t; value = [] }
  insert_pass (suc i) t =
      let s = insert_pass i t in
      let r = level_insert s.table (keys i) (keys i) in
      if r.status == 0
      then record s { count = (s.count + 1) % 2 ^ 32; table = r.table }
      else record s { table = r.table }

  -- The loop of queries: `found` is a `uint64_t`.
  unfoldable pub query_pass : ℕ → LevelHash → List ℕ → Pass
  query_pass zero t value = record { count = 0; table = t; value = value }
  query_pass (suc i) t value =
      let s = query_pass i t value in
      let r = level_query s.table (keys i) s.value in
      if r.status == 0
      then record s { count = (s.count + 1) % 2 ^ 64; value = r.value }
      else record s { value = r.value }

  -- The loop of deletions
  unfoldable pub delete_pass : ℕ → LevelHash → Pass
  delete_pass zero t = record { count = 0; table = t; value = [] }
  delete_pass (suc i) t =
      let s = delete_pass i t in
      let r = level_delete s.table (keys i) in
      if r.status == 0
      then record s { count = (s.count + 1) % 2 ^ 64; table = r.table }
      else record s { table = r.table }

-- The three numbers that are printed, and the table at the end
pub record Printed : Type 0 where
  pub inserted : ℕ
  pub found : ℕ
  pub deleted : ℕ
  pub table : LevelHash

-- `simpleInsert`
unfoldable pub simple_insert : (ℕ → List ℕ) → ℕ → LevelHash → List ℕ → Printed
simple_insert loads total_count t value =
    let a = insert_pass loads total_count t in
    let b = query_pass loads total_count a.table value in
    let c = delete_pass loads total_count a.table in
    record { inserted = a.count; found = b.count; deleted = c.count; table = c.table }

-- `insertWorker`: the number of its insertions, added to `exists`
unfoldable pub insert_worker : (ℕ → List ℕ) → ℕ → LevelHash → ℕ → ℕ × LevelHash
insert_worker loads total_count t exists =
    let a = insert_pass loads total_count t in ((exists + a.count) % 2 ^ 64, a.table)

abbrev pub drop : ℕ → List ℕ → List ℕ
drop zero p = p
drop (suc n) [] = []
drop (suc n) (b ∷ p) = drop n p

module _ (digits : ℕ → List ℕ) where
  -- `sprintf(buf, "%d", i)`; `digits` is what the format gives for a number.
  unfoldable pub print_number : List ℕ → ℕ → List ℕ
  print_number buf i = digits i ++ 0 ∷ drop (length (digits i) + 1) buf

  -- `buf` after the loop has printed the number
  unfoldable pub buffer_at : List ℕ → ℕ → List ℕ
  buffer_at buf zero = print_number buf 0
  buffer_at buf (suc i) = print_number (buffer_at buf i) (suc i)

  -- `memcpy(uniques + i * DEFAULT_KEY_LENGTH, buf, DEFAULT_KEY_LENGTH)`
  abbrev pub uniques : List ℕ → ℕ → List ℕ
  uniques buf i = take default_key_length (buffer_at buf i)

  -- `uniqueInsert`
  unfoldable pub unique_insert : ℕ → LevelHash → List ℕ → List ℕ → Printed
  unique_insert total_count t value buf = simple_insert (uniques buf) total_count t value

-- The loop of `measureWorker`, for so many passes until `stopMeasure` is set: `hit` and `fail`
pub record Measured : Type 0 where
  pub hit : ℕ
  pub fail : ℕ
  pub table : LevelHash

-- A pass over the loads. The index is an `int` in the source, which it stays for fewer than 2 ^ 28 loads:
-- their texts stand at `i * DEFAULT_KEY_LENGTH`.
unfoldable pub measure_pass : (ℕ → List ℕ) → ℕ → Measured → Measured
measure_pass loads zero m = m
measure_pass loads (suc i) m =
    let s = measure_pass loads i m in
    let r = level_update s.table (loads i) (loads i) in
    if r.status == 0
    then record s { hit = (s.hit + 1) % 2 ^ 64; table = r.table }
    else record s { fail = (s.fail + 1) % 2 ^ 64; table = r.table }

unfoldable pub measure_worker : ℕ → (ℕ → List ℕ) → ℕ → LevelHash → Measured
measure_worker zero loads total_count t = record { hit = 0; fail = 0; table = t }
measure_worker (suc passes) loads total_count t =
    measure_pass loads total_count (measure_worker passes loads total_count t)
