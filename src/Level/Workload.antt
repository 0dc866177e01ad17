-- ===== src/Level/Workload.antt =====
-- `ycsb_thread_run` of src/levelhash/level_hashing.c: the requests of one thread, run alone.
use hashcomp.Common.{
  ℕ, zero, suc, ◌+◌, ◌/◌, ◌%◌, ◌^◌, ◌≤◌, ◌<◌, ◌≡◌, refl, true, false, List, ◌==◌, if◌then◌else◌,
  arith, Bool-cases, inl, inr, take,
}
use hashcomp.Level.{key_len, LevelHash}
use hashcomp.Level.Insert.{level_insert}
use hashcomp.Level.Items.{items}
use hashcomp.Level.Valid.{IsValid, has_nul}
use hashcomp.Level.Promotion.{level_insert-Insertion}
use hashcomp.Level.Rehashing.{any_entry}

abbrev pub read_write_num : ℕ
read_write_num = 350000

-- `struct thread_queue`; operation 1 is an insertion, all else a read
pub record ThreadQueue : Type 0 where
  pub key : List ℕ
  pub operation : ℕ

-- `struct sub_thread`, without the handle of the thread
pub record SubThread : Type 0 where
  pub id : ℕ
  pub inserted : ℕ
  pub level : LevelHash
  pub run_queue : ℕ → ThreadQueue

-- The body of the loop. The key is its own value. A read fills a local buffer that nothing uses.
unfoldable pub run_request : SubThread → ThreadQueue → SubThread
run_request s q =
    let r = level_insert s.level q.key q.key in
    if q.operation == 1
    then if r.status == 0
      then record s { level = r.table; inserted = (s.inserted + 1) % 2 ^ 64 }
      else record s { level = r.table }
    else s

-- `for (; i < n; i++)`
unfoldable pub run_requests : ℕ → SubThread → SubThread
run_requests zero s = s
run_requests (suc n) s = run_request (run_requests n s) (s.run_queue n)

-- For a positive `thread_num`: the source's division by 0 is undefined.
unfoldable pub ycsb_thread_run : SubThread → SubThread
ycsb_thread_run s = run_requests (read_write_num / s.level.thread_num) s

-- The count of insertions tells by how many items the table has grown.
pub record Ran (n : ℕ) (s u : SubThread) : Type 0 where
  pub valid : IsValid u.level
  pub counted : items any_entry u.level + s.inserted ≡ items any_entry s.level + u.inserted
  pub most : u.inserted ≤ s.inserted + n

run_request-Ran :
    (n : ℕ) (s u : SubThread) (q : ThreadQueue)
    → Ran n s u
    → s.inserted + suc n < 2 ^ 64
    → has_nul (take key_len q.key) ≡ true
    → Ran (suc n) s (run_request u q)
unfolding run_request
run_request-Ran n s u q h room nul = elim (Bool-cases (q.operation == 1)) [
  | inr read ↦
      rw read (record { valid = h.valid; counted = h.counted; most = omega (arith, h.most) })
  | inl insert ↦ elim (level_insert-Insertion h.valid q.key q.key nul) [
    | inl k ↦
        let ok : ((level_insert u.level q.key q.key).status == 0) ≡ true = ground arith in
        let one = k.items any_entry in
        let next : (u.inserted + 1) % 2 ^ 64 ≡ u.inserted + 1 = omega (arith, h.most) in
        rw (insert, ok)
          (record {
            valid = k.valid;
            counted = omega (arith, one, next, h.counted);
            most = omega (arith, next, h.most);
          })
    | inr k ↦
        let no_room : ((level_insert u.level q.key q.key).status == 0) ≡ false = ground arith in
        rw (insert, no_room, k.table)
          (record { valid = h.valid; counted = h.counted; most = omega (arith, h.most) })
  ]
]

run_requests-Ran :
    (n : ℕ) (s : SubThread)
    → IsValid s.level
    → s.inserted + n < 2 ^ 64
    → ((i : ℕ) → i < n → has_nul (take key_len (s.run_queue i).key) ≡ true)
    → Ran n s (run_requests n s)
unfolding run_requests
run_requests-Ran zero s v room keys = record { valid = v; counted = refl; most = omega arith }
run_requests-Ran (suc n) s v room keys =
    run_request-Ran n s (run_requests n s) (s.run_queue n)
      (run_requests-Ran n s v (omega arith) (λ i lt. keys i (omega arith))) room
      (keys n (omega arith))

-- A thread that runs alone on a valid table with a positive thread_num, with keys that end within
-- KEY_LEN bytes, and with `inserted + READ_WRITE_NUM / thread_num` below 2 ^ 64: the table stays valid,
-- and `inserted` grows by as much as the number of items.
pub ycsb_thread_run-Ran :
    (s : SubThread)
    → IsValid s.level
    → 0 < s.level.thread_num
    → s.inserted + read_write_num / s.level.thread_num < 2 ^ 64
    → ((i : ℕ) → has_nul (take key_len (s.run_queue i).key) ≡ true)
    → Ran (read_write_num / s.level.thread_num) s (ycsb_thread_run s)
unfolding ycsb_thread_run
ycsb_thread_run-Ran s v threads room keys =
    run_requests-Ran (read_write_num / s.level.thread_num) s v room (λ i lt. keys i)
