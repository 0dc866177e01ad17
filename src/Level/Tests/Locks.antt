-- ===== src/Level/Tests/Locks.antt =====
-- Level hashing at concrete keys: the lock discipline, the two ways to lose it or a key, and the
-- requests of a thread.
use hashcomp.Common.{ℕ, ◌≡◌, refl, List, [], ◌∷◌, true, arith, beq}
use hashcomp.StringHash.{hash}
use hashcomp.Level.{c_str, f_hash, s_hash, f_idx, s_idx, slots_of, slots_of_pair, walk, level_query}
use hashcomp.Level.Insert.{insert_order, level_insert}
use hashcomp.Level.Resize.{level_resize, fresh_table}
use hashcomp.Level.Start.{fresh_table-Models}
use hashcomp.Level.Items.{items}
use hashcomp.Level.Quiet.{HasLocks, IsQuiet}
use hashcomp.Level.Discipline.{level_insert-IsQuiet}
use hashcomp.Level.Beyond.{TakesBeyond, resize_then_query_beyond}
use hashcomp.Level.Lookup.{has_key}
use hashcomp.Level.Rehashing.{Ensures, Crowded}
use hashcomp.Level.FullKey.{full_key_lost}
use hashcomp.Level.Workload.{SubThread, Ran, ycsb_thread_run, ycsb_thread_run-Ran}
use hashcomp.Level.Tests.{small, small-Models, key, value, zero_value}

small-HasLocks : HasLocks small
small-HasLocks = record { valid = small-Models.valid; locks = λ l. omega arith }

level_insert-IsQuiet_example : IsQuiet small-HasLocks (level_insert small key value).events
unfolding beq
level_insert-IsQuiet_example = level_insert-IsQuiet small-HasLocks key value refl

resize_then_query_beyond_example :
    Ensures
      (Crowded 2 (small.buckets 1))
      (λ u.
        (text buffer : List ℕ)
        → items (has_key (c_str text)) u ≡ 0
        → TakesBeyond u (level_query u text buffer).events)
      (level_resize true small)
resize_then_query_beyond_example = resize_then_query_beyond small-Models.valid refl

-- Eight bytes and the NUL.
abbrev full_key : List ℕ
full_key = b'u' ∷ b's' ∷ b'e' ∷ b'r' ∷ b'0' ∷ b'0' ∷ b'0' ∷ b'1' ∷ 0 ∷ []

full_key_lost_example :
    ((level_insert small full_key value).status ≡ 0)
    × ((level_query (level_insert small full_key value).table full_key zero_value).status ≡ 1)
unfolding hash f_hash s_hash f_idx s_idx slots_of slots_of_pair walk insert_order beq
full_key_lost_example =
    full_key_lost small full_key value refl (omega arith) (λ p. refl)
      (record { level = 0; idx = 0; slot = 0 }) zero_value refl

-- Few requests for each of many threads.
abbrev one_thread : SubThread
one_thread = record {
  id = 0;
  inserted = 0;
  level = fresh_table 2 100000 40 56;
  run_queue = λ i. record { key = key; operation = 1 };
}

ycsb_thread_run-Ran_example : Ran 3 one_thread (ycsb_thread_run one_thread)
unfolding beq
ycsb_thread_run-Ran_example =
    ycsb_thread_run-Ran one_thread (fresh_table-Models 2 100000 40 56 (omega arith)).valid
      (omega arith) (omega arith) (λ i. refl)
