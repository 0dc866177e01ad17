-- ===== src/MicroTest/Levels.antt =====
-- `level_calculate` finds a size with more buckets than there are keys.
use hashcomp.Common.{
  ℕ, zero, suc, ◌+◌, ◌*◌, ◌/◌, ◌^◌, ◌≤◌, ◌<◌, ◌≡◌, ap, ◌∙◌, inl, inr, true, Option, none, some,
  List, ◌==◌, arith, Bool-cases,
}
use hashcomp.Level.Resizing.{pow_grow}
use hashcomp.Level.{LevelHash}
use hashcomp.Level.Resize.{done, Draw, Memory, level_init}
use hashcomp.Level.Start.{Started, all_memory, some_differ, level_init-Started}
use hashcomp.MicroTest.{level_calculate, restart}

-- The number of bits of a count, at least 1
pub record Levels (count ret : ℕ) : Type 0 where
  pub one : 1 ≤ ret
  pub above : count < 2 ^ ret
  pub least : 1 ≤ count → 2 ^ ret ≤ 2 * count

-- 2 ^ m above 1 needs an exponent.
pos_rounds : (m c : ℕ) → 1 ≤ c → c < 2 ^ m → 1 ≤ m
pos_rounds zero c pos lt = absurd (omega arith)
pos_rounds (suc m) c pos lt = omega arith

two_levels : (m c : ℕ) → 2 ≤ c → c < 2 ^ m → 2 ≤ m
two_levels zero c big lt = absurd (omega arith)
two_levels (suc zero) c big lt = absurd (omega arith)
two_levels (suc (suc m)) c big lt = omega arith

pub level_calculate_lem :
    (rounds count : ℕ)
    → 1 ≤ rounds
    → count < 2 ^ rounds
    → (ret : ℕ) × (level_calculate rounds count ≡ some ret) × Levels count ret
unfolding level_calculate
level_calculate_lem zero count some_round lt = absurd (omega arith)
level_calculate_lem (suc rounds) count some_round lt = elim (Bool-cases (count / 2 == 0)) [
  | inl last ↦
      let low : count < 2 = ground arith in
      (
        1,
        rw last,
        record { one = omega arith; above = omega (arith, low); least = λ pos. omega arith },
      )
  | inr more ↦
      let high : 1 ≤ count / 2 = ground arith in
      let half : count / 2 < 2 ^ rounds = omega (arith, pow_grow rounds) in
      let (ret, returns, h) =
        level_calculate_lem rounds (count / 2) (pos_rounds rounds (count / 2) high half) half in
      (
        ret + 1,
        rw (more, returns),
        record {
          one = omega arith;
          above = omega (arith, h.above, pow_grow ret);
          least = λ pos. omega (arith, h.least high, pow_grow ret);
        },
      )
]

restart_at :
    (memory : Memory) (draws : List Draw) (thread_num key_range level_size : ℕ)
    → level_calculate 64 key_range ≡ some level_size
    → restart memory draws thread_num key_range ≡ level_init memory level_size draws thread_num
unfolding restart
restart_at memory draws thread_num key_range level_size h =
    ap (λ (o : Option ℕ). elim o [ none ↦ none | some n ↦ level_init memory n draws thread_num ]) h

-- With memory, draws of seeds that differ and a key_range from 2 below 2 ^ 31, restart makes a
-- valid empty table with a lock for each slot and a top level of more buckets than key_range.
pub restart-Started :
    (key_range thread_num : ℕ) (draws : List Draw)
    → 2 ≤ key_range
    → key_range < 2 ^ 31
    → some_differ draws ≡ true
    → (u : LevelHash) × (level_size : ℕ) × (restart all_memory draws thread_num key_range
        ≡ some (done u))
      × Started u level_size
      × (key_range < 2 ^ level_size)
restart-Started key_range thread_num draws big small differ =
    let (level_size, returns, h) = level_calculate_lem 64 key_range (omega arith) (omega arith) in
    let two : 2 ≤ level_size = two_levels level_size key_range big h.above in
    let (u, starts, started) = level_init-Started level_size thread_num draws two differ in
    (
      u,
      level_size,
      restart_at all_memory draws thread_num key_range level_size returns ∙ starts,
      started,
      h.above,
    )
