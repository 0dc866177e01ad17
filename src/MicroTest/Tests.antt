-- ===== src/MicroTest/Tests.antt =====
-- The passes at concrete tables, and each theorem at a concrete input.
use hashcomp.Common.{
  ℕ, suc, ◌+◌, ◌*◌, ◌<◌, ◌^◌, ◌≡◌, refl, none, some, List, [], ◌∷◌, arith, beq, true, take, total,
  ◌==◌, if◌then◌else◌, Bool-cases, inl, inr,
}
use hashcomp.Level.{key_len, LevelHash}
use hashcomp.Level.Valid.{has_nul}
use hashcomp.Level.Resize.{done, Draw}
use hashcomp.Level.Tests.{small, small-Models, key, inserted, inserted-Models, one_key}
use hashcomp.Level.Start.{Started, all_memory}
use hashcomp.MicroTest.{level_calculate, restart, unique_insert, insert_worker, measure_worker}
use hashcomp.MicroTest.Passes.{among}
use hashcomp.MicroTest.Simple.{Restores}
use hashcomp.MicroTest.Unique.{AreNumbers, unique_insert-Restores}
use hashcomp.MicroTest.Levels.{restart-Started}
use hashcomp.MicroTest.Measure.{Measures, measure_worker-Measures}
use hashcomp.MicroTest.Worker.{Counts, insert_worker-Counts}

-- The decimal digit of a number below 10
abbrev digit : ℕ → List ℕ
digit i = suc (47 + i) ∷ []

three_digits : AreNumbers digit 3
unfolding beq
three_digits = record {
  text = λ i lt. refl;
  short = λ i lt. omega arith;
  differ = λ i j ij lt. ground arith;
}

abbrev zeros : List ℕ
zeros = 0 ∷ 0 ∷ 0 ∷ 0 ∷ 0 ∷ 0 ∷ 0 ∷ 0 ∷ []

unique_insert-Restores_example : Restores (λ text. none) 3 (unique_insert digit 3 small zeros zeros)
unique_insert-Restores_example =
    unique_insert-Restores three_digits zeros zeros small-Models (λ i lt. refl) (omega arith)

ten_levels : level_calculate 64 1000 ≡ some 10
unfolding level_calculate
ten_levels = refl

abbrev two_draws : List Draw
two_draws =
    record { f = 5; s = 5; f_shift = 3; s_shift = 3 }
    ∷ record { f = 5; s = 7; f_shift = 3; s_shift = 66 }
    ∷ []

restart-Started_example :
    (u : LevelHash) × (level_size : ℕ) × (restart all_memory two_draws 8 4 ≡ some (done u))
    × Started u level_size
    × (4 < 2 ^ level_size)
restart-Started_example = restart-Started 4 8 two_draws (omega arith) (omega arith) refl

-- One key that the table has, and one that it does not have
abbrev two_loads : ℕ → List ℕ
two_loads i = if i == 0 then key else b'k' ∷ b'2' ∷ 0 ∷ []

measure_worker-Measures_example :
    Measures one_key
      (3 * among two_loads 2 one_key)
      (3 * 2)
      (measure_worker 3 two_loads 2 inserted.table)
measure_worker-Measures_example =
    measure_worker-Measures two_loads one_key 3 2 inserted-Models (omega arith) (omega arith)

one_hit : among two_loads 2 one_key ≡ 1
unfolding total beq
one_hit = refl

two_ends : (i : ℕ) → i < 2 → has_nul (take key_len (two_loads i)) ≡ true
two_ends i lt = elim (Bool-cases (i == 0)) [ inl e ↦ rw e | inr e ↦ rw e ]

insert_worker-Counts_example :
    let (sum, u) = insert_worker two_loads 2 small 5 in Counts small 5 sum u
insert_worker-Counts_example =
    insert_worker-Counts two_loads 2 small 5 small-Models.valid two_ends (omega arith) (omega arith)
