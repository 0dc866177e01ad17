-- ===== src/Level/Start.antt =====
-- `generate_seeds` and `level_init`: two different seeds, and a valid table with no items.
use hashcomp.Common.{
  ℕ, ◌+◌, ◌-◌, ◌*◌, ◌^◌, ◌≤◌, ◌<◌, ◌≡◌, ◌≢◌, refl, Bool, true, false, not, ◌||◌, none, some, List,
  [], ◌∷◌, ◌==◌, arith, Bool-cases, ap, ◌∙◌, inl, inr,
}
use native.Mathlib.Nat.{one-le-pow}
use hashcomp.Level.{LevelHash}
use hashcomp.Level.Resize.{done, Draw, shift_seed, generate_seeds, Memory, fresh_table, level_init}
use hashcomp.Level.Items.{items-eq-zero}
use hashcomp.Level.Lookup.{has_key}
use hashcomp.Level.Models.{Models}
use hashcomp.Level.Resizing.{pow_grow}

-- Some round draws two seeds that differ after their shifts.
abbrev pub some_differ : List Draw → Bool
some_differ [] = false
some_differ (d ∷ ds) = not (shift_seed d.f d.f_shift == shift_seed d.s d.s_shift) || some_differ ds

pub record DrawnSeeds (draws : List Draw) : Type 0 where
  pub f : ℕ
  pub s : ℕ
  pub drawn : generate_seeds draws ≡ some (f, s)
  pub differ : f ≢ s
  pub words : (f < 2 ^ 64) × (s < 2 ^ 64)

-- The loop ends as soon as a round draws seeds that differ.
pub generate_seeds-DrawnSeeds : (draws : List Draw) → some_differ draws ≡ true → DrawnSeeds draws
unfolding generate_seeds
generate_seeds-DrawnSeeds [] h = cc
generate_seeds-DrawnSeeds (d ∷ ds) h =
    let f = shift_seed d.f d.f_shift in
    let s = shift_seed d.s d.s_shift in
    elim (Bool-cases (f == s)) [
      | inl same ↦
          let k = generate_seeds-DrawnSeeds ds (rw same at h) in
          record { f = k.f; s = k.s; drawn = rw same k.drawn; differ = k.differ; words = k.words }
      | inr ne ↦ record {
        f = f;
        s = s;
        drawn = rw ne;
        differ = ground arith;
        words = (omega arith, omega arith);
      }
    ]

pub record Started (u : LevelHash) (level_size : ℕ) : Type 0 where
  pub size : u.level_size ≡ level_size
  pub empty : Models u (λ text. none)
  pub seeds : u.f_seed ≢ u.s_seed
  pub locks : (l : ℕ) → u.lock_width l ≡ u.width l

abbrev pub all_memory : Memory
all_memory = record { table = true; top = true; bottom = true }

-- The new table is valid and has no items.
pub fresh_table-Models :
    (n thread_num f s : ℕ) → 2 ≤ n → Models (fresh_table n thread_num f s) (λ text. none)
fresh_table-Models n thread_num f s big =
    let low : n ≡ n - 1 + 1 = omega arith in
    let lower : n - 1 ≡ n - 2 + 1 = omega arith in
    let half : 2 ^ n ≡ 2 * 2 ^ (n - 1) = ap (λ (m : ℕ). 2 ^ m) low ∙ pow_grow (n - 1) in
    let quarter : 2 ^ (n - 1) ≡ 2 * 2 ^ (n - 2) = ap (λ (m : ℕ). 2 ^ m) lower ∙ pow_grow (n - 2) in
    let positive : 0 < 2 ^ (n - 2) = one-le-pow (n - 2) 2 (omega arith) in
    record {
      valid = record {
        big = big;
        capacity = refl;
        large = omega (arith, half, quarter, positive);
        top = refl;
        bottom = omega (arith, half);
        slots = λ p r. (omega arith, λ e. absurd (omega arith));
      };
      agrees = λ text. items-eq-zero (has_key text) (fresh_table n thread_num f s) (λ p r. refl);
    }

-- With all allocations made, from size 2 on, and draws that give different seeds, `level_init`
-- returns a valid table of that size with no items, different seeds, and a lock for each slot.
pub level_init-Started :
    (level_size thread_num : ℕ) (draws : List Draw)
    → 2 ≤ level_size
    → some_differ draws ≡ true
    → (u : LevelHash) × (level_init all_memory level_size draws thread_num ≡ some (done u))
      × Started u level_size
unfolding level_init
level_init-Started n thread_num draws big h =
    let k = generate_seeds-DrawnSeeds draws h in
    (
      fresh_table n thread_num k.f k.s,
      rw k.drawn,
      record {
        size = refl;
        empty = fresh_table-Models n thread_num k.f k.s big;
        seeds = k.differ;
        locks = λ l. refl;
      },
    )
