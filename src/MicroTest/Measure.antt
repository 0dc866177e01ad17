-- ===== src/MicroTest/Measure.antt =====
-- `measureWorker`: its counters tell how many of its updates have found their key.
use hashcomp.Common.{
  ℕ, zero, suc, ◌+◌, ◌*◌, ◌%◌, ◌^◌, ◌<◌, ◌≡◌, refl, ◌∙◌, inl, inr, Option, none, some, List, arith,
  take, beq, beq_eq, Bool-cases, total,
}
use native.Mathlib.Nat.{suc-mul}
use hashcomp.Level.{value_len, LevelHash}
use hashcomp.Level.Models.{Map, put, Models}
use hashcomp.Level.Changes.{replaced, Models-update}
use hashcomp.MicroTest.{Measured, measure_pass, measure_worker}
use hashcomp.MicroTest.Passes.{present, among, text, reported}

-- The table stores a map with the same keys as `f`, and of so many updates so many have found their key.
pub record Measures (f : Map) (hits updates : ℕ) (m : Measured) : Type 0 where
  pub stored : Map
  pub models : Models m.table stored
  pub keys : (other : List ℕ) → present (stored other) ≡ present (f other)
  pub hit : m.hit ≡ hits
  pub all : m.hit + m.fail ≡ updates

present-replaced : (o : Option (List ℕ)) (v : List ℕ) → present (replaced o v) ≡ present o
present-replaced none v = refl
present-replaced (some w) v = refl

present-put :
    (g : Map) (key v other : List ℕ)
    → present (put g key (replaced (g key) v) other) ≡ present (g other)
present-put g key v other = elim (Bool-cases (beq other key)) [
  | inl same ↦ rw (same, beq_eq other key same) (present-replaced (g key) v)
  | inr apart ↦ rw apart
]

module _ (loads : ℕ → List ℕ) (f : Map) where
  measure_pass-Measures :
      (n hits updates : ℕ) (m : Measured)
      → Measures f hits updates m
      → updates + n < 2 ^ 64
      → Measures f (hits + among loads n f) (updates + n) (measure_pass loads n m)
  unfolding measure_pass total
  measure_pass-Measures zero hits updates m h room = record {
    stored = h.stored;
    models = h.models;
    keys = h.keys;
    hit = omega (arith, h.hit);
    all = omega (arith, h.all);
  }
  measure_pass-Measures (suc n) hits updates m h room =
      let s = measure_pass loads n m in
      let k = measure_pass-Measures n hits updates m h (omega arith) in
      let (status, models) = Models-update k.models (loads n) (loads n) in
      let key = text loads n in
      let same : (other : List ℕ)
          → present (put k.stored key (replaced (k.stored key) (take value_len (loads n))) other)
            ≡ present (f other) =
        λ other. present-put k.stored key (take value_len (loads n)) other ∙ k.keys other in
      let hit_next : (s.hit + 1) % 2 ^ 64 ≡ s.hit + 1 = omega (arith, k.all) in
      let fail_next : (s.fail + 1) % 2 ^ 64 ≡ s.fail + 1 = omega (arith, k.all) in
      elim (reported (k.stored key) status) [
        | inl (ok, has) ↦ rw ok (record {
          stored = _;
          models = models;
          keys = same;
          hit = omega (arith, hit_next, k.hit, has, k.keys key);
          all = omega (arith, hit_next, k.all);
        })
        | inr (missed, has) ↦ rw missed (record {
          stored = _;
          models = models;
          keys = same;
          hit = omega (arith, k.hit, has, k.keys key);
          all = omega (arith, fail_next, k.all);
        })
      ]

  -- Alone on a table that stores a map, with fewer than 2 ^ 28 loads, for which the index of the text
  -- stays an int, and fewer than 2 ^ 64 updates in all, measureWorker counts as hits, in each pass, the loads that are keys of the map, counts all other loads as
  -- failures, and leaves a table that stores a map with the same keys.
  pub measure_worker-Measures :
      (passes n : ℕ) {t : LevelHash}
      → Models t f
      → n < 2 ^ 28
      → passes * n < 2 ^ 64
      → Measures f (passes * among loads n f) (passes * n) (measure_worker passes loads n t)
  unfolding measure_worker
  measure_worker-Measures zero n m few room = record {
    stored = f;
    models = m;
    keys = λ other. refl;
    hit = omega arith;
    all = omega arith;
  }
  measure_worker-Measures (suc passes) n {t} m few room =
      let more = suc-mul passes n in
      let before = measure_worker-Measures passes n m few (omega (arith, more)) in
      let h =
        measure_pass-Measures n (passes * among loads n f) (passes * n)
          (measure_worker passes loads n t) before (omega (arith, more)) in
      rw (suc-mul passes (among loads n f), more) h
