-- ===== src/TrieTest/Hits.antt =====
-- What the loops count over any table that keeps the keys that it has.
use hashcomp.Common.{ℕ, zero, suc, ◌+◌, ◌*◌, ◌%◌, ◌^◌, ◌≤◌, ◌<◌, ◌≡◌, refl, Bool, true, ◌∙◌, arith}
use native.Mathlib.Decide.{dec_lt}
use native.Mathlib.Nat.{suc-mul, mod-eq_of_lt}
use hashcomp.TrieTest.{
  Store, Counters, insert_loads, count_rounds, store_simple_insert, store_insert_worker,
  store_measure_pass, store_measure_worker,
}

-- What the loops need of a table: an invariant, and which keys an update finds.
pub record KeepsKeys {K T : Type 0} (store : Store K K T) : Type 1 where
  pub IsGood : T → Type 0
  pub has : T → K → Bool
  pub insert_good : (t : T) (k v : K) → IsGood t → IsGood (store.insert t k v).1
  pub insert_self : (t : T) (k v : K) → IsGood t → has (store.insert t k v).1 k ≡ true
  pub insert_other :
      (t : T) (k v j : K) → IsGood t → has t j ≡ true → has (store.insert t k v).1 j ≡ true
  pub update_good : (t : T) (k v : K) → IsGood t → IsGood (store.update t k v).1
  pub update_finds : (t : T) (k v : K) → IsGood t → has t k ≡ true → (store.update t k v).0 ≡ true
  pub update_other :
      (t : T) (k v j : K) → IsGood t → has t j ≡ true → has (store.update t k v).1 j ≡ true

pub count_rounds_lem : (bits n : ℕ) → n < 2 ^ bits → count_rounds bits n ≡ n
unfolding count_rounds
count_rounds_lem bits zero lt = refl
count_rounds_lem bits (suc n) lt =
    let before = count_rounds_lem bits n (omega (arith, lt)) in
    let next : (n + 1) % 2 ^ bits ≡ n + 1 = mod-eq_of_lt (omega (arith, lt)) in
    rw before (next ∙ omega arith)

module _ {K T : Type 0} (store : Store K K T) (loads : ℕ → K) (passes total_count exists_before : ℕ)
    (t : T) where
  abbrev first : T
  first = (store_simple_insert store loads total_count t).1

  abbrev second : T
  second = (store_insert_worker store loads total_count exists_before first).1

  -- `simpleInsert`, then `insertWorker`, then `measureWorker`: what they print or add to their sums
  pub record RunsThrough : Type 0 where
    pub printed : (store_simple_insert store loads total_count t).0 ≡ total_count
    pub exists_after :
        (store_insert_worker store loads total_count exists_before first).0
        ≡ exists_before + total_count
    pub hit :
        (store_measure_worker store loads passes total_count second).hit ≡ passes * total_count
    pub fail : (store_measure_worker store loads passes total_count second).fail ≡ 0

module _ {K T : Type 0} (store : Store K K T) (laws : KeepsKeys store) (loads : ℕ → K) where
  -- The table is good and has the first `n` loads.
  record HasLoads (n : ℕ) (t : T) : Type 0 where
    pub good : laws.IsGood t
    pub all : (i : ℕ) → i < n → laws.has t (loads i) ≡ true

  insert_loads-HasLoads :
      (n : ℕ) (t : T) → laws.IsGood t → HasLoads n (insert_loads store loads n t)
  unfolding insert_loads
  insert_loads-HasLoads zero t good = record { good = good; all = λ i lt. absurd (omega arith) }
  insert_loads-HasLoads (suc n) t good =
      let u = insert_loads store loads n t in
      let h = insert_loads-HasLoads n t good in
      record {
        good = laws.insert_good u (loads n) (loads n) h.good;
        all = λ i lt. elim (dec_lt i n) [
          | yes below ↦ laws.insert_other u (loads n) (loads n) (loads i) h.good (h.all i below)
          | no last ↦
              let e : i ≡ n = omega arith in rw e (laws.insert_self u (loads n) (loads n) h.good)
        ];
      }

  -- So many updates, each of them a hit
  record AllHit (total_count updates : ℕ) (c : Counters T) : Type 0 where
    pub loads_kept : HasLoads total_count c.table
    pub hit : c.hit ≡ updates
    pub fail : c.fail ≡ 0

  measure_pass-AllHit :
      (total_count updates n : ℕ) (c : Counters T)
      → n ≤ total_count
      → updates + n < 2 ^ 64
      → AllHit total_count updates c
      → AllHit total_count (updates + n) (store_measure_pass store loads n c)
  unfolding store_measure_pass
  measure_pass-AllHit total_count updates zero c le room h = record {
    loads_kept = h.loads_kept;
    hit = omega (arith, h.hit);
    fail = h.fail;
  }
  measure_pass-AllHit total_count updates (suc n) c le room h =
      let s = store_measure_pass store loads n c in
      let k = measure_pass-AllHit total_count updates n c (omega arith) (omega arith) h in
      let good = k.loads_kept.good in
      let found =
        laws.update_finds s.table (loads n) (loads n) good (k.loads_kept.all n (omega arith)) in
      let next : (s.hit + 1) % 2 ^ 64 ≡ s.hit + 1 = omega (arith, k.hit) in
      rw found (record {
        loads_kept = record {
          good = laws.update_good s.table (loads n) (loads n) good;
          all = λ i lt.
              laws.update_other s.table (loads n) (loads n) (loads i) good (k.loads_kept.all i lt);
        };
        hit = omega (arith, next, k.hit);
        fail = k.fail;
      })

  measure_worker-AllHit :
      (passes total_count : ℕ) (t : T)
      → passes * total_count < 2 ^ 64
      → HasLoads total_count t
      → AllHit total_count
          (passes * total_count)
          (store_measure_worker store loads passes total_count t)
  unfolding store_measure_worker
  measure_worker-AllHit zero total_count t room h = record {
    loads_kept = h;
    hit = omega arith;
    fail = refl;
  }
  measure_worker-AllHit (suc passes) total_count t room h =
      let more = suc-mul passes total_count in
      rw more (
        measure_pass-AllHit total_count (passes * total_count) total_count
          (store_measure_worker store loads passes total_count t) (omega arith)
          (omega (arith, more))
          (measure_worker-AllHit passes total_count t (omega (arith, more)) h))

  pub store-RunsThrough :
      (passes total_count exists_before : ℕ) (t : T)
      → total_count < 2 ^ 31
      → passes * total_count < 2 ^ 64
      → exists_before + total_count < 2 ^ 64
      → laws.IsGood t
      → RunsThrough store loads passes total_count exists_before t
  unfolding store_simple_insert store_insert_worker
  store-RunsThrough passes total_count exists_before t small room total_room good =
      let first = insert_loads-HasLoads total_count t good in
      let u = insert_loads store loads total_count t in
      let count = count_rounds_lem 64 total_count (omega arith) in
      let measured =
        measure_worker-AllHit passes total_count (insert_loads store loads total_count u) room
          (insert_loads-HasLoads total_count u first.good) in
      record {
        printed = count_rounds_lem 32 total_count (omega arith);
        exists_after = omega (arith, count);
        hit = measured.hit;
        fail = measured.fail;
      }
