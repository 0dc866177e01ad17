-- ===== src/MicroTest/Worker.antt =====
-- `insertWorker`, for keys that may repeat: the insertions that it counts are the items that it adds.
use hashcomp.Common.{
  ℕ, zero, suc, ◌+◌, ◌%◌, ◌^◌, ◌≤◌, ◌<◌, ◌≡◌, inl, inr, true, false, List, ◌==◌, arith, take,
}
use hashcomp.Level.{key_len, LevelHash}
use hashcomp.Level.Insert.{level_insert}
use hashcomp.Level.Items.{items}
use hashcomp.Level.Valid.{IsValid, has_nul}
use hashcomp.Level.Promotion.{level_insert-Insertion}
use hashcomp.Level.Rehashing.{any_entry}
use hashcomp.MicroTest.{Pass, insert_pass, insert_worker}

record Adds (t : LevelHash) (n : ℕ) (s : Pass) : Type 0 where
  pub valid : IsValid s.table
  pub grown : items any_entry s.table ≡ items any_entry t + s.count
  pub most : s.count ≤ n

insert_pass-Adds :
    (keys : ℕ → List ℕ) (n : ℕ) (t : LevelHash)
    → IsValid t
    → ((i : ℕ) → i < n → has_nul (take key_len (keys i)) ≡ true)
    → n < 2 ^ 31
    → Adds t n (insert_pass keys n t)
unfolding insert_pass
insert_pass-Adds keys zero t v ends room = record {
  valid = v;
  grown = omega arith;
  most = omega arith;
}
insert_pass-Adds keys (suc n) t v ends room =
    let s = insert_pass keys n t in
    let h = insert_pass-Adds keys n t v (λ i lt. ends i (omega arith)) (omega arith) in
    elim (level_insert-Insertion h.valid (keys n) (keys n) (ends n (omega arith))) [
      | inl k ↦
          let ok : ((level_insert s.table (keys n) (keys n)).status == 0) ≡ true = ground arith in
          let one = k.items any_entry in
          let next : (s.count + 1) % 2 ^ 32 ≡ s.count + 1 = omega (arith, h.most) in
          rw ok (record {
            valid = k.valid;
            grown = omega (arith, one, next, h.grown);
            most = omega (arith, next, h.most);
          })
      | inr k ↦
          let full : ((level_insert s.table (keys n) (keys n)).status == 0) ≡ false =
            ground arith in
          rw (full, k.table)
            (record { valid = h.valid; grown = h.grown; most = omega (arith, h.most) })
    ]

-- The sum `exists` goes up by the number of items that the table gains.
pub record Counts (t : LevelHash) (exists_before sum : ℕ) (u : LevelHash) : Type 0 where
  pub valid : IsValid u
  pub gained : sum + items any_entry t ≡ exists_before + items any_entry u

pub insert_worker-Counts :
    (loads : ℕ → List ℕ) (n : ℕ) (t : LevelHash) (exists_before : ℕ)
    → IsValid t
    → ((i : ℕ) → i < n → has_nul (take key_len (loads i)) ≡ true)
    → n < 2 ^ 31
    → exists_before + n < 2 ^ 64
    → let (sum, u) = insert_worker loads n t exists_before in Counts t exists_before sum u
unfolding insert_worker
insert_worker-Counts loads n t exists_before v ends few room =
    let h = insert_pass-Adds loads n t v ends few in
    let next : (exists_before + (insert_pass loads n t).count) % 2 ^ 64
        ≡ exists_before + (insert_pass loads n t).count =
      omega (arith, h.most) in
    record { valid = h.valid; gained = omega (arith, next, h.grown) }
