-- ===== src/TrieTest/Tests.antt =====
-- The loops over a basic table with 64-bit keys.
use hashcomp.Common.{ℕ, ◌%◌, ◌^◌, ◌<◌, arith}
use hashcomp.Mhash.Basic.{new_basic_table}
use hashcomp.Mhash.BasicMap.{Keys}
use hashcomp.Mhash.Separation.{wide_keys-Keys}
use hashcomp.TrieTest.Hits.{RunsThrough}
use hashcomp.TrieTest.Basic.{basic_store, basic_store-RunsThrough}

-- `std::hash` of a 64-bit number
abbrev identity_hash : ℕ → ℕ
identity_hash k = k % 2 ^ 64

any_keys : Keys identity_hash 4 19 (λ h. h < 2 ^ 64)
any_keys = wide_keys-Keys identity_hash 19 (omega arith) (λ k. omega arith)

-- Loads that repeat
abbrev loads : ℕ → ℕ
loads i = i % 3

basic_store-RunsThrough_example :
    RunsThrough (basic_store identity_hash 4) loads 5 7 2 (new_basic_table 19)
basic_store-RunsThrough_example =
    basic_store-RunsThrough identity_hash 4 18 any_keys loads 5 7 2 (omega arith) (omega arith)
      (omega arith)
