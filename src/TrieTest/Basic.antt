-- ===== src/TrieTest/Basic.antt =====
-- The loops over `BasicHashTable`, which COUNT_HASH 2 chooses.
use hashcomp.Common.{
  ℕ, suc, ◌*◌, ◌+◌, ◌^◌, ◌<◌, ◌≡◌, refl, sym, ap, ◌∙◌, true, not, Option, none, some, ◌==◌, arith,
  update, Bool-cases, inl, inr, Bool,
}
use hashcomp.Mhash.Basic.{
  BasicHashTable, find_locator, basic_insert, basic_update, basic_get, new_basic_table,
}
use hashcomp.Mhash.BasicInsert.{is_none, keep}
use hashcomp.Mhash.BasicMap.{
  Keys, Models, with_value, Models-basic_insert, Models-basic_update, Models-basic_get,
}
use hashcomp.Mhash.Size.{insert_size, update_size}
use hashcomp.TrieTest.{Store}
use hashcomp.TrieTest.Hits.{KeepsKeys, RunsThrough, store-RunsThrough}

module _ {K : Type 0} where
  -- A value that replaces another leaves no hash without a value.
  kept :
      (m : ℕ → Option (K × K)) (h g : ℕ) (x : Option (K × K))
      → (not (is_none (m h)) ≡ true → not (is_none x) ≡ true)
      → not (is_none (m g)) ≡ true
      → not (is_none (update m h x g)) ≡ true
  kept m h g x ok there = elim (Bool-cases (g == h)) [
    | inl same ↦ let e : g ≡ h = ground arith in rw same (ok (rw e at there))
    | inr other ↦ rw other there
  ]

  put_there :
      (m : ℕ → Option (K × K)) (h : ℕ) (x : Option (K × K))
      → not (is_none x) ≡ true
      → not (is_none (update m h x h)) ≡ true
  put_there m h x ok = let e : (h == h) ≡ true = ground arith in rw e ok

  keep-some : (o : Option (K × K)) (kv : K × K) → not (is_none (keep o kv)) ≡ true
  keep-some none kv = refl
  keep-some (some x) kv = refl

module _ {K : Type 0} (hasher : K → ℕ) (hash_level : ℕ) where
  abbrev pub basic_store : Store K K (BasicHashTable K K)
  basic_store = record {
    insert = basic_insert hasher hash_level;
    update = basic_update hasher hash_level;
  }

  abbrev has_key : BasicHashTable K K → K → Bool
  has_key t key = not (is_none (basic_get hasher hash_level t key))

  module _ {P : ℕ → Type 0} (n : ℕ) (keys : Keys hasher hash_level n P) where
    record Stores (t : BasicHashTable K K) : Type 0 where
      pub level : t.max_level ≡ n
      pub stored : ℕ → Option (K × K)
      pub models : Models hasher hash_level P t stored

    keys_of : {t : BasicHashTable K K} → Stores t → Keys hasher hash_level t.max_level P
    keys_of s = rw (s.level) keys

    has-stored :
        {t : BasicHashTable K K} (s : Stores t) (key : K)
        → has_key t key ≡ not (is_none (s.stored (hasher key)))
    has-stored s key =
        ap (λ o. not (is_none o)) (Models-basic_get hasher hash_level (keys_of s) s.models key)

    inserted :
        (t : BasicHashTable K K) (k v : K)
        → Stores t
        → Stores (basic_insert hasher hash_level t k v).1
    inserted t k v s = record {
      level = (insert_size hasher hash_level t k v).0 ∙ s.level;
      stored = update s.stored (hasher k) (keep (s.stored (hasher k)) (k, v));
      models = (Models-basic_insert hasher hash_level (keys_of s) s.models k v).1;
    }

    updated :
        (t : BasicHashTable K K) (k v : K)
        → Stores t
        → Stores (basic_update hasher hash_level t k v).1
    updated t k v s = record {
      level = (update_size hasher hash_level t k v).0 ∙ s.level;
      stored = update s.stored (hasher k) (with_value hasher hash_level (s.stored (hasher k)) v);
      models = (Models-basic_update hasher hash_level (keys_of s) s.models k v).1;
    }

    with_value_same :
        (o : Option (K × K)) (v : K) → is_none (with_value hasher hash_level o v) ≡ is_none o
    with_value_same none v = refl
    with_value_same (some x) v = refl

    basic_store-KeepsKeys : KeepsKeys basic_store
    unfolding inserted updated
    basic_store-KeepsKeys = record {
      IsGood = Stores;
      has = has_key;
      insert_good = inserted;
      insert_self = λ t k v s.
          has-stored (inserted t k v s) k
          ∙ put_there s.stored (hasher k) _ (keep-some (s.stored (hasher k)) (k, v));
      insert_other = λ t k v j s h.
          has-stored (inserted t k v s) j
          ∙ kept s.stored (hasher k) (hasher j) (keep (s.stored (hasher k)) (k, v))
              (λ there. keep-some (s.stored (hasher k)) (k, v)) (sym (has-stored s j) ∙ h);
      update_good = updated;
      update_finds = λ t k v s h.
          (Models-basic_update hasher hash_level (keys_of s) s.models k v).0
          ∙ sym (has-stored s k)
          ∙ h;
      update_other = λ t k v j s h.
          has-stored (updated t k v s) j
          ∙ kept s.stored (hasher k) (hasher j)
              (with_value hasher hash_level (s.stored (hasher k)) v)
              (λ there. ap not (with_value_same (s.stored (hasher k)) v) ∙ there)
              (sym (has-stored s j) ∙ h);
    }

  -- On a new basic table whose levels tell the hashes of the keys apart, with fewer than 2 ^ 31
  -- loads and sums that stay below 2 ^ 64: simpleInsert prints the number of the loads,
  -- insertWorker adds that number to exists, though its keys are there already, and measureWorker
  -- then counts each update as a hit and none as a failure.
  pub basic_store-RunsThrough :
      {P : ℕ → Type 0} (n : ℕ) (keys : Keys hasher hash_level (suc n) P) (loads : ℕ → K)
      (passes total_count exists_before : ℕ)
      → total_count < 2 ^ 31
      → passes * total_count < 2 ^ 64
      → exists_before + total_count < 2 ^ 64
      → RunsThrough basic_store loads passes total_count exists_before (new_basic_table (suc n))
  unfolding find_locator basic_store-KeepsKeys
  basic_store-RunsThrough n keys loads passes total_count exists_before small room total_room =
      store-RunsThrough basic_store (basic_store-KeepsKeys (suc n) keys) loads passes total_count
        exists_before (new_basic_table (suc n)) small room total_room
        (record {
          level = refl;
          stored = λ g. none;
          models = record { pairs = λ g. refl; placed = λ i. tt };
        })
