-- ===== src/Level/Items.antt =====
-- The number of stored items that pass a test, and how one write changes it.
use hashcomp.Common.{
  ℕ, ◌+◌, ◌≤◌, ◌<◌, ◌≡◌, ◌≢◌, Bool, List, ◌&&◌, ◌==◌, ap, update, take, arith, to_ℕ, total,
  total_change, total-eq-zero, le-total, pair-le-total, total_mono, true,
}
use native.Mathlib.Decide.{dec_lt}
use hashcomp.Level.{
  Entry, Bucket, LevelHash, Pos, token_at, entry_at, value_len, set_bucket, store, clear, fill,
  empty, write_value,
}

-- 1 if slot `j` is full and its entry passes the test
abbrev pub weight : (Entry → Bool) → Bucket → ℕ → ℕ
weight q b j = to_ℕ (b.token j == 1 && q (b.slot j))

pub bucket_items : (Entry → Bool) → Bucket → ℕ
bucket_items q b = total 4 (weight q b)

-- The items in the first `n` buckets of an array.
pub array_items : (Entry → Bool) → ℕ → (ℕ → Bucket) → ℕ
array_items q n f = total n (λ i. bucket_items q (f i))

abbrev pub level_items : (Entry → Bool) → LevelHash → ℕ → ℕ
level_items q t l = array_items q (t.width l) (t.buckets l)

-- The items in the two levels whose entry passes the test.
unfoldable pub items : (Entry → Bool) → LevelHash → ℕ
items q t = level_items q t 0 + level_items q t 1

-- `p` lies in the memory of a table of these widths.
pub record InRange (width : ℕ → ℕ) (p : Pos) : Type 0 where
  pub level_lt : p.level < 2
  pub idx_lt : p.idx < width p.level
  pub slot_lt : p.slot < 4

abbrev pub weight_at : (Entry → Bool) → LevelHash → Pos → ℕ
weight_at q t p = weight q (t.buckets p.level p.idx) p.slot

module _ (q : Entry → Bool) where
  bucket_items_change :
      (b c : Bucket) (j : ℕ)
      → j < 4
      → ((k : ℕ) → k ≢ j → weight q b k ≡ weight q c k)
      → bucket_items q b + weight q c j ≡ bucket_items q c + weight q b j
  unfolding bucket_items
  bucket_items_change b c j lt h = total_change 4 j (weight q b) (weight q c) lt h

  pub bucket_items-fill :
      (b : Bucket) (j : ℕ) (e : Entry)
      → j < 4
      → bucket_items q (fill b j e) + weight q b j ≡ bucket_items q b + to_ℕ (q e)
  bucket_items-fill b j e lt =
      let w : weight q (fill b j e) j ≡ to_ℕ (q e) = ground arith in
      omega (arith, w, bucket_items_change b (fill b j e) j lt (λ k ne. ground arith))

  pub bucket_items-empty :
      (b : Bucket) (j : ℕ) → j < 4 → bucket_items q (empty b j) + weight q b j ≡ bucket_items q b
  bucket_items-empty b j lt =
      let w : weight q (empty b j) j ≡ 0 = ground arith in
      omega (arith, w, bucket_items_change b (empty b j) j lt (λ k ne. ground arith))

  weight-le-bucket_items : (b : Bucket) (j : ℕ) → j < 4 → weight q b j ≤ bucket_items q b
  unfolding bucket_items
  weight-le-bucket_items b j lt = le-total 4 j (weight q b) lt

  -- A bucket in which all four slots count.
  pub bucket_items_full : (b : Bucket) → ((j : ℕ) → j < 4 → weight q b j ≡ 1) → bucket_items q b ≡ 4
  unfolding bucket_items total
  bucket_items_full b h =
      omega (arith, h 0 (omega arith), h 1 (omega arith), h 2 (omega arith), h 3 (omega arith))

  pub array_items-update :
      (n : ℕ) (f : ℕ → Bucket) (i : ℕ) (b : Bucket)
      → i < n
      → array_items q n (update f i b) + bucket_items q (f i) ≡ array_items q n f + bucket_items q b
  unfolding array_items
  array_items-update n f i b lt =
      let here : update f i b i ≡ b = ground arith in
      let change =
        total_change n i (λ j. bucket_items q (update f i b j)) (λ j. bucket_items q (f j)) lt
          (λ j ne. ap (bucket_items q) (let e : update f i b j ≡ f j = ground arith in e)) in
      omega (arith, change, ap (bucket_items q) here)

  pub array_items-eq-zero :
      (n : ℕ) (f : ℕ → Bucket)
      → ((i j : ℕ) → i < n → j < 4 → weight q (f i) j ≡ 0)
      → array_items q n f ≡ 0
  unfolding array_items bucket_items
  array_items-eq-zero n f h =
      total-eq-zero n _ (λ i lt. total-eq-zero 4 _ (λ j small. h i j lt small))

  pub pair-le-array_items :
      (n : ℕ) (f : ℕ → Bucket) (i j : ℕ)
      → i < j
      → j < n
      → bucket_items q (f i) + bucket_items q (f j) ≤ array_items q n f
  unfolding array_items
  pair-le-array_items n f i j ij lt = pair-le-total n i j (λ k. bucket_items q (f k)) ij lt

  pub weight-le-array_items :
      (n : ℕ) (f : ℕ → Bucket) (i j : ℕ) → i < n → j < 4 → weight q (f i) j ≤ array_items q n f
  unfolding array_items
  weight-le-array_items n f i j lt small =
      omega
        (arith, weight-le-bucket_items (f i) j small, le-total n i (λ k. bucket_items q (f k)) lt)

  module _ (t : LevelHash) (l i : ℕ) (b : Bucket) where
    level_items_set_self :
        i < t.width l
        → level_items q (set_bucket t l i b) l + bucket_items q (t.buckets l i)
          ≡ level_items q t l + bucket_items q b
    level_items_set_self lt =
        let here : (set_bucket t l i b).buckets l ≡ update (t.buckets l) i b = ground arith in
        rw here (array_items-update (t.width l) (t.buckets l) i b lt)

    level_items_set_ne : (k : ℕ) → k ≢ l → level_items q (set_bucket t l i b) k ≡ level_items q t k
    level_items_set_ne k ne =
        let here : (set_bucket t l i b).buckets k ≡ t.buckets k = ground arith in
        ap (array_items q (t.width k)) here

    pub items-set_bucket :
        l < 2
        → i < t.width l
        → items q (set_bucket t l i b) + bucket_items q (t.buckets l i)
          ≡ items q t + bucket_items q b
    unfolding items
    items-set_bucket low lt = elim (dec_lt l 1) [
      | yes z ↦
          let e : l ≡ 0 = omega arith in
          ground (arith, level_items_set_self lt, level_items_set_ne 1)
      | no o ↦
          let e : l ≡ 1 = omega arith in
          ground (arith, level_items_set_self lt, level_items_set_ne 0)
    ]

  level_items-le : (t : LevelHash) (l : ℕ) → l < 2 → level_items q t l ≤ items q t
  unfolding items
  level_items-le t l lt = elim (dec_lt l 1) [
    | yes z ↦ let e : l ≡ 0 = omega arith in rw e (omega arith)
    | no o ↦ let e : l ≡ 1 = omega arith in rw e (omega arith)
  ]

  bucket-le-level :
      (t : LevelHash) (l i : ℕ) → i < t.width l → bucket_items q (t.buckets l i) ≤ level_items q t l
  unfolding array_items
  bucket-le-level t l i lt = le-total (t.width l) i (λ k. bucket_items q (t.buckets l k)) lt

  -- A full slot whose entry passes the test is counted.
  pub weight-le-items : (t : LevelHash) (p : Pos) → InRange t.width p → weight_at q t p ≤ items q t
  weight-le-items t p r = omega (
    arith,
    weight-le-bucket_items (t.buckets p.level p.idx) p.slot r.slot_lt,
    bucket-le-level t p.level p.idx r.idx_lt,
    level_items-le t p.level r.level_lt,
  )

  pub items-store :
      (t : LevelHash) (p : Pos) (e : Entry)
      → InRange t.width p
      → items q (store t p e) + weight_at q t p ≡ items q t + to_ℕ (q e)
  unfolding store
  items-store t p e r =
      let b = t.buckets p.level p.idx in
      omega (
        arith,
        bucket_items-fill b p.slot e r.slot_lt,
        items-set_bucket t p.level p.idx (fill b p.slot e) r.level_lt r.idx_lt,
      )

  pub items-clear :
      (t : LevelHash) (p : Pos)
      → InRange t.width p
      → items q (clear t p) + weight_at q t p ≡ items q t
  unfolding clear
  items-clear t p r =
      let b = t.buckets p.level p.idx in
      omega (
        arith,
        bucket_items-empty b p.slot r.slot_lt,
        items-set_bucket t p.level p.idx (empty b p.slot) r.level_lt r.idx_lt,
      )

  -- An update of a full slot replaces one item by another.
  pub items-write_value :
      (t : LevelHash) (p : Pos) (value : List ℕ)
      → InRange t.width p
      → token_at t p ≡ 1
      → items q (write_value t p value) + to_ℕ (q (entry_at t p))
        ≡ items q t + to_ℕ (q (record (entry_at t p) { value = take value_len value }))
  unfolding write_value
  items-write_value t p value r full =
      let b = t.buckets p.level p.idx in
      let c : Bucket = record b {
        slot = update b.slot p.slot (record (b.slot p.slot) { value = take value_len value });
      } in
      let old : weight q b p.slot ≡ to_ℕ (q (b.slot p.slot)) = ground arith in
      let new : weight q c p.slot
          ≡ to_ℕ (q (record (b.slot p.slot) { value = take value_len value })) =
        ground arith in
      omega (
        arith,
        old,
        new,
        bucket_items_change b c p.slot r.slot_lt (λ k ne. ground arith),
        items-set_bucket t p.level p.idx c r.level_lt r.idx_lt,
      )

  -- No item passes a test that every full slot fails.
  pub items-eq-zero :
      (t : LevelHash) → ((p : Pos) → InRange t.width p → weight_at q t p ≡ 0) → items q t ≡ 0
  unfolding items
  items-eq-zero t h = omega (arith, level 0 (omega arith), level 1 (omega arith))
    where
      level : (l : ℕ) → l < 2 → level_items q t l ≡ 0
      level l low = array_items-eq-zero (t.width l) (t.buckets l) (λ i j lt small.
          h (record { level = l; idx = i; slot = j })
            (record { level_lt = low; idx_lt = lt; slot_lt = small }))

-- A stronger test counts no more items.
pub items_mono :
    (q r : Entry → Bool) (t : LevelHash)
    → ((e : Entry) → q e ≡ true → r e ≡ true)
    → items q t ≤ items r t
unfolding items array_items bucket_items
items_mono q r t h = omega (arith, level 0, level 1)
  where
    level : (l : ℕ) → level_items q t l ≤ level_items r t l
    level l =
        total_mono (t.width l) _ _
          (λ i. total_mono 4 _ _ (λ j. ground (arith, h ((t.buckets l i).slot j))))
