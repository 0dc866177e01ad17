-- ===== src/Level/Resizing.antt =====
-- `level_resize` keeps the items of a valid table.
use hashcomp.Common.{
  ℕ, zero, suc, ◌+◌, ◌-◌, ◌*◌, ◌/◌, ◌^◌, ◌≤◌, ◌<◌, ◌≡◌, refl, Bool, true, arith, ap, ◌∙◌, sym,
}
use native.Mathlib.Numerals.{towards_suc}
use hashcomp.Level.{Entry, Bucket, LevelHash, token_at, entry_at, f_hash, s_hash}
use hashcomp.Level.Resize.{zeroed, Rehash, rehash_bucket, rehash_all, resized, level_resize}
use hashcomp.Level.Items.{InRange, array_items, array_items-eq-zero, items}
use hashcomp.Level.Valid.{IsValid, IsSlot}
use hashcomp.Level.Lookup.{has_key}
use hashcomp.Level.Models.{Map, has_other, Agrees-same, Models}
use hashcomp.Level.Rehashing.{
  Crowded, map-Ensures, Ensures, bind-Ensures, IsRehash, rehash_slot-IsRehash,
}

module _ (t : LevelHash) (n : ℕ) (old : ℕ → Bucket) (large : 2 ≤ t.addr_capacity) where
  rehash_bucket-IsRehash :
      (b : ℕ) (r : Rehash)
      → b < n
      → IsRehash t n old (4 * b + 0) r
      → Ensures (Crowded n old) (IsRehash t n old (4 * b + 4)) (rehash_bucket t r b)
  unfolding rehash_bucket
  rehash_bucket-IsRehash b r lt h =
      let P = λ (i : ℕ). IsRehash t n old (4 * b + i) in
      let slot =
        λ (i : ℕ) (lt' : i < 4) (s : Rehash). rehash_slot-IsRehash t n old large s b i lt lt' in
      bind-Ensures (Crowded n old) (P 1) (P 4) _ _ (slot 0 (omega arith) r h) (λ r0 h0.
        bind-Ensures (Crowded n old) (P 2) (P 4) _ _ (slot 1 (omega arith) r0 h0) (λ r1 h1.
          bind-Ensures (Crowded n old) (P 3) (P 4) _ _ (slot 2 (omega arith) r1 h1)
            (λ r2 h2. slot 3 (omega arith) r2 h2)))

  rehash_all-IsRehash :
      (k : ℕ) (r : Rehash)
      → k ≤ n
      → IsRehash t n old 0 r
      → Ensures (Crowded n old) (IsRehash t n old (4 * k)) (rehash_all t k r)
  unfolding rehash_all
  rehash_all-IsRehash zero r le h = h
  rehash_all-IsRehash (suc k) r le h =
      let start : 4 * k ≡ 4 * k + 0 = omega arith in
      let end' : 4 * suc k ≡ 4 * k + 4 = omega arith in
      rw end' (
        bind-Ensures (Crowded n old) (IsRehash t n old (4 * k)) (IsRehash t n old (4 * k + 4)) _ _
          (rehash_all-IsRehash k r (omega arith) h)
          (λ r' h'. rehash_bucket-IsRehash k r' (omega arith) (rw start at h')))

pub pow_grow : (n : ℕ) → 2 ^ (n + 1) ≡ 2 * 2 ^ n
pow_grow n = simp towards_suc (omega arith)

-- The new table is valid, its size has grown by one and its capacity has doubled, the arrays of locks
-- are the old ones, and each test counts as many items as before.
pub record Resized (t u : LevelHash) : Type 0 where
  pub valid : IsValid u
  pub grown : u.level_size ≡ t.level_size + 1
  pub doubled : u.addr_capacity ≡ 2 * t.addr_capacity
  pub locks : u.lock_width ≡ t.lock_width
  pub items : (q : Entry → Bool) → items q u ≡ items q t

module _ {t : LevelHash} (v : IsValid t) where
  abbrev grown : LevelHash
  grown = record t { addr_capacity = 2 ^ (t.level_size + 1) }

  start-IsRehash :
      IsRehash grown
        (t.width 1)
        (t.buckets 1)
        0
        (record { bottom = t.buckets 1; new_buckets = zeroed })
  start-IsRehash = record {
    fresh = λ i j il jl. (omega arith, λ e. absurd (omega arith));
    left = λ i j il jl.
        let s =
          v.slots (record { level = 1; idx = i; slot = j })
            (record { level_lt = omega arith; idx_lt = il; slot_lt = jl }) in
        (s.0, λ full. (s.1 full).1);
    cleared = λ i j il jl lt. absurd (omega arith);
    kept = λ q.
        omega (arith, array_items-eq-zero q (2 ^ (t.level_size + 1)) zeroed (λ i j il jl. refl));
  }

  -- The powers of two that stand in the code.
  powers : (2 ^ (t.level_size + 1) ≡ 2 * t.addr_capacity) × (2 ^ (t.level_size - 1) ≡ t.width 1)
  powers =
      let low : t.level_size ≡ t.level_size - 1 + 1 = omega (arith, v.big) in
      let half : 2 ^ t.level_size ≡ 2 * 2 ^ (t.level_size - 1) =
        ap (λ (n : ℕ). 2 ^ n) low ∙ pow_grow (t.level_size - 1) in
      (omega (arith, v.capacity, pow_grow t.level_size), omega (arith, v.capacity, half, v.bottom))

  module _ (r : Rehash)
      (h : IsRehash grown (t.width 1) (t.buckets 1) (4 * 2 ^ (t.level_size - 1)) r) where
    abbrev u : LevelHash
    u = resized grown r

    old_capacity : 2 ^ (t.level_size + 1) / 2 ≡ t.addr_capacity
    old_capacity = omega (arith, powers.0)

    resized_slots :
        (l i j : ℕ)
        → InRange u.width (record { level = l; idx = i; slot = j })
        → IsSlot u
            (record { level = l; idx = i; slot = j })
            (token_at u (record { level = l; idx = i; slot = j }))
            (entry_at u (record { level = l; idx = i; slot = j }))
    unfolding f_hash s_hash
    resized_slots zero i j w = h.fresh i j w.idx_lt w.slot_lt
    resized_slots (suc zero) i j w = rw old_capacity (
        v.slots (record { level = 0; idx = i; slot = j })
          (record { level_lt = omega arith; idx_lt = w.idx_lt; slot_lt = w.slot_lt }))
    resized_slots (suc (suc l)) i j w = absurd (omega (arith, w.level_lt))

    items-resized : (q : Entry → Bool) → items q u ≡ items q t
    unfolding items
    items-resized q =
        let gone : array_items q (t.width 1) r.bottom ≡ 0 =
          array_items-eq-zero q (t.width 1) r.bottom
            (λ i j il jl. rw (h.cleared i j il jl (omega (arith, powers.1)))) in
        omega (arith, gone, h.kept q)

    finish : Resized t u
    finish = record {
      valid = record {
        big = omega (arith, v.big);
        capacity = refl;
        large = omega (arith, powers.0, v.large);
        top = refl;
        bottom = v.top ∙ sym old_capacity;
        slots = λ p w. resized_slots p.level p.idx p.slot w;
      };
      grown = refl;
      doubled = powers.0;
      locks = refl;
      items = items-resized;
    }

  -- `level_resize` on a valid table, if the allocation succeeds: the new table is valid, one size
  -- larger, with twice the capacity and the old arrays of locks, and holds the same items, each as often; or the program exits with message 3, which it
  -- does only if the old bottom level held nine items at least.
  pub level_resize-Resized :
      Ensures (Crowded (t.width 1) (t.buckets 1)) (Resized t) (level_resize true t)
  unfolding level_resize
  level_resize-Resized =
      bind-Ensures (Crowded (t.width 1) (t.buckets 1))
        (IsRehash grown (t.width 1) (t.buckets 1) (4 * 2 ^ (t.level_size - 1))) (Resized t) _ _
        (rehash_all-IsRehash grown (t.width 1) (t.buckets 1) (omega (arith, powers.0, v.large))
          (2 ^ (t.level_size - 1)) _ (omega (arith, powers.1)) start-IsRehash)
        (λ r h. finish r h)

-- On a valid table whose items are those of a map, and if the allocation succeeds, a resize keeps
-- the map, unless it exits with message 3, and that only if the old bottom level held nine items at
-- least.
pub Models-resize :
    {t : LevelHash} {f : Map}
    → Models t f
    → Ensures (Crowded (t.width 1) (t.buckets 1)) (λ u. Models u f) (level_resize true t)
Models-resize {t} {f} m =
    map-Ensures (Crowded (t.width 1) (t.buckets 1)) (Resized t) (λ u. Models u f) _
      (level_resize-Resized m.valid)
      (λ u h. record {
        valid = h.valid;
        agrees = λ text.
            Agrees-same t u text (f text) (h.items (has_key text)) (λ v. h.items (has_other text v))
              (m.agrees text);
      })
