-- ===== src/Level/Rehashing.antt =====
-- The loops of `level_resize`: the items go from the old bottom level to the new buckets.
use hashcomp.Common.{
  ℕ, suc, ◌+◌, ◌*◌, ◌≤◌, ◌<◌, ◌≡◌, ◌≢◌, refl, inl, inr, Bool, true, false, ◌==◌, arith, to_ℕ,
  update, Option-cases, Bool-cases, ◌⊎◌,
}
use native.Mathlib.Decide.{dec_lt}
use hashcomp.Level.{
  Entry, Bucket, LevelHash, Pos, key_text, f_hash, s_hash, f_bucket, s_bucket, fill, empty,
  slots_of_pair, walk,
}
use hashcomp.Level.Resize.{Outcome, done, exit, ◌>>=◌, Rehash, new_token, rehash_slot}
use hashcomp.Level.Scan.{All, slots_of_pair-All, All-slots_of_pair, walk-some, walk-none}
use hashcomp.Level.Items.{
  weight, array_items, array_items-update, bucket_items-fill, bucket_items-empty, bucket_items_full,
  pair-le-array_items, weight-le-array_items,
}
use hashcomp.Level.Valid.{IsHome, IsSlot, has_nul, f_idx-lt, s_idx_bounds}

-- What holds of the result, or of the number with which the program exits.
abbrev pub Ensures {ℓ κ} : {A : Type ℓ} → (ℕ → Type κ) → (A → Type κ) → Outcome A → Type κ
Ensures E P (done a) = P a
Ensures E P (exit n) = E n

pub bind-Ensures {ℓ κ λ'} :
    {A : Type ℓ} {B : Type κ} (E : ℕ → Type λ') (P : A → Type λ') (Q : B → Type λ') (m : Outcome A)
    (f : A → Outcome B)
    → Ensures E P m
    → ((a : A) → P a → Ensures E Q (f a))
    → Ensures E Q (m >>= f)
bind-Ensures E P Q (done a) f h k = k a h
bind-Ensures E P Q (exit n) f h k = h

pub map-Ensures {ℓ κ} :
    {A : Type ℓ} (E : ℕ → Type κ) (P Q : A → Type κ) (m : Outcome A)
    → Ensures E P m
    → ((a : A) → P a → Q a)
    → Ensures E Q m
map-Ensures E P Q (done a) h k = k a h
map-Ensures E P Q (exit n) h k = h

abbrev pub any_entry : Entry → Bool
any_entry e = true

-- The program exits with message 3, and the old bottom level held nine items at least.
abbrev pub Crowded : ℕ → (ℕ → Bucket) → ℕ → Type 0
Crowded n old message = (message ≡ 3) × (9 ≤ array_items any_entry n old)

abbrev pub top_pos : ℕ → ℕ → Pos
top_pos i j = record { level = 0; idx = i; slot = j }

-- `t` is the table with its new capacity, over `n` old bottom buckets that held `old`. The slots
-- before `step`, in the order of the loops, are cleared.
pub record IsRehash (t : LevelHash) (n : ℕ) (old : ℕ → Bucket) (step : ℕ) (r : Rehash)
    : Type 0 where
  pub fresh :
      (i j : ℕ)
      → i < t.addr_capacity
      → j < 4
      → IsSlot t (top_pos i j) ((r.new_buckets i).token j) ((r.new_buckets i).slot j)
  pub left :
      (i j : ℕ)
      → i < n
      → j < 4
      → ((r.bottom i).token j < 2)
        × ((r.bottom i).token j ≡ 1 → has_nul ((r.bottom i).slot j).key ≡ true)
  pub cleared : (i j : ℕ) → i < n → j < 4 → 4 * i + j < step → (r.bottom i).token j ≡ 0
  pub kept :
      (q : Entry → Bool)
      → array_items q t.addr_capacity r.new_buckets + array_items q n r.bottom ≡ array_items q n old

-- What a slot holds after a write to an array of buckets.
fill_at :
    (f : ℕ → Bucket) (i k : ℕ) (e : Entry) (i' k' : ℕ)
    → ((i' ≡ i)
        × (k' ≡ k)
        × ((update f i (fill (f i) k e) i').token k' ≡ 1)
        × ((update f i (fill (f i) k e) i').slot k' ≡ e))
      ⊎ (((update f i (fill (f i) k e) i').token k' ≡ (f i').token k')
          × ((update f i (fill (f i) k e) i').slot k' ≡ (f i').slot k'))
fill_at f i k e i' k' = ground arith

empty_at :
    (f : ℕ → Bucket) (i k i' k' : ℕ)
    → ((i' ≡ i) × (k' ≡ k) × ((update f i (empty (f i) k) i').token k' ≡ 0))
      ⊎ (((i' ≢ i) ⊎ (k' ≢ k))
          × ((update f i (empty (f i) k) i').token k' ≡ (f i').token k')
          × ((update f i (empty (f i) k) i').slot k' ≡ (f i').slot k'))
empty_at f i k i' k' = ground arith

module _ (t : LevelHash) (n : ℕ) (old : ℕ → Bucket) (large : 2 ≤ t.addr_capacity) where
  module _ (r : Rehash) (b i : ℕ) (b_lt : b < n) (i_lt : i < 4)
      (h : IsRehash t n old (4 * b + i) r) where
    abbrev e : Entry
    e = (r.bottom b).slot i

    -- The slot is full, and moves to `p`.
    moved :
        (p : Pos)
        → (r.bottom b).token i ≡ 1
        → p.level ≡ 0
        → p.idx < t.addr_capacity
        → p.slot < 4
        → new_token r p ≡ 0
        → IsHome t (top_pos p.idx p.slot) (key_text e)
        → IsRehash t n old (4 * b + suc i) (record {
          bottom = update r.bottom b (empty (r.bottom b) i);
          new_buckets = update r.new_buckets p.idx (fill (r.new_buckets p.idx) p.slot e);
        })
    moved p full top idx_lt slot_lt free home = record {
      fresh = λ i' j' il jl. elim (fill_at r.new_buckets p.idx p.slot e i' j') [
        | inl (si, sj, token, slot) ↦
            rw (token, slot, si) (omega arith, λ _. (home, (h.left b i b_lt i_lt).1 full))
        | inr (token, slot) ↦ rw (token, slot) (h.fresh i' j' il jl)
      ];
      left = λ i' j' il jl. elim (empty_at r.bottom b i i' j') [
        | inl (si, sj, token) ↦ rw token (omega arith, λ o. absurd (omega arith))
        | inr (ne, token, slot) ↦ rw (token, slot) (h.left i' j' il jl)
      ];
      cleared = λ i' j' il jl lt. elim (empty_at r.bottom b i i' j') [
        | inl (si, sj, token) ↦ token
        | inr (ne, token, slot) ↦ rw token (h.cleared i' j' il jl (omega arith))
      ];
      kept = λ q.
          let new = r.new_buckets p.idx in
          let free' : weight q new p.slot ≡ 0 = rw free in
          let full' : weight q (r.bottom b) i ≡ to_ℕ (q e) = rw full in
          omega (
            arith,
            free',
            full',
            h.kept q,
            array_items-update q t.addr_capacity r.new_buckets p.idx (fill new p.slot e) idx_lt,
            array_items-update q n r.bottom b (empty (r.bottom b) i) b_lt,
            bucket_items-fill q new p.slot e slot_lt,
            bucket_items-empty q (r.bottom b) i i_lt,
          );
    }

    -- The slot is empty already.
    passed : (r.bottom b).token i ≡ 0 → IsRehash t n old (4 * b + suc i) r
    passed free = record {
      fresh = h.fresh;
      left = h.left;
      cleared = λ i' j' il jl lt. elim (dec_lt (4 * i' + j') (4 * b + i)) [
        | yes below ↦ h.cleared i' j' il jl below
        | no here ↦ let same : (i' ≡ b) × (j' ≡ i) = omega arith in rw (same.0, same.1) free
      ];
      kept = h.kept;
    }

    -- A slot that `walk` may find.
    record IsNewSlot (p : Pos) : Type 0 where
      top : p.level ≡ 0
      idx_lt : p.idx < t.addr_capacity
      slot_lt : p.slot < 4
      home : IsHome t (top_pos p.idx p.slot) (key_text e)

    -- Both new buckets are full, and one more item is left.
    crowded :
        (f s : ℕ)
        → f < s
        → s < t.addr_capacity
        → (r.bottom b).token i ≡ 1
        → All (λ p. (new_token r p == 0) ≡ false) (slots_of_pair 0 f s)
        → Crowded n old 3
    crowded f s f_lt s_lt full none_free =
        let new = r.new_buckets in
        let both = All-slots_of_pair (λ p. (new_token r p == 0) ≡ false) 0 f s none_free in
        let in_f =
          bucket_items_full any_entry (new f)
            (λ j lt. let e = (both j lt).0 in ground (arith, (h.fresh f j (omega arith) lt).0)) in
        let in_s =
          bucket_items_full any_entry (new s)
            (λ j lt. let e = (both j lt).1 in ground (arith, (h.fresh s j s_lt lt).0)) in
        let one : weight any_entry (r.bottom b) i ≡ 1 = rw full in
        (
          refl,
          omega (
            arith,
            one,
            in_f,
            in_s,
            h.kept any_entry,
            weight-le-array_items any_entry n r.bottom b i b_lt i_lt,
            pair-le-array_items any_entry t.addr_capacity new f s f_lt s_lt,
          ),
        )

    pub rehash_slot-IsRehash :
        Ensures (Crowded n old) (IsRehash t n old (4 * b + suc i)) (rehash_slot t r b i)
    unfolding rehash_slot
    rehash_slot-IsRehash =
        let c = t.addr_capacity in
        let f = f_bucket t (key_text e) c in
        let s = s_bucket t (key_text e) c in
        let order = slots_of_pair 0 f s in
        let test : Pos → Bool = λ p. new_token r p == 0 in
        elim (Bool-cases ((r.bottom b).token i == 1)) [
          | inr other ↦ rw other (passed (ground (arith, (h.left b i b_lt i_lt).0)))
          | inl one ↦
              let full : (r.bottom b).token i ≡ 1 = ground arith in
              elim (Option-cases (walk test order).0) [
                | inl none_free ↦
                    rw (one, none_free, rehash_slot)
                      (crowded f s
                        (omega (
                          arith,
                          f_idx-lt (f_hash t (key_text e)) c large,
                          s_idx_bounds (s_hash t (key_text e)) c large,
                        ))
                        (s_idx_bounds (s_hash t (key_text e)) c large).1 full
                        (walk-none test order none_free))
                | inr (p, found) ↦
                    let (free, w) =
                      walk-some IsNewSlot test order p
                        (slots_of_pair-All IsNewSlot 0 f s
                          (λ j lt. record {
                            top = refl;
                            idx_lt = omega (arith, f_idx-lt (f_hash t (key_text e)) c large);
                            slot_lt = lt;
                            home = inl refl;
                          })
                          (λ j lt. record {
                            top = refl;
                            idx_lt = (s_idx_bounds (s_hash t (key_text e)) c large).1;
                            slot_lt = lt;
                            home = inr refl;
                          }))
                        found in
                    rw (one, found, rehash_slot)
                      (moved p full w.top w.idx_lt w.slot_lt (ground arith) w.home)
              ]
        ]
