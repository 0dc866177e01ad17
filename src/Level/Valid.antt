-- ===== src/Level/Valid.antt =====
-- The invariant of the table, and that a single write keeps it.
use hashcomp.Common.{
  ℕ, zero, suc, ◌/◌, ◌^◌, ◌≤◌, ◌<◌, ◌≡◌, ◌⊎◌, inl, inr, Bool, true, false, List, [], ◌∷◌, ◌++◌,
  ◌==◌, ◌&&◌, arith, refl, sym, ◌∙◌, take, if◌then◌else◌, Bool-cases,
}
use hashcomp.Level.{
  Entry, LevelHash, Pos, c_str, key_text, f_hash, s_hash, f_idx, s_idx, f_bucket, s_bucket,
  token_at, entry_at, store, clear, value_len, write_value,
}
use hashcomp.Level.Items.{InRange}

-- The capacity by which the code reduces hashes in a level.
abbrev pub level_capacity : LevelHash → ℕ → ℕ
level_capacity t l = if l == 0 then t.addr_capacity else t.addr_capacity / 2

-- `p` stands in one of the two buckets of the string in its level.
abbrev pub IsHome : LevelHash → Pos → List ℕ → Type 0
IsHome t p text =
    (p.idx ≡ f_bucket t text (level_capacity t p.level))
    ⊎ (p.idx ≡ s_bucket t text (level_capacity t p.level))

abbrev pub has_nul : List ℕ → Bool
has_nul [] = false
has_nul (zero ∷ p) = true
has_nul (suc b ∷ p) = has_nul p

-- What the invariant asks of one slot: its token is 0 or 1, and if it is full, its key ends within
-- KEY_LEN bytes and belongs there.
abbrev pub IsSlot : LevelHash → Pos → ℕ → Entry → Type 0
IsSlot t p token e = (token < 2) × (token ≡ 1 → IsHome t p (key_text e) × (has_nul e.key ≡ true))

pub record IsValid (t : LevelHash) : Type 0 where
  pub big : 2 ≤ t.level_size
  pub capacity : t.addr_capacity ≡ 2 ^ t.level_size
  pub large : 4 ≤ t.addr_capacity
  pub top : t.width 0 ≡ t.addr_capacity
  pub bottom : t.width 1 ≡ t.addr_capacity / 2
  pub slots : (p : Pos) → InRange t.width p → IsSlot t p (token_at t p) (entry_at t p)

pub c_str-append : (p q : List ℕ) → has_nul p ≡ true → c_str (p ++ q) ≡ c_str p
c_str-append [] q h = cc
c_str-append (zero ∷ p) q h = refl
c_str-append (suc b ∷ p) q h = rw (c_str-append p q h)

pub f_idx-lt : (h c : ℕ) → 2 ≤ c → f_idx h c < c / 2
unfolding f_idx
f_idx-lt h c big = omega arith

pub s_idx_bounds : (h c : ℕ) → 2 ≤ c → (c / 2 ≤ s_idx h c) × (s_idx h c < c)
unfolding s_idx
s_idx_bounds h c big = omega arith

-- A key that ends within its array is read the same whatever the value is.
pub key_text-value :
    (e : Entry) (value : List ℕ)
    → has_nul e.key ≡ true
    → key_text (record e { value = value }) ≡ key_text e
key_text-value e value h = c_str-append e.key value h ∙ sym (c_str-append e.key e.value h)

-- What a slot holds after a write: the new item, or what it held.
pub store_at :
    (t : LevelHash) (p : Pos) (e : Entry) (q : Pos)
    → ((q ≡ p) × (token_at (store t p e) q ≡ 1) × (entry_at (store t p e) q ≡ e))
      ⊎ ((token_at (store t p e) q ≡ token_at t q) × (entry_at (store t p e) q ≡ entry_at t q))
unfolding store
store_at t p e q = ground arith

pub clear_at :
    (t : LevelHash) (p q : Pos)
    → ((q ≡ p) × (token_at (clear t p) q ≡ 0))
      ⊎ ((token_at (clear t p) q ≡ token_at t q) × (entry_at (clear t p) q ≡ entry_at t q))
unfolding clear
clear_at t p q = ground arith

-- A home bucket lies within its level.
pub IsHome-lt :
    {t : LevelHash}
    → IsValid t
    → (p : Pos) (text : List ℕ) → p.level < 2
    → IsHome t p text
    → p.idx < t.width p.level
IsHome-lt {t} v p text low h =
    let c = level_capacity t p.level in
    let wide : (2 ≤ c) × (c ≤ t.width p.level) = ground arith in
    ground (arith, wide, f_idx-lt (f_hash t text) c, s_idx_bounds (s_hash t text) c)

write_value_at :
    (t : LevelHash) (p : Pos) (value : List ℕ) (q : Pos)
    → (token_at (write_value t p value) q ≡ token_at t q)
      × (entry_at (write_value t p value) q ≡ (
          if q.level == p.level && (q.idx == p.idx && q.slot == p.slot)
          then record (entry_at t q) { value = take value_len value }
          else entry_at t q))
unfolding write_value
write_value_at t p value q = ground arith

module _ {t : LevelHash} (v : IsValid t) (p : Pos) where
  pub store-IsValid :
      (e : Entry) → IsHome t p (key_text e) → has_nul e.key ≡ true → IsValid (store t p e)
  unfolding store f_hash s_hash
  store-IsValid e home nul = record {
    big = v.big;
    capacity = v.capacity;
    large = v.large;
    top = v.top;
    bottom = v.bottom;
    slots = λ q r. elim (store_at t p e q) [
      | inl (same, token, entry) ↦ rw (token, entry, same) (omega arith, λ full. (home, nul))
      | inr (token, entry) ↦ rw (token, entry) (v.slots q r)
    ];
  }

  pub clear-IsValid : IsValid (clear t p)
  unfolding clear f_hash s_hash
  clear-IsValid = record {
    big = v.big;
    capacity = v.capacity;
    large = v.large;
    top = v.top;
    bottom = v.bottom;
    slots = λ q r. elim (clear_at t p q) [
      | inl (same, token) ↦ rw token (omega arith, λ full. absurd (omega arith))
      | inr (token, entry) ↦ rw (token, entry) (v.slots q r)
    ];
  }

  -- The key of an item ends before its value, so a new value leaves the item where it belongs.
  pub write_value-IsValid : (value : List ℕ) → IsValid (write_value t p value)
  unfolding write_value f_hash s_hash
  write_value-IsValid value = record {
    big = v.big;
    capacity = v.capacity;
    large = v.large;
    top = v.top;
    bottom = v.bottom;
    slots = λ q r.
        rw ((write_value_at t p value q).0, (write_value_at t p value q).1)
          (elim (Bool-cases (q.level == p.level && (q.idx == p.idx && q.slot == p.slot))) [
            | inl e ↦ rw e (
              (v.slots q r).0,
              λ full.
                  let (home, nul) = (v.slots q r).1 full in
                  let e = entry_at t q in
                  (rw (key_text-value e (take value_len value) nul) home, nul),
            )
            | inr e ↦ rw e (v.slots q r)
          ]);
  }
