-- ===== src/Level/Move.antt =====
-- An item moves to an empty slot, and a new one takes its place.
use hashcomp.Common.{ℕ, ◌+◌, ◌≡◌, refl, ◌⊎◌, inl, inr, Bool, true, List, arith, to_ℕ}
use hashcomp.Level.{
  Entry, LevelHash, Pos, key_text, f_hash, s_hash, token_at, entry_at, store, clear,
}
use hashcomp.Level.Items.{InRange, items, weight_at, items-store, items-clear}
use hashcomp.Level.Home.{IsHomeSlot}
use hashcomp.Level.Valid.{IsValid, has_nul, store_at, store-IsValid, clear-IsValid}

-- The result of a part of an insertion: the new item is stored once, beside all the old ones, and
-- the table is valid; or nothing has changed.
pub record Inserted (t : LevelHash) (e : Entry) (status : ℕ) (u : LevelHash) : Type 0 where
  pub returns : status ≡ 0
  pub valid : IsValid u
  pub items : (q : Entry → Bool) → items q u ≡ items q t + to_ℕ (q e)

pub record Refused (t : LevelHash) (status : ℕ) (u : LevelHash) : Type 0 where
  pub returns : status ≡ 1
  pub table : u ≡ t

abbrev pub Insertion : LevelHash → Entry → ℕ → LevelHash → Type 0
Insertion t e status u = Inserted t e status u ⊎ Refused t status u

pub store-Inserted :
    {t : LevelHash}
    → IsValid t
    → (p : Pos) (e : Entry) → IsHomeSlot t (key_text e) p
    → token_at t p ≡ 0
    → has_nul e.key ≡ true
    → Inserted t e 0 (store t p e)
store-Inserted {t} v p e f free nul = record {
  returns = refl;
  valid = store-IsValid v p e f.home nul;
  items =
      λ q. let w : weight_at q t p ≡ 0 = rw free in omega (arith, w, items-store q t p e f.range);
}

-- The slot is free and all items are still stored.
pub record Emptied (t : LevelHash) (p : Pos) (u : LevelHash) : Type 0 where
  pub valid : IsValid u
  pub items : (q : Entry → Bool) → items q u ≡ items q t
  pub free : token_at u p ≡ 0
  pub homes : (text : List ℕ) (r : Pos) → IsHomeSlot t text r → IsHomeSlot u text r

module _ {t : LevelHash} (v : IsValid t) where
  module _ (src dst : Pos) (full : token_at t src ≡ 1) (range : InRange t.width src)
      (free : token_at t dst ≡ 0) (fits : IsHomeSlot t (key_text (entry_at t src)) dst) where
    abbrev m : Entry
    m = entry_at t src

    abbrev copied : LevelHash
    copied = store t dst m

    abbrev pub moved : LevelHash
    moved = clear copied src

    nul : has_nul m.key ≡ true
    nul = ((v.slots src range).1 full).1

    copy : Inserted t m 0 copied
    copy = store-Inserted v dst m fits free nul

    source_kept : (token_at copied src ≡ 1) × (entry_at copied src ≡ m)
    source_kept = elim (store_at t dst m src) [
      | inl (same, token, entry) ↦ (token, entry)
      | inr (token, entry) ↦ (rw token full, entry)
    ]

    moved-IsValid : IsValid moved
    moved-IsValid = clear-IsValid copy.valid src

    items-moved : (q : Entry → Bool) → items q moved ≡ items q t
    unfolding store
    items-moved q =
        let w : weight_at q copied src ≡ to_ℕ (q m) = rw (source_kept.0, source_kept.1) in
        omega (arith, w, copy.items q, items-clear q copied src range)

    moved_free : token_at moved src ≡ 0
    unfolding clear
    moved_free = ground arith

    moved-IsHomeSlot : (text : List ℕ) (p : Pos) → IsHomeSlot t text p → IsHomeSlot moved text p
    unfolding clear store f_hash s_hash
    moved-IsHomeSlot text p f = record { range = f.range; home = f.home }

    pub moved-Emptied : Emptied t src moved
    moved-Emptied = record {
      valid = moved-IsValid;
      items = items-moved;
      free = moved_free;
      homes = moved-IsHomeSlot;
    }

-- The new item takes the slot that an old one has left.
pub Emptied-Inserted :
    {t u : LevelHash} {p : Pos}
    → Emptied t p u
    → (e : Entry) → IsHomeSlot t (key_text e) p
    → has_nul e.key ≡ true
    → Inserted t e 0 (store u p e)
Emptied-Inserted {p} m e f nul =
    let r = store-Inserted m.valid p e (m.homes (key_text e) p f) m.free nul in
    record { returns = refl; valid = r.valid; items = λ q. omega (arith, r.items q, m.items q) }
