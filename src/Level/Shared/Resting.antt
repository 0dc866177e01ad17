-- ===== src/Level/Shared/Resting.antt =====
-- A query among other threads that leave alone what the table has of its key: it answers as it would alone.
use hashcomp.Common.{ℕ, ◌≡◌, refl, inl, inr, true, Option, none, some, List}
use hashcomp.Level.{LevelHash, Pos, c_str, holds_key}
use hashcomp.Level.Valid.{IsValid}
use hashcomp.Level.Home.{IsHomeSlot}
use hashcomp.Level.Models.{Map, Models, answer}
use hashcomp.Level.Shared.{shared_query}
use hashcomp.Level.Shared.Linear.{shared_query-Seen}

-- What all tables of the invariant have under a string: no value, or a value that stays in its slot.
abbrev pub Rests :
    (R : LevelHash → Type 0)
    → ((u : LevelHash) → R u → Map)
    → LevelHash
    → List ℕ
    → Option (List ℕ)
    → Type 0
Rests R f t text none = (u : LevelHash) (h : R u) → f u h text ≡ none
Rests R f t text (some v) =
    ((u : LevelHash) (h : R u) → f u h text ≡ some v)
    × ((p : Pos) × IsHomeSlot t text p × ((u : LevelHash) → R u → holds_key u text p ≡ true))

module _ (others : ℕ → LevelHash → LevelHash) (R : LevelHash → Type 0)
    (keeps : (clock : ℕ) (u : LevelHash) → R u → R (others clock u)) {t : LevelHash}
    (valid : IsValid t) (start : R t)
    (capacity : (u : LevelHash) → R u → u.addr_capacity ≡ t.addr_capacity)
    (f : (u : LevelHash) → R u → Map) (maps : (u : LevelHash) (h : R u) → Models u (f u h))
    (key : List ℕ) (clock : ℕ) where
  -- Among other threads that keep an invariant in which the table stores a map and the capacity
  -- stays, from a valid table, level_query returns 1 if none of the maps has the key, and returns
  -- 0 and the value if all of them have the key with one value and its item stays in one home
  -- slot.
  pub shared_query-Rests :
      (value : List ℕ) (o : Option (List ℕ))
      → Rests R f t (c_str key) o
      → let r = shared_query others key value clock t in (r.status, r.value) ≡ answer o value
  shared_query-Rests value none rests =
      elim (shared_query-Seen others R keeps valid start capacity f maps key clock value) [
        | inl (status, (h, has)) ↦
            let r = shared_query others key value clock t in let lacks = rests r.table h in cc
        | inr (status, same, without) ↦ rw (status, same) refl
      ]
  shared_query-Rests value (some v) (has, (p, home, held)) =
      elim (shared_query-Seen others R keeps valid start capacity f maps key clock value) [
        | inl (status, (h, found)) ↦
            let r = shared_query others key value clock t in let same = has r.table h in cc
        | inr (status, same, without) ↦
            let missed = without p home in
            let off = missed.absent in let on = held missed.table missed.holds in cc
      ]
