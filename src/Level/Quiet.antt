-- ===== src/Level/Quiet.antt =====
-- One thread alone on a valid table with a lock for each slot: no operation blocks itself or reaches
-- beyond the locks, and each releases all that it took.
use hashcomp.Common.{
  ℕ, ◌≤◌, ◌≡◌, refl, Bool, some, List, [], ◌∷◌, ◌++◌, arith, Option-cases, inl, inr, ◌∙◌,
}
use hashcomp.Level.{
  LevelHash, Pos, Event, release, c_str, walk, holds_key, query_order, level_query, level_delete,
  level_update,
}
use hashcomp.Level.Scan.{All}
use hashcomp.Level.Valid.{IsValid}
use hashcomp.Level.Home.{IsHomeSlot, query_order-IsHomeSlot}
use hashcomp.Level.Locks.{IsFree, replay, still_held, replay-release, replay-append, replay-walk}

pub All-imp : (P Q : Pos → Type 0) (ps : List Pos) → ((p : Pos) → P p → Q p) → All P ps → All Q ps
All-imp P Q [] f h = tt
All-imp P Q (p ∷ ps) f h = (f p h.0, All-imp P Q ps f h.1)

-- A table with a lock for each slot, as `level_init` makes it.
pub record HasLocks (t : LevelHash) : Type 0 where
  pub valid : IsValid t
  pub locks : (l : ℕ) → t.width l ≤ t.lock_width l

module _ {t : LevelHash} (k : HasLocks t) where
  -- The events leave the held locks as they were.
  abbrev pub IsQuiet : List Event → Type 0
  IsQuiet es = replay t.lock_width es [] ≡ some []

  pub home-IsFree : (text : List ℕ) (p : Pos) → IsHomeSlot t text p → IsFree t.lock_width [] p
  home-IsFree text p s = (omega (arith, s.range.idx_lt, k.locks p.level), refl)

  -- A loop over free slots, with the slot that it found released at the end.
  pub walk-IsQuiet :
      (test : Pos → Bool) (text : List ℕ) (ps : List Pos)
      → All (IsHomeSlot t text) ps
      → replay t.lock_width (walk test ps).1 [] ≡ some (still_held t.lock_width (walk test ps).0 [])
  walk-IsQuiet test text ps h =
      replay-walk t.lock_width test ps []
        (All-imp (IsHomeSlot t text) (IsFree t.lock_width []) ps (home-IsFree text) h)

  pub found-IsQuiet :
      (es : List Event) (p : Pos)
      → replay t.lock_width es [] ≡ some (p ∷ [])
      → IsQuiet (es ++ release p ∷ [])
  found-IsQuiet es p h =
      replay-append t.lock_width es (release p ∷ []) [] (p ∷ []) h
      ∙ replay-release t.lock_width p [] []
      ∙ (unfold replay in refl)

  query_walk :
      (key : List ℕ)
      → let w = walk (holds_key t (c_str key)) (query_order t (c_str key)) in
        replay t.lock_width w.1 [] ≡ some (still_held t.lock_width w.0 [])
  query_walk key =
      walk-IsQuiet (holds_key t (c_str key)) (c_str key) (query_order t (c_str key))
        (query_order-IsHomeSlot k.valid (c_str key))

  -- `level_query`, `level_delete` and `level_update` of one thread, on a valid table with a lock
  -- for each slot: they never wait for a lock that they hold, take none beyond the arrays, and
  -- release each lock that they take.
  pub lookup-IsQuiet :
      (key value : List ℕ)
      → IsQuiet (level_query t key value).events
        × IsQuiet (level_delete t key).events
        × IsQuiet (level_update t key value).events
  unfolding level_query level_delete level_update
  lookup-IsQuiet key value =
      let test = holds_key t (c_str key) in
      let order = query_order t (c_str key) in
      elim (Option-cases (walk test order).0) [
        | inl e ↦
            let w = rw e at (query_walk key) in
            rw (e, level_query, level_delete, level_update) (w, w, w)
        | inr (p, e) ↦
            let w = found-IsQuiet _ p (rw e at (query_walk key)) in
            rw (e, level_query, level_delete, level_update) (w, w, w)
      ]
