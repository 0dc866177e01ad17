-- ===== src/Level/Shared/Linear.antt =====
-- A query and a deletion among other threads, by the maps that the tables store: a search that finds the
-- key acts at once on the table of that turn.
use hashcomp.Common.{
  ℕ, zero, suc, ◌/◌, ◌<◌, ◌≡◌, ◌⊎◌, refl, sym, ap, ◌∙◌, inl, inr, true, Option, none, some,
  Option-cases, List, [], arith, beq_eq, take,
}
use hashcomp.Level.{
  value_len, LevelHash, Reply, Pos, c_str, key_text, entry_at, holds_key, clear, write_value,
}
use hashcomp.Level.Valid.{IsValid}
use hashcomp.Level.Home.{IsHomeSlot, query_order-IsHomeSlot, query_order-at}
use hashcomp.Level.Lookup.{Found, Found-items, clear-Changed, write_value-Changed}
use hashcomp.Level.Models.{Map, Agrees, put, Models, code, Found-value}
use hashcomp.Level.Changes.{replaced, delete-Changed, update-Changed}
use hashcomp.Level.Shared.{search_key, shared_query, shared_delete, shared_update}
use hashcomp.Level.Shared.Seen.{SeenWithout, SeenWith, search_key-Seen}
use hashcomp.Level.Shared.Missed.{SearchMissed, search_key-Missed}

same_width :
    {t u : LevelHash}
    → IsValid t
    → IsValid u
    → u.addr_capacity ≡ t.addr_capacity
    → (l : ℕ) → l < 2
    → u.width l ≡ t.width l
same_width v w e zero lt = w.top ∙ e ∙ sym v.top
same_width v w e (suc zero) lt = w.bottom ∙ ap (λ c. c / 2) e ∙ sym v.bottom
same_width v w e (suc (suc l)) lt = absurd (omega arith)

Found-some :
    {u : LevelHash} {text : List ℕ} (p : Pos) (o : Option (List ℕ))
    → IsValid u
    → Agrees u text o
    → Found u text p
    → o ≡ some (take value_len (entry_at u p).value)
Found-some {u} {text} p none w a h = absurd (omega (arith, Found-items w text p h))
Found-some p (some v) w a h = ap some (sym (Found-value p a h))

module _ (others : ℕ → LevelHash → LevelHash) (R : LevelHash → Type 0)
    (keeps : (clock : ℕ) (u : LevelHash) → R u → R (others clock u)) {t : LevelHash}
    (valid : IsValid t) (start : R t)
    (capacity : (u : LevelHash) → R u → u.addr_capacity ≡ t.addr_capacity)
    (f : (u : LevelHash) → R u → Map) (maps : (u : LevelHash) (h : R u) → Models u (f u h))
    (key : List ℕ) (clock : ℕ) where
  abbrev text : List ℕ
  text = c_str key

  seen :
      SeenWith others R keeps text (IsHomeSlot t text) (search_key others text clock t)
      ⊎ ((search_key others text clock t).at ≡ none)
        × R (search_key others text clock t).table
        × ((p : Pos) → IsHomeSlot t text p → SeenWithout others R keeps text (IsHomeSlot t text) p)
  seen =
      elim (search_key-Seen others R keeps text (IsHomeSlot t text) t.addr_capacity capacity clock t
        start (query_order-IsHomeSlot valid text)) [
          | inl found ↦ inl found
          | inr missed ↦ inr (
            missed.at,
            missed.holds,
            λ p h. query_order-at t text _ missed.absent p h.range h.home,
          )
        ]

  shared-Found :
      {u : LevelHash}
      → R u
      → (p : Pos) → IsHomeSlot t text p
      → holds_key u text p ≡ true
      → Found u text p
  shared-Found {u} h p home held =
      let r = home.range in
      let w = same_width valid (maps u h).valid (capacity u h) p.level r.level_lt in
      record {
        range = record {
          level_lt = r.level_lt;
          idx_lt = omega (arith, w, r.idx_lt);
          slot_lt = r.slot_lt;
        };
        full = ground arith;
        same = beq_eq (key_text (entry_at u p)) text (ground arith);
      }

  -- No table of the invariant that the search has seen had the key in the home slot that it looked at.
  abbrev NotSeen : Type 0
  NotSeen = (p : Pos) → IsHomeSlot t text p → SeenWithout others R keeps text (IsHomeSlot t text) p

  -- A query, by the slots that have been seen without the key in some table.
  pub shared_query-Seen :
      (value : List ℕ)
      → let r = shared_query others key value clock t in
        ((r.status ≡ 0) × ((h : R r.table) × (f r.table h text ≡ some r.value)))
        ⊎ ((r.status ≡ 1) × (r.value ≡ value) × NotSeen)
  unfolding shared_query
  shared_query-Seen value = elim seen [
    | inl found ↦
        let u = (search_key others text clock t).table in
        let h = shared-Found found.holds found.p found.visited found.present in
        let m = maps u found.holds in
        inl (
          rw (found.at, shared_query)
            (
              refl,
              (found.holds, Found-some found.p (f u found.holds text) m.valid (m.agrees text) h),
            ))
    | inr (at, holds, without) ↦ inr (rw (at, shared_query) (refl, refl, without))
  ]

  -- Among other threads that keep an invariant in which the table stores a map and the capacity
  -- stays, from a valid table, level_query returns 0 and a value that the map of one of its tables
  -- has under the key, or it returns 1, leaves the buffer alone, and each slot of both buckets of the
  -- key in the top level, then in the bottom level, was without the key in the table under the lock
  -- of the slot.
  pub shared_query-Linear :
      (value : List ℕ)
      → let r = shared_query others key value clock t in
        ((r.status ≡ 0) × ((h : R r.table) × (f r.table h text ≡ some r.value)))
        ⊎ ((r.status ≡ 1) × (r.value ≡ value) × SearchMissed others text clock t r.table)
  unfolding shared_query
  shared_query-Linear value = elim (Option-cases (search_key others text clock t).at) [
    | inl e ↦ inr (rw (e, shared_query) (refl, refl, search_key-Missed others text clock t e))
    | inr (p, e) ↦ elim (shared_query-Seen value) [
      | inl found ↦ inl found
      | inr missed ↦ cc (rw (e, shared_query) at missed.0)
    ]
  ]

  -- Status 0: on a table of the invariant whose map has the key, the change of the map at the key. Status
  -- 1: the search has found nothing and the thread has changed nothing.
  abbrev pub ChangesAtOnce : (Option (List ℕ) → Option (List ℕ)) → ℕ × LevelHash → Type 0
  ChangesAtOnce new r =
      ((r.0 ≡ 0)
        × ((u : LevelHash) × (h : R u) × (code (f u h text) ≡ 0)
            × Models r.1 (put (f u h) text (new (f u h text)))))
      ⊎ ((r.0 ≡ 1) × SearchMissed others text clock t r.1)

  shared_delete-Linear : ChangesAtOnce (λ o. none) (shared_delete others key clock t)
  unfolding shared_delete
  shared_delete-Linear = elim seen [
    | inl found ↦
        let u = (search_key others text clock t).table in
        let h = shared-Found found.holds found.p found.visited found.present in
        let m = maps u found.holds in
        let r : Reply = record { status = 0; table = clear u found.p; events = [] } in
        let (status, models) =
          delete-Changed m text {r = r} (clear-Changed m.valid key found.p h) (f u found.holds text)
            (m.agrees text) in
        inl (rw (found.at, shared_delete) (refl, (u, found.holds, sym status, models)))
    | inr (at, holds, without) ↦
        inr (rw (at, shared_delete) (refl, search_key-Missed others text clock t at))
  ]

  shared_update-Linear :
      (new_value : List ℕ)
      → ChangesAtOnce
          (λ o. replaced o (take value_len new_value))
          (shared_update others key new_value clock t)
  unfolding shared_update
  shared_update-Linear new_value = elim seen [
    | inl found ↦
        let u = (search_key others text clock t).table in
        let h = shared-Found found.holds found.p found.visited found.present in
        let m = maps u found.holds in
        let r : Reply = record {
          status = 0;
          table = write_value u found.p new_value;
          events = [];
        } in
        let (status, models) =
          update-Changed m text {r = r} new_value
            (write_value-Changed m.valid key new_value found.p h) (f u found.holds text)
            (m.agrees text) in
        inl (rw (found.at, shared_update) (refl, (u, found.holds, sym status, models)))
    | inr (at, holds, without) ↦
        inr (rw (at, shared_update) (refl, search_key-Missed others text clock t at))
  ]

  -- Among other threads that keep an invariant in which the table stores a map and the capacity
  -- stays, from a valid table, level_delete and level_update return 0 after they have removed the
  -- key, or replaced its value, in the map of one of those tables, or they return 1, change nothing,
  -- and each slot of both buckets of the key in the top level, then in the bottom level, was without
  -- the key in the table under the lock of the slot.
  pub shared_change-Linear :
      ChangesAtOnce (λ o. none) (shared_delete others key clock t)
      × ((new_value : List ℕ)
          → ChangesAtOnce
              (λ o. replaced o (take value_len new_value))
              (shared_update others key new_value clock t))
  shared_change-Linear = (shared_delete-Linear, shared_update-Linear)
