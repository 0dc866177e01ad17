-- ===== src/Level/Beyond.antt =====
-- How a resize breaks the lock discipline: the arrays of locks keep their old sizes.
use hashcomp.Common.{
  ℕ, ◌/◌, ◌≤◌, ◌≡◌, ◌≢◌, ◌⊎◌, refl, Bool, true, false, none, List, [], ◌∷◌, arith, Bool-cases,
  Option-cases, inl, inr, ap, sym,
}
use hashcomp.Level.{
  LevelHash, Pos, Event, acquire, release, c_str, s_hash, s_bucket, walk, holds_key, query_order,
  level_query,
}
use hashcomp.Level.Resize.{level_resize}
use hashcomp.Level.Scan.{All}
use hashcomp.Level.Items.{items, InRange}
use hashcomp.Level.Valid.{IsValid, s_idx_bounds}
use hashcomp.Level.Home.{query_order-at}
use hashcomp.Level.Lookup.{has_key, found, walk-some-Found, Found-items}
use hashcomp.Level.Rehashing.{Ensures, map-Ensures, Crowded}
use hashcomp.Level.Resizing.{Resized, level_resize-Resized}

-- `spin_lock` is called for the lock of the slot.
abbrev pub Takes : Pos → List Event → Type 0
Takes p [] = ⊥
Takes p (acquire q ∷ es) = (p ≡ q) ⊎ Takes p es
Takes p (release q ∷ es) = Takes p es

-- `spin_lock` is called for a lock of the top level beyond the end of the array of locks.
abbrev pub TakesBeyond : LevelHash → List Event → Type 0
TakesBeyond u es = (p : Pos) × (p.level ≡ 0) × (u.lock_width 0 ≤ p.idx) × Takes p es

All-Takes :
    (e : Event) (es : List Event) (ps : List Pos)
    → All (λ q. Takes q es) ps
    → All (λ q. Takes q (e ∷ es)) ps
All-Takes e es [] h = tt
All-Takes (acquire p) es (q ∷ ps) h = (inr h.0, All-Takes (acquire p) es ps h.1)
All-Takes (release p) es (q ∷ ps) h = (h.0, All-Takes (release p) es ps h.1)

same_events :
    {es fs : List Event} (ps : List Pos)
    → es ≡ fs
    → All (λ q. Takes q es) ps
    → All (λ q. Takes q fs) ps
same_events [] e h = tt
same_events (q ∷ ps) e h = (rw e at h.0, same_events ps e h.1)

walk_next :
    (test : Pos → Bool) (p : Pos) (ps : List Pos)
    → test p ≡ false
    → walk test (p ∷ ps) ≡ ((walk test ps).0, acquire p ∷ release p ∷ (walk test ps).1)
unfolding walk
walk_next test p ps next = rw next refl

walk_here :
    (test : Pos → Bool) (p : Pos) (ps : List Pos) → test p ≡ true → (walk test (p ∷ ps)).0 ≢ none
unfolding walk
walk_here test p ps here e = cc (rw here at e)

-- A loop that finds nothing takes the lock of each slot.
walk-Takes :
    (test : Pos → Bool) (ps : List Pos)
    → (walk test ps).0 ≡ none
    → All (λ p. Takes p (walk test ps).1) ps
walk-Takes test [] e = tt
walk-Takes test (p ∷ ps) e = elim (Bool-cases (test p)) [
  | inl here ↦ absurd (walk_here test p ps here e)
  | inr next ↦
      let step = walk_next test p ps next in
      let below = walk-Takes test ps (rw step at e) in
      let es = (walk test ps).1 in
      same_events (p ∷ ps) (sym (ap (λ r. r.1) step))
        (inl refl, All-Takes (acquire p) (release p ∷ es) ps (All-Takes (release p) es ps below))
]

-- A query for an absent key takes the locks of the second bucket of the top level.
pub query_beyond :
    {u : LevelHash} (v : IsValid u) (key value : List ℕ)
    → u.lock_width 0 ≤ u.addr_capacity / 2
    → items (has_key (c_str key)) u ≡ 0
    → TakesBeyond u (level_query u key value).events
unfolding level_query
query_beyond {u} v key value narrow absent =
    let text = c_str key in
    let c = u.addr_capacity in
    elim (Option-cases (found v text)) [
      | inr (p, e) ↦ absurd (omega (arith, Found-items v text p (walk-some-Found v text p e)))
      | inl e ↦
          let bounds = s_idx_bounds (s_hash u text) c (omega (arith, v.large)) in
          let p : Pos = record { level = 0; idx = s_bucket u text c; slot = 0 } in
          let r : InRange u.width p = record {
            level_lt = omega arith;
            idx_lt = omega (arith, v.top, bounds.1);
            slot_lt = omega arith;
          } in
          let takes =
            query_order-at u text (λ q. Takes q (walk (holds_key u text) (query_order u text)).1)
              (walk-Takes (holds_key u text) (query_order u text) e) p r (inr refl) in
          (p, refl, omega (arith, narrow, bounds.0), rw (e, level_query) takes)
    ]

-- After `level_resize` of a valid table whose top array of locks was as wide as its top level, each
-- query for an absent key calls `spin_lock` for a lock of the top level beyond the end of the array of
-- locks, since that array has not grown.
pub resize_then_query_beyond :
    {t : LevelHash}
    → IsValid t
    → t.lock_width 0 ≡ t.width 0
    → Ensures
        (Crowded (t.width 1) (t.buckets 1))
        (λ u.
          (key value : List ℕ)
          → items (has_key (c_str key)) u ≡ 0
          → TakesBeyond u (level_query u key value).events)
        (level_resize true t)
resize_then_query_beyond {t} v same =
    map-Ensures (Crowded (t.width 1) (t.buckets 1)) (Resized t) _ (level_resize true t)
      (level_resize-Resized v)
      (λ u h key value absent.
        query_beyond h.valid key value
          (let old : u.lock_width 0 ≡ t.lock_width 0 = rw h.locks in
            omega (arith, old, h.doubled, v.top))
          absent)
