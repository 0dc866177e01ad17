-- ===== src/Level/Locks.antt =====
-- The calls of `spin_lock` and `spin_unlock` of one thread, played against the arrays of locks.
use hashcomp.Common.{
  ℕ, ◌<◌, ◌≡◌, refl, Bool, true, false, not, ◌&&◌, ◌||◌, Option, none, some, List, [], ◌∷◌, ◌++◌,
  ◌==◌, ltb, if◌then◌else◌, arith, Bool-cases, inl, inr, ap, ◌∙◌,
}
use mathlib.Core.Option.{some-injective}
use hashcomp.Level.{Pos, Event, acquire, release, walk}
use hashcomp.Level.Scan.{All}

abbrev pub pos_eq : Pos → Pos → Bool
pos_eq p q = p.level == q.level && (p.idx == q.idx && p.slot == q.slot)

abbrev pub held : Pos → List Pos → Bool
held p [] = false
held p (q ∷ s) = pos_eq p q || held p s

-- The locks that the thread holds after the events, the last one first. `none` if it reaches beyond
-- an array, waits for a lock that it holds itself, or releases another than the last that it took.
unfoldable pub replay : (ℕ → ℕ) → List Event → List Pos → Option (List Pos)
replay width [] s = some s
replay width (acquire p ∷ es) s =
    let rest = replay width es (p ∷ s) in
    if ltb p.idx (width p.level) && not (held p s) then rest else none
replay width (release p ∷ es) [] = none
replay width (release p ∷ es) (q ∷ s) =
    let rest = replay width es s in if pos_eq p q then rest else none

pos_eq_refl : (p : Pos) → pos_eq p p ≡ true
pos_eq_refl p = ground arith

-- A lock that may be taken while `s` are held.
abbrev pub IsFree : (ℕ → ℕ) → List Pos → Pos → Type 0
IsFree width s p = (p.idx < width p.level) × (held p s ≡ false)

module _ (width : ℕ → ℕ) where
  pub replay-acquire :
      (p : Pos) (es : List Event) (s : List Pos)
      → IsFree width s p
      → replay width (acquire p ∷ es) s ≡ replay width es (p ∷ s)
  unfolding replay
  replay-acquire p es s f =
      let go : (ltb p.idx (width p.level) && not (held p s)) ≡ true = ground arith in rw go

  pub replay-release :
      (p : Pos) (es : List Event) (s : List Pos)
      → replay width (release p ∷ es) (p ∷ s) ≡ replay width es s
  unfolding replay
  replay-release p es s = rw (pos_eq_refl p)

  pub replay-append :
      (es fs : List Event) (s u : List Pos)
      → replay width es s ≡ some u
      → replay width (es ++ fs) s ≡ replay width fs u
  unfolding replay
  replay-append [] fs s u e = ap (replay width fs) (some-injective s u e)
  replay-append (acquire p ∷ es) fs s u e =
      elim (Bool-cases (ltb p.idx (width p.level) && not (held p s))) [
        | inl go ↦ rw go (replay-append es fs (p ∷ s) u (rw go at e))
        | inr stop ↦ cc (rw stop at e)
      ]
  replay-append (release p ∷ es) fs [] u e = cc
  replay-append (release p ∷ es) fs (q ∷ s) u e = elim (Bool-cases (pos_eq p q)) [
    | inl go ↦ rw go (replay-append es fs s u (rw go at e))
    | inr stop ↦ cc (rw stop at e)
  ]

  abbrev pub still_held : Option Pos → List Pos → List Pos
  still_held none s = s
  still_held (some p) s = p ∷ s

  -- After a `walk` the thread holds what it held before, and the slot that was found.
  pub replay-walk :
      (test : Pos → Bool) (ps : List Pos) (s : List Pos)
      → All (IsFree width s) ps
      → replay width (walk test ps).1 s ≡ some (still_held (walk test ps).0 s)
  unfolding walk
  replay-walk test [] s h = unfold replay in refl
  replay-walk test (p ∷ ps) s h = elim (Bool-cases (test p)) [
    | inl found ↦ rw found (replay-acquire p [] s h.0 ∙ (unfold replay in refl))
    | inr next ↦
        rw (next, replay-acquire p _ s h.0, replay-release p _ s) (replay-walk test ps s h.1)
  ]
