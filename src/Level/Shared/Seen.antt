-- ===== src/Level/Shared/Seen.antt =====
-- The searches among other threads that keep an invariant `R` and do not resize the table.
use hashcomp.Common.{
  ℕ, suc, ◌/◌, ◌≡◌, ◌⊎◌, refl, ap, inl, inr, true, false, none, some, List, [], ◌∷◌, ◌++◌,
  Bool-cases,
}
use hashcomp.Level.{LevelHash, Pos, f_hash, s_hash, f_idx, s_idx, slots_of, holds_key, query_order}
use hashcomp.Level.Scan.{All, All-append, All-append_left, All-append_right}
use hashcomp.Level.Shared.{Looked, look_at_slots, look_level, look_bottom, search_key}

module _ (others : ℕ → LevelHash → LevelHash) (R : LevelHash → Type 0)
    (keeps : (clock : ℕ) (u : LevelHash) → R u → R (others clock u)) (text : List ℕ)
    (Q : Pos → Type 0) where
  -- The slot has been seen without the key, in a table of the invariant.
  pub record SeenWithout (p : Pos) : Type 0 where
    pub table : LevelHash
    pub holds : R table
    pub absent : holds_key table text p ≡ false

  -- A slot has the key, in the table of the last turn.
  pub record SeenWith (r : Looked) : Type 0 where
    pub p : Pos
    pub at : r.at ≡ some p
    pub visited : Q p
    pub holds : R r.table
    pub present : holds_key r.table text p ≡ true

  pub record SeenNowhere (ps : List Pos) (r : Looked) : Type 0 where
    pub at : r.at ≡ none
    pub holds : R r.table
    pub absent : All SeenWithout ps

  look_at_slots-Seen :
      (ps : List Pos) (clock : ℕ) (t : LevelHash)
      → R t
      → All Q ps
      → SeenWith (look_at_slots others text ps clock t)
        ⊎ SeenNowhere ps (look_at_slots others text ps clock t)
  unfolding look_at_slots
  look_at_slots-Seen [] clock t h qs = inr (record { at = refl; holds = h; absent = tt })
  look_at_slots-Seen (p ∷ ps) clock t h qs =
      let u = others clock t in
      let k = keeps clock t h in
      elim (Bool-cases (holds_key u text p)) [
        | inl yes_here ↦ inl (
            rw yes_here
              (record { p = p; at = refl; visited = qs.0; holds = k; present = yes_here }))
        | inr not_here ↦ elim (look_at_slots-Seen ps (suc clock) u k qs.1) [
          | inl found ↦ inl (rw not_here found)
          | inr missed ↦ inr (
              rw not_here (record {
                at = missed.at;
                holds = missed.holds;
                absent = (record { table = u; holds = k; absent = not_here }, missed.absent);
              }))
        ]
      ]

  module _ (c : ℕ) (capacity : (u : LevelHash) → R u → u.addr_capacity ≡ c) where
    at_capacity :
        (x y : ℕ) (ps : ℕ → ℕ → List Pos) (r : Looked)
        → x ≡ c
        → y ≡ c
        → (All Q (ps x y) → SeenWith r ⊎ SeenNowhere (ps x y) r)
        → All Q (ps c c)
        → SeenWith r ⊎ SeenNowhere (ps c c) r
    at_capacity x y ps r ex ey h = rw (ex, ey) at h

    level-Seen :
        (fh sh clock : ℕ) (t : LevelHash)
        → R t
        → All Q (slots_of 0 (f_idx fh c) ++ slots_of 0 (s_idx sh c))
        → SeenWith (look_level others fh sh text clock t)
          ⊎ SeenNowhere
              (slots_of 0 (f_idx fh c) ++ slots_of 0 (s_idx sh c))
              (look_level others fh sh text clock t)
    unfolding look_level
    level-Seen fh sh clock t h qs =
        let a = others clock t in
        let ka = keeps clock t h in
        let b = others (suc clock) a in
        let kb = keeps (suc clock) a ka in
        at_capacity a.addr_capacity b.addr_capacity
          (λ x y. slots_of 0 (f_idx fh x) ++ slots_of 0 (s_idx sh y)) _ (capacity a ka)
          (capacity b kb) (λ qs'. look_at_slots-Seen _ _ b kb qs') qs

    bottom-Seen :
        (fh sh clock : ℕ) (t : LevelHash)
        → R t
        → All Q (slots_of 1 (f_idx fh (c / 2)) ++ slots_of 1 (s_idx sh (c / 2)))
        → SeenWith (look_bottom others fh sh text clock t)
          ⊎ SeenNowhere
              (slots_of 1 (f_idx fh (c / 2)) ++ slots_of 1 (s_idx sh (c / 2)))
              (look_bottom others fh sh text clock t)
    unfolding look_bottom
    bottom-Seen fh sh clock t h qs =
        let a = others clock t in
        let ka = keeps clock t h in
        let b = others (suc clock) a in
        let kb = keeps (suc clock) a ka in
        at_capacity a.addr_capacity b.addr_capacity
          (λ x y. slots_of 1 (f_idx fh (x / 2)) ++ slots_of 1 (s_idx sh (y / 2))) _ (capacity a ka)
          (capacity b kb) (λ qs'. look_at_slots-Seen _ _ b kb qs') qs

    abbrev levels : ℕ → ℕ → ℕ → List Pos
    levels fh sh x =
        slots_of 0 (f_idx fh x)
        ++ (slots_of 0 (s_idx sh x)
            ++ (slots_of 1 (f_idx fh (x / 2)) ++ slots_of 1 (s_idx sh (x / 2))))

    joined :
        (P : Pos → Type 0) (fh sh : ℕ)
        → All P (slots_of 0 (f_idx fh c) ++ slots_of 0 (s_idx sh c))
        → All P (slots_of 1 (f_idx fh (c / 2)) ++ slots_of 1 (s_idx sh (c / 2)))
        → All P (levels fh sh c)
    joined P fh sh top bottom =
        All-append P _ _ (All-append_left P _ _ top)
          (All-append P _ _ (All-append_right P (slots_of 0 (f_idx fh c)) _ top) bottom)

    parted :
        (P : Pos → Type 0) (fh sh : ℕ)
        → All P (levels fh sh c)
        → All P (slots_of 0 (f_idx fh c) ++ slots_of 0 (s_idx sh c))
          × All P (slots_of 1 (f_idx fh (c / 2)) ++ slots_of 1 (s_idx sh (c / 2)))
    parted P fh sh h =
        let rest = All-append_right P (slots_of 0 (f_idx fh c)) _ h in
        (
          All-append P _ _ (All-append_left P _ _ h)
              (All-append_left P (slots_of 0 (s_idx sh c)) _ rest),
          All-append_right P (slots_of 0 (s_idx sh c)) _ rest,
        )

    -- The order of the loops on a table of that capacity
    order_at :
        (t : LevelHash)
        → t.addr_capacity ≡ c
        → query_order t text ≡ levels (f_hash t text) (s_hash t text) c
    unfolding query_order
    order_at t e = ap (levels (f_hash t text) (s_hash t text)) e

    pub search_key-Seen :
        (clock : ℕ) (t : LevelHash)
        → R t
        → All Q (query_order t text)
        → SeenWith (search_key others text clock t)
          ⊎ SeenNowhere (query_order t text) (search_key others text clock t)
    unfolding search_key
    search_key-Seen clock t h qs =
        let fh = f_hash t text in
        let sh = s_hash t text in
        let top = look_level others fh sh text clock t in
        let (at_top, at_bottom) = parted Q fh sh (rw (order_at t (capacity t h)) at qs) in
        elim (level-Seen fh sh clock t h at_top) [
          | inl found ↦ inl (rw (found.at, search_key) found)
          | inr missed ↦ elim (bottom-Seen fh sh top.clock top.table missed.holds at_bottom) [
            | inl found ↦ inl (rw (missed.at, search_key) found)
            | inr nowhere ↦ inr (
                rw (missed.at, search_key)
                  (record {
                    at = nowhere.at;
                    holds = nowhere.holds;
                    absent =
                        rw (order_at t (capacity t h))
                          (joined SeenWithout fh sh missed.absent nowhere.absent);
                  }))
          ]
        ]
