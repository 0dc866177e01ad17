-- ===== src/MicroTest/Passes.antt =====
-- The three passes of `simpleInsert` on the map that the table stores.
use hashcomp.Common.{
  ℕ, zero, suc, ◌+◌, ◌%◌, ◌^◌, ◌≤◌, ◌<◌, ◌≡◌, refl, ap, ◌∙◌, inl, inr, ◌⊎◌, true, false, Option,
  none, some, List, ◌==◌, arith, take, beq, beq_refl, beq_symm, total, total_congr,
}
use hashcomp.Level.{key_len, value_len, LevelHash, c_str}
use hashcomp.Level.Insert.{level_insert}
use hashcomp.Level.Valid.{has_nul}
use hashcomp.Level.Models.{Map, put, Models, answer, code, Models-query, Models-insert}
use hashcomp.MicroTest.{Pass, insert_pass, query_pass}

-- 1 for a value, 0 for none
abbrev pub present : Option (List ℕ) → ℕ
present none = 0
present (some v) = 1

-- The first `n` keys end within KEY_LEN bytes, and no two of them are the same string.
pub record AreKeys (keys : ℕ → List ℕ) (n : ℕ) : Type 0 where
  pub ends : (i : ℕ) → i < n → has_nul (take key_len (keys i)) ≡ true
  pub differ : (i j : ℕ) → i < j → j < n → beq (c_str (keys i)) (c_str (keys j)) ≡ false

-- A status of 0 or 1 that tells whether there is a value.
pub reported :
    {s : ℕ} (o : Option (List ℕ))
    → s ≡ code o
    → (((s == 0) ≡ true) × (present o ≡ 1)) ⊎ (((s == 0) ≡ false) × (present o ≡ 0))
reported none h = inr (ground arith, refl)
reported (some v) h = inl (ground arith, refl)

answer-code : (o : Option (List ℕ)) (buffer : List ℕ) → (answer o buffer).0 ≡ code o
answer-code none buffer = refl
answer-code (some v) buffer = refl

module _ (keys : ℕ → List ℕ) where
  abbrev pub text : ℕ → List ℕ
  text i = c_str (keys i)

  -- How many of the first `n` keys a map has.
  abbrev pub among : ℕ → Map → ℕ
  among n f = total n (λ i. present (f (text i)))

  -- Two maps that differ at most at the first `n` keys.
  abbrev pub Elsewhere : ℕ → Map → Map → Type 0
  Elsewhere n f g =
      (other : List ℕ) → ((i : ℕ) → i < n → beq other (text i) ≡ false) → g other ≡ f other

  among-put :
      (n : ℕ) (g : Map) (o : Option (List ℕ))
      → ((i : ℕ) → i < n → beq (text i) (text n) ≡ false)
      → among (suc n) (put g (text n) o) ≡ among n g + present o
  unfolding total
  among-put n g o differ =
      let earlier =
        total_congr n (λ i. present (put g (text n) o (text i))) (λ i. present (g (text i)))
          (λ i lt. rw (differ i lt)) in
      rw (beq_refl (text n)) (omega (arith, earlier))

  pub Elsewhere-put :
      {n : ℕ} {f g : Map} (o : Option (List ℕ))
      → Elsewhere n f g
      → Elsewhere (suc n) f (put g (text n) o)
  Elsewhere-put {n} o h other apart =
      rw (apart n (omega arith)) (h other (λ i lt. apart i (omega arith)))

  pub record Inserted (f : Map) (n : ℕ) (s : Pass) : Type 0 where
    pub stored : Map
    pub models : Models s.table stored
    pub same : Elsewhere n f stored
    pub counted : s.count ≡ among n stored
    pub most : s.count ≤ n

  pub insert_pass-Inserted :
      {t : LevelHash} {f : Map} (n : ℕ)
      → Models t f
      → AreKeys keys n
      → ((i : ℕ) → i < n → f (text i) ≡ none)
      → n < 2 ^ 31
      → Inserted f n (insert_pass keys n t)
  unfolding insert_pass total
  insert_pass-Inserted zero m k absent room = record {
    stored = _;
    models = m;
    same = λ other apart. refl;
    counted = refl;
    most = omega arith;
  }
  insert_pass-Inserted {t} {f} (suc n) m k absent room =
      let before : AreKeys keys n = record {
        ends = λ i lt. k.ends i (omega arith);
        differ = λ i j ij lt. k.differ i j ij (omega arith);
      } in
      let s = insert_pass keys n t in
      let h = insert_pass-Inserted n m before (λ i lt. absent i (omega arith)) (omega arith) in
      let new : h.stored (text n) ≡ none =
        h.same (text n) (λ i lt. beq_symm (text n) (text i) ∙ k.differ i n lt (omega arith))
        ∙ absent n (omega arith) in
      elim (Models-insert h.models (keys n) (keys n) (k.ends n (omega arith)) new) [
        | inl (ok, models) ↦
            let zero_status : ((level_insert s.table (keys n) (keys n)).status == 0) ≡ true =
              ground arith in
            let next : (s.count + 1) % 2 ^ 32 ≡ s.count + 1 = omega (arith, h.most) in
            rw zero_status (record {
              stored = _;
              models = models;
              same = Elsewhere-put _ h.same;
              counted = omega (
                arith,
                next,
                h.counted,
                among-put n h.stored (some (take value_len (keys n)))
                    (λ i lt. k.differ i n lt (omega arith)),
              );
              most = omega (arith, next, h.most);
            })
        | inr (full, unchanged) ↦
            let status : ((level_insert s.table (keys n) (keys n)).status == 0) ≡ false =
              ground arith in
            rw (status, unchanged)
              (record {
                stored = h.stored;
                models = h.models;
                same = λ other apart. h.same other (λ i lt. apart i (omega arith));
                counted = rw new (omega (arith, h.counted));
                most = omega (arith, h.most);
              })
      ]

  pub record Queried (g : Map) (n : ℕ) (s : Pass) : Type 0 where
    pub models : Models s.table g
    pub counted : s.count ≡ among n g
    pub most : s.count ≤ n

  -- The queries count the keys that the map has.
  pub query_pass-Queried :
      {t : LevelHash} {g : Map} (n : ℕ) (value : List ℕ)
      → Models t g
      → n < 2 ^ 31
      → Queried g n (query_pass keys n t value)
  unfolding query_pass total
  query_pass-Queried zero value m room = record { models = m; counted = refl; most = omega arith }
  query_pass-Queried {t} {g} (suc n) value m room =
      let s = query_pass keys n t value in
      let h = query_pass-Queried n value m (omega arith) in
      let next : (s.count + 1) % 2 ^ 64 ≡ s.count + 1 = omega (arith, h.most) in
      let status =
        ap (λ r. r.0) (Models-query h.models (keys n) s.value) ∙ answer-code (g (text n)) s.value in
      elim (reported (g (text n)) status) [
        | inl (ok, has) ↦ rw ok (record {
          models = h.models;
          counted = omega (arith, next, h.counted, has);
          most = omega (arith, next, h.most);
        })
        | inr (missed, has) ↦ rw missed (record {
          models = h.models;
          counted = omega (arith, h.counted, has);
          most = omega (arith, h.most);
        })
      ]
