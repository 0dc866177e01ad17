-- ===== src/StringHash/Rounds.antt =====
-- The loops of `string_key_hash_computation` in src/levelhash/hash.c end within the rounds that the
-- model gives them.
use hashcomp.Common.{
  ℕ, zero, suc, ◌-◌, ◌≤◌, ◌<◌, ◌≡◌, refl, true, false, List, [], ◌∷◌, leb, length, arith,
  Bool-cases, inl, inr, ◌∙◌,
}
use hashcomp.StringHash.{Lanes, skip, mix_stripe, mix_stripes, mix_word, tail_words}

length-skip : (n : ℕ) (p : List ℕ) → length (skip n p) ≡ length p - n
unfolding skip
length-skip zero p = omega arith
length-skip (suc n) [] = omega arith
length-skip (suc n) (b ∷ p) = omega (arith, length-skip n p)

predecessor : (n : ℕ) → 0 < n → (k : ℕ) × (n ≡ suc k)
predecessor zero h = absurd (omega arith)
predecessor (suc k) h = (k, refl)

nonzero : (n : ℕ) (p : List ℕ) → leb 8 (length p) ≡ true → length p ≤ n → (k : ℕ) × (n ≡ suc k)
nonzero n p long enough =
    let some_bytes : 8 ≤ length p = ground arith in
    predecessor n (omega (arith, some_bytes, enough))

module _ (align : ℕ) where
  tail_words_stop :
      (fuel : ℕ) (p : List ℕ) (h : ℕ)
      → leb 8 (length p) ≡ false
      → tail_words align fuel p h ≡ (h, p)
  unfolding tail_words
  tail_words_stop zero p h short = refl
  tail_words_stop (suc fuel) p h short = rw short refl

  tail_words_go :
      (fuel : ℕ) (p : List ℕ) (h : ℕ)
      → leb 8 (length p) ≡ true
      → tail_words align (suc fuel) p h ≡ tail_words align fuel (skip 8 p) (mix_word align p h)
  unfolding tail_words
  tail_words_go fuel p h long = rw long refl

  -- The loop over words: with as many rounds as there are bytes, or more, it ends, fewer than 8 bytes
  -- are left, and the number of rounds plays no part.
  pub tail_words_rounds :
      (fuel : ℕ) (p : List ℕ) (h : ℕ)
      → length p ≤ fuel
      → (length (tail_words align fuel p h).1 < 8)
        × ((more : ℕ) → length p ≤ more → tail_words align more p h ≡ tail_words align fuel p h)
  tail_words_rounds zero p h few =
      let short : leb 8 (length p) ≡ false = ground arith in
      rw (tail_words_stop zero p h short)
        (omega (arith, few), λ more enough. tail_words_stop more p h short)
  tail_words_rounds (suc fuel) p h few = elim (Bool-cases (leb 8 (length p))) [
    | inl long ↦
        let size = length-skip 8 p in
        let rest =
          tail_words_rounds fuel (skip 8 p) (mix_word align p h) (omega (arith, size, few)) in
        rw (tail_words_go fuel p h long) (
          rest.0,
          λ more enough.
              let (k, e) = nonzero more p long enough in
              rw e (tail_words_go k p h long ∙ rest.1 k (omega (arith, size, e, enough))),
        )
    | inr short ↦
        rw (tail_words_stop (suc fuel) p h short)
          (ground arith, λ more enough. tail_words_stop more p h short)
  ]

  mix_stripes_go :
      (fuel : ℕ) (p : List ℕ) (v : Lanes)
      → leb 32 (length (skip 32 p)) ≡ true
      → mix_stripes align (suc fuel) p v ≡ mix_stripes align fuel (skip 32 p) (mix_stripe align p v)
  unfolding mix_stripes
  mix_stripes_go fuel p v long = rw long refl

  mix_stripes_stop :
      (fuel : ℕ) (p : List ℕ) (v : Lanes)
      → leb 32 (length (skip 32 p)) ≡ false
      → mix_stripes align (suc fuel) p v ≡ (mix_stripe align p v, skip 32 p)
  unfolding mix_stripes
  mix_stripes_stop fuel p v short = rw short refl

  -- The loop over stripes, which runs for 32 bytes or more: with as many rounds as there are bytes, or
  -- more, it ends, fewer than 32 bytes are left, and the number of rounds plays no part.
  pub mix_stripes_rounds :
      (fuel : ℕ) (p : List ℕ) (v : Lanes)
      → 32 ≤ length p
      → length p ≤ fuel
      → (length (mix_stripes align fuel p v).1 < 32)
        × ((more : ℕ) → length p ≤ more → mix_stripes align more p v ≡ mix_stripes align fuel p v)
  mix_stripes_rounds zero p v some_bytes few = absurd (omega (arith, some_bytes, few))
  mix_stripes_rounds (suc fuel) p v some_bytes few =
      let size = length-skip 32 p in
      elim (Bool-cases (leb 32 (length (skip 32 p)))) [
        | inl long ↦
            let rest =
              mix_stripes_rounds fuel (skip 32 p) (mix_stripe align p v) (ground arith)
                (omega (arith, size, few)) in
            rw (mix_stripes_go fuel p v long) (
              rest.0,
              λ more enough.
                  let (k, e) = predecessor more (omega (arith, some_bytes, enough)) in
                  rw e (mix_stripes_go k p v long ∙ rest.1 k (omega (arith, size, e, enough))),
            )
        | inr short ↦ rw (mix_stripes_stop fuel p v short) (
          ground arith,
          λ more enough.
              let (k, e) = predecessor more (omega (arith, some_bytes, enough)) in
              rw e (mix_stripes_stop k p v short),
        )
      ]
