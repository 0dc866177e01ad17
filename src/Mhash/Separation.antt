-- ===== src/Mhash/Separation.antt =====
-- The fragments of `level_hash` in src/mhash/util.h determine the hash.
use native.Mathlib.Nat.{div-div-eq-div-mul}
use native.Mathlib.Omega.{pow_step}
use hashcomp.Common.{ℕ, zero, suc, ◌*◌, ◌/◌, ◌%◌, ◌^◌, ◌≤◌, ◌<◌, ◌≡◌, arith, sym, ap, ◌∙◌}
use hashcomp.Mhash.{level_hash}
use hashcomp.Mhash.Basic.{index_at}
use hashcomp.Mhash.BasicMap.{Keys}

-- What is left of a hash above `level` fragments of 4 bits.
abbrev above : ℕ → ℕ → ℕ
above hash level = hash / 2 ^ (4 * level)

above-suc : (hash level : ℕ) → above hash (suc level) ≡ above hash level / 16
above-suc hash level =
    let x = 4 * level in
    let four : 4 * suc level ≡ suc (suc (suc (suc x))) = omega arith in
    let power : 2 ^ suc (suc (suc (suc x))) ≡ 2 ^ x * 16 = omega (
      arith,
      pow_step 2 x,
      pow_step 2 (suc x),
      pow_step 2 (suc (suc x)),
      pow_step 2 (suc (suc (suc x))),
    ) in
    ap (λ y. hash / 2 ^ y) four
    ∙ ap (λ y. hash / y) power
    ∙ sym (div-div-eq-div-mul hash (2 ^ (4 * level)) 16)

-- Two numbers that agree above some fragments and in each of these are equal.
pub fragments_eq :
    (n g h : ℕ)
    → above g n ≡ above h n
    → ((l : ℕ) → l < n → index_at 4 g l ≡ index_at 4 h l)
    → g ≡ h
unfolding level_hash
fragments_eq zero g h e agree = omega (arith, e)
fragments_eq (suc n) g h e agree =
    let rest : above g n / 16 ≡ above h n / 16 = sym (above-suc g n) ∙ e ∙ above-suc h n in
    let here : above g n % 16 ≡ above h n % 16 = agree n (omega arith) in
    fragments_eq n g h (omega (arith, rest, here)) (λ l lt. agree l (omega arith))

-- If all hashes have 64 bits and the fragments have 4, then 16 levels or more tell the hashes
-- apart.
pub wide_keys-Keys :
    {K : Type 0} (hasher : K → ℕ) (n : ℕ)
    → 16 ≤ n
    → ((k : K) → hasher k < 2 ^ 64)
    → Keys hasher 4 n (λ h. h < 2 ^ 64)
wide_keys-Keys hasher n big small = record {
  hashes = small;
  apart = λ h lt g gt agree.
      fragments_eq 16 g h (omega (arith, lt, gt)) (λ l below. agree l (omega arith) (omega arith));
}
