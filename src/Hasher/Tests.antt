-- ===== src/Hasher/Tests.antt =====
-- `mhasher` of src/mhash/util/hasher.h at concrete keys.
use hashcomp.Common.{◌-◌, ◌^◌, ◌%◌, ◌*◌, ◌≡◌, refl, [], ◌∷◌}
use hashcomp.Hasher.{
  rotr64, hash_state, get_hash_code, widen_chars, hash_bytes, mhasher, another, mhasher_hash,
}

-- What is rotated by 6 is rotated back by 58.
rotated_back : rotr64 (rotr64 1234567 6) 58 ≡ 1234567
unfolding rotr64
rotated_back = refl

-- The bytes after the first NUL do not count.
text_ends_at_nul : hash_bytes (65 ∷ 66 ∷ 0 ∷ 67 ∷ []) ≡ hash_bytes (65 ∷ 66 ∷ [])
unfolding hash_bytes
text_ends_at_nul = refl

-- The empty text has the hash 0.
empty_text : hash_bytes [] ≡ 0
unfolding hash_bytes hash_state widen_chars rotr64
empty_text = refl

-- `GetHashCode` of 0 is the same loop over four zeros, from 8.
digits_of_zero : get_hash_code 0 ≡ rotr64 (40343 * hash_state 8 (0 ∷ 0 ∷ 0 ∷ 0 ∷ []) % 2 ^ 64) 43
unfolding get_hash_code hash_state
digits_of_zero = refl

-- Keys that are neither texts nor 64-bit words all have the same hash.
another_hash :
    mhasher_hash (λ p s. 0) (λ p s. 0) (λ p s. 0) (λ p s. 0) (λ p. p) (λ n. n) mhasher another
    ≡ 2 ^ 64 - 1
unfolding mhasher_hash
another_hash = refl
