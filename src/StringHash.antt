-- ===== src/StringHash.antt =====
-- The hash of string keys, src/levelhash/hash.c. A pointer and a length are the list of the bytes
-- that stand there; a `uint64_t` is a native number, wrapped after each operation.
pub mod Rounds
mod Tests
use Prim.Native.Nat.{bit_or, bit_xor}
use hashcomp.Common.{
  ℕ, zero, suc, ◌+◌, ◌-◌, ◌*◌, ◌/◌, ◌%◌, ◌^◌, List, [], ◌∷◌, leb, ◌==◌, if◌then◌else◌, length,
}

abbrev number64_1 : ℕ
number64_1 = 11400714785074694791

abbrev number64_2 : ℕ
number64_2 = 14029467366897019727

abbrev number64_3 : ℕ
number64_3 = 1609587929392839161

abbrev number64_4 : ℕ
number64_4 = 9650029242287828579

abbrev number64_5 : ℕ
number64_5 = 2870177450012600261

add64 : ℕ → ℕ → ℕ
add64 a b = (a + b) % 2 ^ 64

sub64 : ℕ → ℕ → ℕ
sub64 a b = (a + 2 ^ 64 - b) % 2 ^ 64

mul64 : ℕ → ℕ → ℕ
mul64 a b = a * b % 2 ^ 64

-- `(x << r) | (x >> (64 - r))`
shifting_hash : ℕ → ℕ → ℕ
shifting_hash x r = bit_or (x * 2 ^ r % 2 ^ 64) (x / 2 ^ (64 - r))

-- The next bytes as a little-endian word: `n` of them, or as many as there are.
read_bytes : ℕ → List ℕ → ℕ
read_bytes zero p = 0
read_bytes (suc n) [] = 0
read_bytes (suc n) (b ∷ p) = b + 256 * read_bytes n p

-- `p += n`
unfoldable skip : ℕ → List ℕ → List ℕ
skip zero p = p
skip (suc n) [] = []
skip (suc n) (b ∷ p) = skip n p

-- Both branches load the word; they differ in the type of the pointer alone.
unfoldable hash_read64_align : List ℕ → ℕ → ℕ
hash_read64_align p align = if align == 0 then read_bytes 8 p else read_bytes 8 p

unfoldable hash_read32_align : List ℕ → ℕ → ℕ
hash_read32_align p align = if align == 0 then read_bytes 4 p else read_bytes 4 p

record Lanes : Type 0 where
  v1 : ℕ
  v2 : ℕ
  v3 : ℕ
  v4 : ℕ

-- `v += word * NUMBER64_2; v = shifting_hash(v, 31); v *= NUMBER64_1`
mix_lane : ℕ → ℕ → ℕ
mix_lane v word = mul64 (shifting_hash (add64 v (mul64 word number64_2)) 31) number64_1

-- One round of the `do` loop, over 32 bytes.
unfoldable mix_stripe : ℕ → List ℕ → Lanes → Lanes
mix_stripe align p v = record {
  v1 = mix_lane v.v1 (hash_read64_align p align);
  v2 = mix_lane v.v2 (hash_read64_align (skip 8 p) align);
  v3 = mix_lane v.v3 (hash_read64_align (skip 16 p) align);
  v4 = mix_lane v.v4 (hash_read64_align (skip 24 p) align);
}

-- `do { … } while (p <= end - 32)`: `fuel` counts rounds, and the length of the key is enough.
unfoldable mix_stripes : ℕ → ℕ → List ℕ → Lanes → Lanes × List ℕ
mix_stripes align zero p v = (v, p)
mix_stripes align (suc fuel) p v =
    let rest = mix_stripes align fuel (skip 32 p) (mix_stripe align p v) in
    if leb 32 (length (skip 32 p)) then rest else (mix_stripe align p v, skip 32 p)

-- `v *= …; v = shifting_hash(v, 31); v *= …; hash ^= v; hash = hash * … + …`
merge_lane : ℕ → ℕ → ℕ
merge_lane hash v =
    add64
      (mul64 (bit_xor hash (mul64 (shifting_hash (mul64 v number64_2) 31) number64_1)) number64_1)
      number64_4

merge_lanes : Lanes → ℕ
merge_lanes v =
    let h =
      add64 (add64 (add64 (shifting_hash v.v1 1) (shifting_hash v.v2 7)) (shifting_hash v.v3 12))
        (shifting_hash v.v4 18) in
    merge_lane (merge_lane (merge_lane (merge_lane h v.v1) v.v2) v.v3) v.v4

-- The body of the loop over words: `hash ^= k1; hash = shifting_hash(hash, 27) * … + …`
unfoldable mix_word : ℕ → List ℕ → ℕ → ℕ
mix_word align p hash =
    let k1 = mul64 (shifting_hash (mul64 (hash_read64_align p align) number64_2) 31) number64_1 in
    add64 (mul64 (shifting_hash (bit_xor hash k1) 27) number64_1) number64_4

-- `while (p + 8 <= end)`
unfoldable tail_words : ℕ → ℕ → List ℕ → ℕ → ℕ × List ℕ
tail_words align zero p hash = (hash, p)
tail_words align (suc fuel) p hash =
    let rest = tail_words align fuel (skip 8 p) (mix_word align p hash) in
    if leb 8 (length p) then rest else (hash, p)

-- `if (p + 4 <= end)`
unfoldable tail_half : ℕ → List ℕ → ℕ → ℕ × List ℕ
tail_half align p hash =
    if leb 4 (length p)
    then (
      add64
          (mul64 (shifting_hash (bit_xor hash (mul64 (hash_read32_align p align) number64_1)) 23)
            number64_2)
          number64_3,
      skip 4 p,
    )
    else (hash, p)

-- `while (p < end)`
tail_bytes : List ℕ → ℕ → ℕ
tail_bytes [] hash = hash
tail_bytes (b ∷ p) hash =
    tail_bytes p (mul64 (shifting_hash (bit_xor hash (mul64 b number64_5)) 11) number64_1)

avalanche : ℕ → ℕ
avalanche hash =
    let h1 = mul64 (bit_xor hash (hash / 2 ^ 33)) number64_2 in
    let h2 = mul64 (bit_xor h1 (h1 / 2 ^ 29)) number64_3 in bit_xor h2 (h2 / 2 ^ 32)

-- The part before the tail: the four lanes for 32 bytes or more, else the seed.
unfoldable string_key_start : ℕ → List ℕ → ℕ → ℕ × List ℕ
string_key_start align data' seed =
    let (v, p) = mix_stripes align (length data') data' (record {
      v1 = add64 (add64 seed number64_1) number64_2;
      v2 = add64 seed number64_2;
      v3 = add64 seed 0;
      v4 = sub64 seed number64_1;
    }) in
    if leb 32 (length data') then (merge_lanes v, p) else (add64 seed number64_5, data')

unfoldable string_key_hash_computation : List ℕ → ℕ → ℕ → ℕ
string_key_hash_computation data' seed align =
    let (h0, p0) = string_key_start align data' seed in
    let (h1, p1) = tail_words align (length p0) p0 (add64 h0 (length data')) in
    let (h2, p2) = tail_half align p1 h1 in avalanche (tail_bytes p2 h2)

-- The address decides which loads are used.
unfoldable pub hash : ℕ → List ℕ → ℕ → ℕ
unfolding add64 sub64 mul64 shifting_hash read_bytes skip hash_read64_align hash_read32_align
    mix_lane mix_stripe mix_stripes merge_lane merge_lanes mix_word tail_words tail_half tail_bytes
    avalanche string_key_start string_key_hash_computation
hash address data' seed =
    if address % 8 == 0
    then string_key_hash_computation data' seed 1
    else string_key_hash_computation data' seed 0
