-- ===== src/Hasher.antt =====
-- `mhasher` of src/mhash/util/hasher.h, the hash function that the benchmarks give to the tries. Words
-- are native numbers, wrapped to 64 bits after each operation. MurmurHash and CityHash are parameters, of
-- the bytes and the seed.
mod Tests
use Prim.Native.Nat.{bit_or}
use hashcomp.Common.{
  ℕ, zero, suc, ◌+◌, ◌-◌, ◌*◌, ◌/◌, ◌%◌, ◌^◌, List, [], ◌∷◌, length, ltb, if◌then◌else◌,
}
use hashcomp.Level.{c_str}

-- `Rotr64`
unfoldable pub rotr64 : ℕ → ℕ → ℕ
rotr64 x n = bit_or (x / 2 ^ n) (x * 2 ^ (64 - n) % 2 ^ 64)

abbrev pub magic_num : ℕ
magic_num = 40343

-- `hashState = kMagicNum * hashState + str[idx]`, for all that is left
unfoldable pub hash_state : ℕ → List ℕ → ℕ
hash_state state [] = state
hash_state state (x ∷ xs) = hash_state ((magic_num * state + x) % 2 ^ 64) xs

-- `GetHashCode`
unfoldable pub get_hash_code : ℕ → ℕ
get_hash_code input =
    let h0 : ℕ = 8 in
    let h1 = (magic_num * h0 + input % 2 ^ 16) % 2 ^ 64 in
    let h2 = (magic_num * h1 + input / 2 ^ 16 % 2 ^ 16) % 2 ^ 64 in
    let h3 = (magic_num * h2 + input / 2 ^ 32 % 2 ^ 16) % 2 ^ 64 in
    let h4 = (magic_num * h3 + input / 2 ^ 48) % 2 ^ 64 in rotr64 (magic_num * h4 % 2 ^ 64) 43

-- `HashBytes` of 16-bit words
unfoldable pub hash_words : List ℕ → ℕ
hash_words str = rotr64 (magic_num * hash_state (length str) str % 2 ^ 64) 6

-- A `char`, which has a sign, as a 64-bit word
unfoldable pub widen_char : ℕ → ℕ
widen_char b = if ltb b 128 then b else b + 2 ^ 64 - 256

unfoldable pub widen_chars : List ℕ → List ℕ
widen_chars [] = []
widen_chars (b ∷ bs) = widen_char b ∷ widen_chars bs

-- `HashBytes` of the bytes at a `char` pointer
unfoldable pub hash_bytes : List ℕ → ℕ
hash_bytes p =
    let str = widen_chars (c_str p) in rotr64 (magic_num * hash_state (length str) str % 2 ^ 64) 6

-- The bytes of a word in memory, least significant first
unfoldable pub bytes_of : ℕ → ℕ → List ℕ
bytes_of zero x = []
bytes_of (suc n) x = x % 256 ∷ bytes_of n (x / 256)

-- `HASHFUNC`
pub data HashFunc : Type 0 where
  mhasher : HashFunc
  murmur_hash1 : HashFunc
  murmur_hash2 : HashFunc
  murmur_hash3 : HashFunc
  city_hash : HashFunc
  standard : HashFunc

-- A key: a `char` pointer, its address with the bytes there, a `uint64_t`, or a value of another type
pub data Key : Type 0 where
  text : ℕ → List ℕ → Key
  number : ℕ → Key
  another : Key

module _ (murmur1 murmur2 murmur3 city : List ℕ → ℕ → ℕ) (std_text : ℕ → ℕ)
    (std_number : ℕ → ℕ) where
  abbrev pub seed : ℕ
  seed = 40343

  -- `hash`. `std::hash` of a pointer is a function of the address, not of the bytes.
  unfoldable pub mhasher_hash : HashFunc → Key → ℕ
  mhasher_hash mhasher (text addr p) = hash_bytes p
  mhasher_hash murmur_hash1 (text addr p) = murmur1 (c_str p) seed
  mhasher_hash murmur_hash2 (text addr p) = murmur2 (c_str p) seed
  mhasher_hash murmur_hash3 (text addr p) = murmur3 (c_str p) seed
  mhasher_hash city_hash (text addr p) = city (c_str p) seed
  mhasher_hash standard (text addr p) = std_text addr
  mhasher_hash mhasher (number n) = get_hash_code n
  mhasher_hash murmur_hash1 (number n) = murmur1 (bytes_of 8 n) seed
  mhasher_hash murmur_hash2 (number n) = murmur2 (bytes_of 8 n) seed
  mhasher_hash murmur_hash3 (number n) = murmur3 (bytes_of 8 n) seed
  mhasher_hash city_hash (number n) = city (bytes_of 8 n) seed
  mhasher_hash standard (number n) = std_number n
  mhasher_hash mhasher another = 2 ^ 64 - 1
  mhasher_hash murmur_hash1 another = 2 ^ 64 - 1
  mhasher_hash murmur_hash2 another = 2 ^ 64 - 1
  mhasher_hash murmur_hash3 another = 2 ^ 64 - 1
  mhasher_hash city_hash another = 2 ^ 64 - 1
  mhasher_hash standard another = 2 ^ 64 - 1
