-- ===== src/Level/Resize.antt =====
-- `level_resize`, `level_init` and `generate_seeds` of src/levelhash/level_hashing.c.
use hashcomp.Common.{
  ℕ, zero, suc, ◌+◌, ◌-◌, ◌*◌, ◌%◌, ◌^◌, Option, none, some, List, [], ◌∷◌, Bool, not, ◌&&◌, ◌==◌,
  if◌then◌else◌, update,
}
use hashcomp.Level.{
  Bucket, LevelHash, Pos, key_text, f_bucket, s_bucket, fill, empty, slots_of_pair, walk,
}

-- A function that may end in `exit(1)`, with the number of the message that it prints.
pub data Outcome {ℓ} (A : Type ℓ) : Type ℓ where
  done : A → Outcome A
  exit : ℕ → Outcome A

infixl 5 ◌>>=◌
abbrev pub ◌>>=◌ {ℓ κ} : {A : Type ℓ} {B : Type κ} → Outcome A → (A → Outcome B) → Outcome B
done a >>= f = f a
exit n >>= f = exit n

-- An array from `calloc`: all bytes are 0.
abbrev zeros : List ℕ
zeros = 0 ∷ 0 ∷ 0 ∷ 0 ∷ 0 ∷ 0 ∷ 0 ∷ 0 ∷ []

abbrev pub zeroed : ℕ → Bucket
zeroed i = record { token = λ j. 0; slot = λ j. record { key = zeros; value = zeros } }

-- While the items move: `level->buckets[1]`, whose tokens are cleared, and the new buckets.
pub record Rehash : Type 0 where
  pub bottom : ℕ → Bucket
  pub new_buckets : ℕ → Bucket

abbrev pub new_token : Rehash → Pos → ℕ
new_token r p = (r.new_buckets p.idx).token p.slot

-- The body of the two outer loops, for slot `i` of bucket `old_idx`. The loop over the new slots is
-- that of `walk`, without its locks; `t` has its new capacity already.
unfoldable pub rehash_slot : LevelHash → Rehash → ℕ → ℕ → Outcome Rehash
rehash_slot t r old_idx i =
    let b = r.bottom old_idx in
    let text = key_text (b.slot i) in
    let (found, _) =
      walk (λ p. new_token r p == 0)
        (slots_of_pair 0 (f_bucket t text t.addr_capacity) (s_bucket t text t.addr_capacity)) in
    if b.token i == 1
    then elim found [
      | some p ↦ done (record {
        bottom = update r.bottom old_idx (empty b i);
        new_buckets = update r.new_buckets p.idx (fill (r.new_buckets p.idx) p.slot (b.slot i));
      })
      | none ↦ exit 3
    ]
    else done r

unfoldable pub rehash_bucket : LevelHash → Rehash → ℕ → Outcome Rehash
rehash_bucket t r old_idx = rehash_slot t r old_idx 0 >>= λ r0. rehash_slot t r0 old_idx 1 >>= λ r1.
    rehash_slot t r1 old_idx 2 >>= λ r2. rehash_slot t r2 old_idx 3

-- `for (old_idx = 0; old_idx < n; old_idx++)`
unfoldable pub rehash_all : LevelHash → ℕ → Rehash → Outcome Rehash
rehash_all t zero r = done r
rehash_all t (suc n) r = rehash_all t n r >>= λ r'. rehash_bucket t r' n

-- After the loop: the old top level becomes the bottom level.
abbrev pub resized : LevelHash → Rehash → LevelHash
resized t r = record t {
  level_size = t.level_size + 1;
  total_capacity = 2 ^ (t.level_size + 1) + 2 ^ (t.level_size + 1 - 1);
  buckets = update (update t.buckets 1 (t.buckets 0)) 0 r.new_buckets;
  width = update (update t.width 1 (t.width 0)) 0 t.addr_capacity;
  level_resize = (t.level_resize + 1) % 2 ^ 8;
}

-- `allocated` tells whether `calloc` returned memory.
unfoldable pub level_resize : Bool → LevelHash → Outcome LevelHash
level_resize allocated t0 =
    let t : LevelHash = record t0 { addr_capacity = 2 ^ (t0.level_size + 1) } in
    let start : Rehash = record { bottom = t.buckets 1; new_buckets = zeroed } in
    if not allocated
    then exit 2
    else (rehash_all t (2 ^ (t.level_size - 1)) start >>= λ r. done (resized t r))

-- The four calls of `rand` in one round of `generate_seeds`.
pub record Draw : Type 0 where
  pub f : ℕ
  pub s : ℕ
  pub f_shift : ℕ
  pub s_shift : ℕ

-- `seed << (rand() % 63)`
abbrev pub shift_seed : ℕ → ℕ → ℕ
shift_seed seed shift = seed * 2 ^ (shift % 63) % 2 ^ 64

-- The rounds end when the seeds differ; `none` if they do not for any of the given draws.
unfoldable pub generate_seeds : List Draw → Option (ℕ × ℕ)
generate_seeds [] = none
generate_seeds (d ∷ ds) =
    let rest = generate_seeds ds in
    let f = shift_seed d.f d.f_shift in
    let s = shift_seed d.s d.s_shift in if f == s then rest else some (f, s)

-- Which of the calls of `malloc` and `calloc` whose result is tested returned memory.
pub record Memory : Type 0 where
  pub table : Bool
  pub top : Bool
  pub bottom : Bool

-- `thread_num` is left as `malloc` gives it. The two arrays of locks are as wide as their levels.
abbrev pub fresh_table : ℕ → ℕ → ℕ → ℕ → LevelHash
fresh_table level_size thread_num f_seed s_seed = record {
  buckets = λ l. zeroed;
  width = λ l. if l == 0 then 2 ^ level_size else 2 ^ (level_size - 1);
  lock_width = λ l. if l == 0 then 2 ^ level_size else 2 ^ (level_size - 1);
  thread_num = thread_num;
  addr_capacity = 2 ^ level_size;
  total_capacity = 2 ^ level_size + 2 ^ (level_size - 1);
  level_size = level_size;
  level_resize = 0;
  f_seed = f_seed;
  s_seed = s_seed;
}

unfoldable pub level_init : Memory → ℕ → List Draw → ℕ → Option (Outcome LevelHash)
level_init memory level_size draws thread_num =
    if not memory.table then some (exit 1) else elim (generate_seeds draws) [
      | none ↦ none
      | some (f, s) ↦ some (
          if memory.top && memory.bottom
          then done (fresh_table level_size thread_num f s)
          else exit 2)
    ]
