-- ===== src/Mhash.antt =====
-- Tries of src/mhash: the fragments of a hash by which they descend, src/mhash/util.h. The children
-- hold the tables.
pub mod Basic
pub mod Separation
pub mod BasicFind
pub mod BasicInsert
pub mod BasicMap
pub mod Collision
pub mod Unique
pub mod Size
mod Tests
use hashcomp.Common.{ℕ, ◌*◌, ◌/◌, ◌%◌, ◌^◌}

-- `(hash >> (total_level * level)) & (arr_size - 1)`, for an `arr_size` that is a power of 2 and a
-- shift below 64
unfoldable pub level_hash : ℕ → ℕ → ℕ → ℕ → ℕ
level_hash hash level arr_size total_level = hash / 2 ^ (total_level * level) % arr_size
