-- ===== src/Tree.antt =====
-- The arithmetic of the tree: `ORAM::bucketForLevelLeaf`, `ORAM::canInclude` and
-- `ORAM::leavesForLocation` of path-oram/src/oram.cpp. The root is location 1, and the children of a
-- location are twice it and its successor. `1 << k` of the source is an `int`, so the height is at
-- most 31; `HasHeight` carries that, and every caller's level is below the height.
pub mod Shifts
pub mod Path
use Shifts.{sub64, mul64, floor_log2}
use path_oram.Prelude.{ℕ, suc, ◌+◌, ◌-◌, ◌/◌, ◌%◌, ◌^◌, ◌≤◌, Bool, ◌==◌}
use path_oram.Prelude.Words.{u64_mod}

pub record HasHeight (height : ℕ) : Type 0 where
  pub lower : 1 ≤ height
  pub upper : height ≤ 31

-- `(leaf + (1 << (height - 1))) >> (height - 1 - level)`
unfoldable pub bucket_for_level_leaf : ℕ → ℕ → ℕ → ℕ
bucket_for_level_leaf height level leaf =
    (leaf + 2 ^ (height - 1)) % u64_mod / 2 ^ (height - 1 - level)

unfoldable pub can_include : ℕ → ℕ → ℕ → ℕ → Bool
can_include height path_leaf block_position level =
    bucket_for_level_leaf height level path_leaf
    == bucket_for_level_leaf height level block_position

-- The first and the last leaf below a location.
unfoldable pub leaves_for_location : ℕ → ℕ → ℕ × ℕ
unfolding sub64 mul64
leaves_for_location height location =
    let to_leaves = height - floor_log2 location - 1 in
    (
      sub64 (mul64 location (2 ^ to_leaves)) (2 ^ (height - 1)),
      sub64 (sub64 (mul64 (location + 1) (2 ^ to_leaves)) 1) (2 ^ (height - 1)),
    )
