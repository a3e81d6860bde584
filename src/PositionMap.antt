-- ===== src/PositionMap.antt =====
-- `InMemoryPositionMapAdapter` of path-oram/src/position-map-adapter.cpp: an array of leaves, one
-- for each block. The array of a new adapter is not initialised; its contents are an argument.
pub mod Laws
pub mod Files
use path_oram.Prelude.{
  ℕ, List, Option, none, some, length, set as set_elem, get_elem?, leb, Outcome, ok, throw,
  throw_if, block_out_of_bound, ◌>>=◌, ◌>>◌,
}

pub record PositionMap : Type 0 where
  pub map : List ℕ
  pub capacity : ℕ

-- `map(new number[capacity]), capacity(capacity)`, over what the memory holds
unfoldable pub new_position_map : (memory : List ℕ) → PositionMap
new_position_map memory = record { map = memory; capacity = length memory }

unfoldable pub check_capacity : PositionMap → ℕ → Outcome (Unit {0})
check_capacity m block = throw_if (leb m.capacity block) block_out_of_bound

-- The cell that the check has let through. The other branch is out of the array, which the check
-- excludes where the array has `capacity` cells.
abbrev read_cell : Option ℕ → Outcome ℕ
read_cell (some leaf) = ok leaf
read_cell none = throw block_out_of_bound

unfoldable pub get : PositionMap → ℕ → Outcome ℕ
unfolding check_capacity
get m block = do check_capacity m block; read_cell (get_elem? m.map block)

unfoldable pub set : PositionMap → ℕ → ℕ → Outcome PositionMap
unfolding check_capacity
set m block leaf = do check_capacity m block; ok (record m { map = set_elem m.map block leaf })
