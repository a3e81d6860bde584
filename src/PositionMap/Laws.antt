-- ===== src/PositionMap/Laws.antt =====
-- What `get` reads after `set`, and when they throw.
use path_oram.Prelude.{
  lt-cases, eq-cases, inl, inr, sym, subst, ok_path, ℕ, zero, suc, ◌≤◌, ◌<◌, ◌≡◌, refl, ◌∙◌, List,
  [], ◌∷◌, Option, some, length, set as set_elem, get_elem?, length-set, get_elem?_of_lt,
  lt→leb_false, if◌then◌else◌, ◌==◌, ok, throw, block_out_of_bound, arith,
}
use path_oram.PositionMap.{PositionMap, check_capacity, get, set}

-- The array has as many cells as the adapter counts on.
pub record IsValid (m : PositionMap) : Type 0 where
  pub cells : length m.map ≡ m.capacity

-- The leaf of a block, where there is one.
abbrev pub leaf_of : PositionMap → ℕ → Option ℕ
leaf_of m block = get_elem? m.map block

pub get_elem?-set :
    (xs : List ℕ) (i j v : ℕ)
    → i < length xs
    → get_elem? (set_elem xs i v) j ≡ (if j == i then some v else get_elem? xs j)
get_elem?-set [] i j v h = elim h [ ]
get_elem?-set (x ∷ xs) zero zero v h = refl
get_elem?-set (x ∷ xs) zero (suc j) v h = ground arith
get_elem?-set (x ∷ xs) (suc i) zero v h = ground arith
get_elem?-set (x ∷ xs) (suc i) (suc j) v h = ground (arith, get_elem?-set xs i j v)

-- A block below the capacity has a leaf, and `get` returns it.
pub get_ok :
    (m : PositionMap) (block : ℕ)
    → IsValid m
    → block < m.capacity
    → (leaf : ℕ) × (leaf_of m block ≡ some leaf) × (get m block ≡ ok leaf)
unfolding get check_capacity
get_ok m block v h =
    let (leaf, e) = get_elem?_of_lt m.map block (omega arith) in
    (leaf, e, rw (lt→leb_false m.capacity block h, e) refl)

pub get_inv :
    (m : PositionMap) (block : ℕ) {leaf : ℕ} → get m block ≡ ok leaf → leaf_of m block ≡ some leaf
unfolding get check_capacity
get_inv m block h = ground arith

-- `set` below the capacity changes the leaf of that block and no other.
pub set_ok :
    (m : PositionMap) (block leaf : ℕ)
    → IsValid m
    → block < m.capacity
    → (n : PositionMap) × (set m block leaf ≡ ok n)
      × IsValid n
      × (n.capacity ≡ m.capacity)
      × ((other : ℕ) → leaf_of n other ≡ (if other == block then some leaf else leaf_of m other))
unfolding set check_capacity
set_ok m block leaf v h = (
  record m { map = set_elem m.map block leaf },
  rw (lt→leb_false m.capacity block h) refl,
  record { cells = length-set m.map block leaf ∙ v.cells },
  refl,
  λ other. get_elem?-set m.map block other leaf (omega arith),
)

-- From the capacity on, `get` and `set` both throw.
pub position_map_out_of_bound :
    (m : PositionMap) (block leaf : ℕ)
    → m.capacity ≤ block
    → (get m block ≡ throw block_out_of_bound) × (set m block leaf ≡ throw block_out_of_bound)
unfolding get set check_capacity
position_map_out_of_bound m block leaf h = (ground arith, ground arith)

-- In a map with as many cells as its capacity, after a `set` that does not throw, `get` returns the
-- new leaf of that block, and for every other ID, those out of bound among them, what it returned
-- before.
pub get-after_set :
    (m n : PositionMap) (block leaf other : ℕ)
    → IsValid m
    → set m block leaf ≡ ok n
    → get n other ≡ (if other == block then ok leaf else get m other)
unfolding get set check_capacity
get-after_set m n block leaf other v h = elim (lt-cases block m.capacity) [
  | inl below ↦
      let same : record m { map = set_elem m.map block leaf } ≡ n =
        ok_path (sym (rw (lt→leb_false m.capacity block below) refl) ∙ h) in
      let stored = get_elem?-set m.map block other leaf (omega (arith, v.cells)) in
      subst (λ (t : PositionMap). get t other ≡ (if other == block then ok leaf else get m other))
        same
        (elim (eq-cases other block) [
          | inl e ↦ ground (arith, stored)
          | inr ne ↦ ground (arith, stored)
        ])
  | inr above ↦ absurd (ground (arith, h))
]
