-- ===== src/Tree/Path.antt =====
-- The path from the root to a leaf: where its buckets lie, and when two paths share one.
use native.Mathlib.Nat.{
  pow-suc, mul-le-mul_right, div-mul-le_self, lt-div-mul-add, le-div_iff_mul-le, div-lt_iff_lt-mul,
  div-eq_of_lt-le, mod-eq_of_lt,
}
use path_oram.Prelude.{
  ℕ, suc, ◌+◌, ◌-◌, ◌*◌, ◌/◌, ◌%◌, ◌^◌, ◌≤◌, ◌<◌, ◌≡◌, ◌↔◌, sym, ap, ◌∙◌, subst, true, arith,
  ==_iff, lt-cases, inl, inr,
}
use path_oram.Prelude.Words.{u64_mod}
use path_oram.Tree.{HasHeight, bucket_for_level_leaf, can_include, leaves_for_location}
use path_oram.Tree.Shifts.{
  two_pow-pos, two_pow-add, two_pow-le, div-two_pow-suc, floor_log2, floor_log2_bounds,
}

-- The number of leaves.
abbrev pub leaves : ℕ → ℕ
leaves height = 2 ^ (height - 1)

pub leaves-le : (h : ℕ) → HasHeight h → leaves h ≤ 2 ^ 30
leaves-le h hh = two_pow-le {a = h - 1} {b = 30} (omega arith)

leaves_split : (h level : ℕ) → level < h → leaves h ≡ 2 ^ level * 2 ^ (h - 1 - level)
leaves_split h level l = ap (λ (t : ℕ). 2 ^ t) (omega arith) ∙ two_pow-add level (h - 1 - level)

-- The addition does not wrap.
pub bucket_for_level_leaf_lem :
    (h level leaf : ℕ)
    → HasHeight h
    → leaf < leaves h
    → bucket_for_level_leaf h level leaf ≡ (leaf + leaves h) / 2 ^ (h - 1 - level)
unfolding bucket_for_level_leaf
bucket_for_level_leaf_lem h level leaf hh l =
    ap (λ (t : ℕ). t / 2 ^ (h - 1 - level)) (mod-eq_of_lt (omega (arith, leaves-le h hh)))

-- For a height from 1 to 31, a level below it and a proper leaf, the bucket lies in the row of its
-- level: from 2 ^ level up to, and without, its double.
pub bucket_for_level_leaf_bounds :
    (h level leaf : ℕ)
    → HasHeight h
    → level < h
    → leaf < leaves h
    → (2 ^ level ≤ bucket_for_level_leaf h level leaf)
      × (bucket_for_level_leaf h level leaf < 2 ^ suc level)
bucket_for_level_leaf_bounds h level leaf hh l k =
    let p = 2 ^ (h - 1 - level) in
    let q = 2 ^ level in
    let split = leaves_split h level l in
    rw (bucket_for_level_leaf_lem h level leaf hh k) (
      (le-div_iff_mul-le {k = p} {x = q} {y = leaf + leaves h} (two_pow-pos (h - 1 - level))).1
          (omega (arith, split)),
      (div-lt_iff_lt-mul {k = p} {x = leaf + leaves h} {y = 2 ^ suc level}
            (two_pow-pos (h - 1 - level))).1
          (omega (arith, split, ap (λ (t : ℕ). t * p) (pow-suc 2 level))),
    )

-- For a height from 1 to 31 and a proper leaf, each bucket of a path is the parent, that is the
-- half, of the next.
pub bucket_for_level_leaf-parent :
    (h level leaf : ℕ)
    → HasHeight h
    → suc level < h
    → leaf < leaves h
    → bucket_for_level_leaf h level leaf ≡ bucket_for_level_leaf h (suc level) leaf / 2
bucket_for_level_leaf-parent h level leaf hh l k =
    bucket_for_level_leaf_lem h level leaf hh k
    ∙ ap (λ (t : ℕ). (leaf + leaves h) / 2 ^ t) shift
    ∙ div-two_pow-suc (leaf + leaves h) (h - 1 - suc level)
    ∙ ap (λ (t : ℕ). t / 2) (sym (bucket_for_level_leaf_lem h (suc level) leaf hh k))
  where
    shift : h - 1 - level ≡ suc (h - 1 - suc level)
    shift = omega arith

two_pow-row : (a b x : ℕ) → (2 ^ a ≤ x) × (x < 2 ^ suc a) → (2 ^ b ≤ x) × (x < 2 ^ suc b) → a ≡ b
two_pow-row a b x p q = elim (lt-cases a b) [
  | inl l ↦ absurd (omega (arith, two_pow-le {a = suc a} {b = b} l))
  | inr l ↦ elim (lt-cases b a) [
    | inl k ↦ absurd (omega (arith, two_pow-le {a = suc b} {b = a} k))
    | inr k ↦ omega arith
  ]
]

-- For a height from 1 to 31, buckets of different levels are different, on whatever paths to proper
-- leaves.
pub bucket_for_level_leaf-inj_level :
    (h a b x y : ℕ)
    → HasHeight h
    → a < h
    → b < h
    → x < leaves h
    → y < leaves h
    → bucket_for_level_leaf h a x ≡ bucket_for_level_leaf h b y
    → a ≡ b
bucket_for_level_leaf-inj_level h a b x y hh ha hb hx hy e =
    two_pow-row a b (bucket_for_level_leaf h a x) (bucket_for_level_leaf_bounds h a x hh ha hx)
      (rw e (bucket_for_level_leaf_bounds h b y hh hb hy))

pub can_include_iff :
    (h a b level : ℕ)
    → (can_include h a b level ≡ true)
      ↔ (bucket_for_level_leaf h level a ≡ bucket_for_level_leaf h level b)
unfolding can_include
can_include_iff h a b level = ==_iff _ _

-- For a height from 1 to 31 and proper leaves, every block can be kept in the root.
pub can_include-root :
    (h a b : ℕ) → HasHeight h → a < leaves h → b < leaves h → can_include h a b 0 ≡ true
can_include-root h a b hh ka kb = (can_include_iff h a b 0).1 (
    omega (
      arith,
      bucket_for_level_leaf_bounds h 0 a hh hh.lower ka,
      bucket_for_level_leaf_bounds h 0 b hh hh.lower kb,
    ))

-- For a height from 1 to 31 and proper leaves, a block that can be kept in a bucket of a path can
-- be kept in the parent of it.
pub can_include-up :
    (h a b level : ℕ)
    → HasHeight h
    → suc level < h
    → a < leaves h
    → b < leaves h
    → can_include h a b (suc level) ≡ true
    → can_include h a b level ≡ true
can_include-up h a b level hh l ka kb e = (can_include_iff h a b level).1 (
    bucket_for_level_leaf-parent h level a hh l ka
    ∙ ap (λ (t : ℕ). t / 2) ((can_include_iff h a b (suc level)).0 e)
    ∙ sym (bucket_for_level_leaf-parent h level b hh l kb))

-- The row of a location, also under the bounds of the `number`s.
location_bounds :
    (h location : ℕ)
    → HasHeight h
    → 0 < location
    → location < 2 ^ h
    → (2 ^ floor_log2 location ≤ location) × (location < 2 ^ suc (floor_log2 location))
location_bounds h location hh p l =
    floor_log2_bounds location p (omega (arith, two_pow-le {a = h} {b = 31} hh.upper))

-- The level of a location is below the height.
pub floor_log2-lt :
    (h location : ℕ) → HasHeight h → 0 < location → location < 2 ^ h → floor_log2 location < h
floor_log2-lt h location hh p l = elim (lt-cases (floor_log2 location) h) [
  | inl k ↦ k
  | inr k ↦ absurd (
      omega
        (arith, location_bounds h location hh p l, two_pow-le {a = h} {b = floor_log2 location} k))
]

row_scaled :
    (h location : ℕ)
    → HasHeight h
    → 0 < location
    → location < 2 ^ h
    → let p = 2 ^ (h - 1 - floor_log2 location) in
      (leaves h ≤ location * p) × ((location + 1) * p ≤ 2 * leaves h)
row_scaled h location hh pos l =
    let v = floor_log2 location in
    let p = 2 ^ (h - 1 - v) in
    let row = location_bounds h location hh pos l in
    let split = leaves_split h v (floor_log2-lt h location hh pos l) in
    (
      rw split (mul-le-mul_right {m = 2 ^ v} {n = location} p row.0),
      rw split (
          subst (λ (t : ℕ). (location + 1) * p ≤ t)
            (omega (arith, ap (λ (t : ℕ). t * p) (pow-suc 2 v)))
            (mul-le-mul_right {m = location + 1} {n = 2 ^ suc v} p (omega (arith, row)))),
    )

range_exact :
    (x y m : ℕ)
    → m ≤ x
    → x < y
    → y ≤ 2 * m
    → m ≤ 2 ^ 30
    → ((x % u64_mod + u64_mod - m) % u64_mod ≡ x - m)
      × (((y % u64_mod + u64_mod - 1) % u64_mod + u64_mod - m) % u64_mod ≡ y - 1 - m)
range_exact x y m a b c d = (omega arith, omega arith)

-- The range of a location, with no wrap.
leaves_for_location_lem :
    (h location : ℕ)
    → HasHeight h
    → 0 < location
    → location < 2 ^ h
    → let p = 2 ^ (h - 1 - floor_log2 location) in
      leaves_for_location h location ≡ (location * p - leaves h, (location + 1) * p - 1 - leaves h)
unfolding leaves_for_location
leaves_for_location_lem h location hh pos l =
    let v = floor_log2 location in
    let same : h - v - 1 ≡ h - 1 - v = omega arith in
    let scaled = row_scaled h location hh pos l in
    let p = 2 ^ (h - 1 - v) in
    let exact =
      range_exact (location * p) ((location + 1) * p) (leaves h) scaled.0
        (omega (arith, two_pow-pos (h - 1 - v))) scaled.1 (leaves-le h hh) in
    rw same (λ i. (exact.0 i, exact.1 i))

-- For a height from 1 to 31 and a proper location, a leaf lies between the two that
-- `leavesForLocation` returns exactly if the path to it goes through the location.
pub leaves_for_location_iff :
    (h location leaf : ℕ)
    → HasHeight h
    → 0 < location
    → location < 2 ^ h
    → leaf < leaves h
    → (((leaves_for_location h location).0 ≤ leaf) × (leaf ≤ (leaves_for_location h location).1))
      ↔ (bucket_for_level_leaf h (floor_log2 location) leaf ≡ location)
leaves_for_location_iff h location leaf hh pos l k =
    let v = floor_log2 location in
    let p = 2 ^ (h - 1 - v) in
    let scaled = row_scaled h location hh pos l in
    let p_pos = two_pow-pos (h - 1 - v) in
    rw (leaves_for_location_lem h location hh pos l, bucket_for_level_leaf_lem h v leaf hh k)
      (
        λ r. div-eq_of_lt-le p {m = leaf + leaves h} (omega arith) (omega arith),
        λ e.
            let scale = ap (λ (t : ℕ). t * p) e in
            let below = div-mul-le_self (leaf + leaves h) p in
            let above = lt-div-mul-add {a = leaf + leaves h} {b = p} p_pos in
            (omega arith, omega arith),
      )

-- The range of a location lies within the leaves.
pub leaves_for_location_range :
    (h location : ℕ)
    → HasHeight h
    → 0 < location
    → location < 2 ^ h
    → ((leaves_for_location h location).0 ≤ (leaves_for_location h location).1)
      × ((leaves_for_location h location).1 < leaves h)
leaves_for_location_range h location hh pos l =
    let scaled = row_scaled h location hh pos l in
    let p_pos = two_pow-pos (h - 1 - floor_log2 location) in
    rw (leaves_for_location_lem h location hh pos l) (omega arith, omega arith)
