-- ===== src/Oram/Cache/Collect.antt =====
-- The downloaded blocks come back as whole buckets: the loop of `getCache` that cuts the response of
-- the storage after every `Z` blocks puts each bucket under its own location.
use mathlib.Core.List.{flat_map, append_assoc}
use native.Mathlib.Nat.{mod-eq_of_lt, add_comm, add-mul-mod_self_right, div-eq_of_lt-le}
use path_oram.Prelude.{
  ℕ, suc, ◌+◌, ◌-◌, ◌*◌, ◌/◌, ◌%◌, ◌<◌, ◌≡◌, refl, sym, ap, ◌∙◌, Bool, Option, if◌then◌else◌, List,
  [], ◌∷◌, ◌++◌, some, length, length-append, get_elem?, All, ==_iff, ne→==_false, ◌==◌, arith,
}
use path_oram.Prelude.Assoc.{assign}
use path_oram.Definitions.{Block, Bucket}
use path_oram.Oram.Cache.{collect, store_at}

-- Round `j * z + k` of the loop works at place `k` of bucket `j`.
place : (z j k : ℕ) → k < z → ((j * z + k) % z ≡ k) × ((j * z + k) / z ≡ j)
place z j k h = (
  ap (λ (t : ℕ). t % z) (add_comm (j * z) k) ∙ add-mul-mod_self_right k j z ∙ mod-eq_of_lt h,
  div-eq_of_lt-le z {m = j * z + k} (omega arith) (omega arith),
)

module _ (z i : ℕ) (to_get : List ℕ) (b : Block) (rest bucket : List Block)
    (cache : List (ℕ × Bucket)) where
  collect_step :
      {whole : Bool}
      → (i % z == z - 1) ≡ whole
      → collect z to_get i (b ∷ rest) bucket cache
        ≡ collect z to_get
            (i + 1)
            rest
            (if whole then [] else bucket ++ b ∷ [])
            (if whole then store_at cache (get_elem? to_get (i / z)) (bucket ++ b ∷ []) else cache)
  unfolding collect
  collect_step e =
      ap
        (λ (w : Bool).
          collect z to_get (i + 1) rest (if w then [] else bucket ++ b ∷ [])
            (if w then store_at cache (get_elem? to_get (i / z)) (bucket ++ b ∷ []) else cache))
        e

  collect_whole :
      (j l : ℕ)
      → i % z ≡ z - 1
      → i / z ≡ j
      → get_elem? to_get j ≡ some l
      → collect z to_get i (b ∷ rest) bucket cache
        ≡ collect z to_get (i + 1) rest [] (assign l (bucket ++ b ∷ []) cache)
  collect_whole j l last at found =
      collect_step ((==_iff (i % z) (z - 1)).1 last)
      ∙ ap
          (λ (o : Option ℕ). collect z to_get (i + 1) rest [] (store_at cache o (bucket ++ b ∷ [])))
          (ap (get_elem? to_get) at ∙ found)

-- The rounds that fill up a bucket, of which `bucket` holds the first blocks.
collect_bucket :
    (z j l : ℕ) (to_get : List ℕ) (xs rest bucket : List Block) (x : Block)
    (cache : List (ℕ × Bucket))
    → length bucket + suc (length xs) ≡ z
    → get_elem? to_get j ≡ some l
    → collect z to_get (j * z + length bucket) ((x ∷ xs) ++ rest) bucket cache
      ≡ collect z to_get (suc j * z) rest [] (assign l (bucket ++ x ∷ xs) cache)
collect_bucket z j l to_get [] rest bucket x cache e at_j =
    let here = place z j (length bucket) (omega arith) in
    collect_whole z (j * z + length bucket) to_get x rest bucket cache j l (omega (arith, here.0))
      here.1 at_j
    ∙ ap (λ (i : ℕ). collect z to_get i rest [] (assign l (bucket ++ x ∷ []) cache)) (omega arith)
collect_bucket z j l to_get (y ∷ xs) rest bucket x cache e at_j =
    let here = place z j (length bucket) (omega arith) in
    let size = length-append bucket (x ∷ []) in
    collect_step z (j * z + length bucket) to_get x ((y ∷ xs) ++ rest) bucket cache
      (ne→==_false _ (z - 1) (λ q. absurd (omega (arith, here.0, q))))
    ∙ ap (λ (i : ℕ). collect z to_get i ((y ∷ xs) ++ rest) (bucket ++ x ∷ []) cache) (omega arith)
    ∙ collect_bucket z j l to_get xs rest (bucket ++ x ∷ []) y cache (omega arith) at_j
    ∙ ap (λ (b : Bucket). collect z to_get (suc j * z) rest [] (assign l b cache))
        (append_assoc bucket (x ∷ []) (y ∷ xs))

-- The cache after every listed location has got its bucket.
unfoldable pub assign_all : (ℕ → Bucket) → List ℕ → List (ℕ × Bucket) → List (ℕ × Bucket)
assign_all view [] cache = cache
assign_all view (l ∷ ls) cache = assign_all view ls (assign l (view l) cache)

get_elem?-middle : (xs ys : List ℕ) (y : ℕ) → get_elem? (xs ++ y ∷ ys) (length xs) ≡ some y
get_elem?-middle [] ys y = refl
get_elem?-middle (x ∷ xs) ys y = get_elem?-middle xs ys y

first_bucket :
    (z j l : ℕ) (to_get : List ℕ) (rest b : List Block) (cache : List (ℕ × Bucket))
    → 0 < z
    → length b ≡ z
    → get_elem? to_get j ≡ some l
    → collect z to_get (j * z) (b ++ rest) [] cache
      ≡ collect z to_get (suc j * z) rest [] (assign l b cache)
first_bucket z j l to_get rest [] cache pos e at_j = absurd (omega arith)
first_bucket z j l to_get rest (x ∷ xs) cache pos e at_j =
    ap (λ (i : ℕ). collect z to_get i ((x ∷ xs) ++ rest) [] cache) (omega arith)
    ∙ collect_bucket z j l to_get xs rest [] x cache (omega arith) at_j

collect_rest :
    (z : ℕ) (view : ℕ → Bucket) (done ls : List ℕ) (cache : List (ℕ × Bucket))
    → 0 < z
    → All (λ l. length (view l) ≡ z) ls
    → collect z (done ++ ls) (length done * z) (flat_map view ls) [] cache
      ≡ assign_all view ls cache
unfolding assign_all collect flat_map
collect_rest z view done [] cache pos sizes = refl
collect_rest z view done (l ∷ ls) cache pos sizes =
    let to_get = done ++ l ∷ ls in
    let next = assign l (view l) cache in
    first_bucket z (length done) l to_get (flat_map view ls) (view l) cache pos sizes.0
      (get_elem?-middle done ls l)
    ∙ ap (λ (i : ℕ). collect z to_get (i * z) (flat_map view ls) [] next)
        (sym (length-append done (l ∷ []) ∙ omega arith))
    ∙ ap (λ (g : List ℕ). collect z g (length (done ++ l ∷ []) * z) (flat_map view ls) [] next)
        (sym (append_assoc done (l ∷ []) ls))
    ∙ collect_rest z view (done ++ l ∷ []) ls next pos sizes.1

-- The loop files every bucket of a response under its location.
pub collect-assign_all :
    (z : ℕ) (view : ℕ → Bucket) (ls : List ℕ) (cache : List (ℕ × Bucket))
    → 0 < z
    → All (λ l. length (view l) ≡ z) ls
    → collect z ls 0 (flat_map view ls) [] cache ≡ assign_all view ls cache
collect-assign_all z view ls cache pos sizes =
    ap (λ (i : ℕ). collect z ls i (flat_map view ls) [] cache) (omega arith)
    ∙ collect_rest z view [] ls cache pos sizes
