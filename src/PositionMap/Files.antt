-- ===== src/PositionMap/Files.antt =====
-- `storeToFile` and `loadFromFile` of the position map. A file is its bytes, and `none` is a file
-- that does not open.
use mathlib.Core.List.{append-nil}
use path_oram.Prelude.{
  ℕ, zero, suc, ◌*◌, Bool, true, not, throw_if, ◌>>◌, ◌≡◌, ◌<◌, refl, sym, ap, ◌∙◌, List, [], ◌∷◌,
  ◌++◌, Option, none, some, length, take, drop, All, Outcome, ok, throw, cannot_open, arith,
  length-append, take_all, drop_all, take_left, drop_left,
}
use path_oram.Prelude.Words.{
  Bytes, u64_mod, to_bytes, from_bytes, length-to_bytes, from_bytes-to_bytes_64,
}
use path_oram.PositionMap.{PositionMap}

-- The memory of an array of `number`s.
unfoldable pub numbers_to_bytes : List ℕ → Bytes
numbers_to_bytes [] = []
numbers_to_bytes (n ∷ ns) = to_bytes 8 n ++ numbers_to_bytes ns

-- An array of `count` numbers read from memory.
unfoldable pub bytes_to_numbers : ℕ → Bytes → List ℕ
bytes_to_numbers zero bs = []
bytes_to_numbers (suc count) bs = from_bytes (take 8 bs) ∷ bytes_to_numbers count (drop 8 bs)

-- The bytes that the file holds afterwards.
unfoldable pub store_to_file : PositionMap → (opens : Bool) → Outcome Bytes
unfolding numbers_to_bytes
store_to_file m opens = do throw_if (not opens) cannot_open; ok (numbers_to_bytes m.map)

-- `read` fills at most `capacity` numbers; what a short file does not reach stays.
unfoldable pub load_from_file : PositionMap → Option Bytes → Outcome PositionMap
unfolding numbers_to_bytes bytes_to_numbers
load_from_file m none = throw cannot_open
load_from_file m (some file) =
    let read = take (m.capacity * 8) file in
    ok (record m {
      map = bytes_to_numbers m.capacity (read ++ drop (length read) (numbers_to_bytes m.map));
    })

length-numbers_to_bytes : (ns : List ℕ) → length (numbers_to_bytes ns) ≡ length ns * 8
unfolding numbers_to_bytes
length-numbers_to_bytes [] = refl
length-numbers_to_bytes (n ∷ ns) = omega (
  arith,
  length-append (to_bytes 8 n) (numbers_to_bytes ns),
  length-to_bytes 8 n,
  length-numbers_to_bytes ns,
)

bytes_to_numbers-numbers_to_bytes :
    (ns : List ℕ)
    → All (λ n. n < u64_mod) ns
    → bytes_to_numbers (length ns) (numbers_to_bytes ns) ≡ ns
unfolding numbers_to_bytes bytes_to_numbers
bytes_to_numbers-numbers_to_bytes [] h = refl
bytes_to_numbers-numbers_to_bytes (n ∷ ns) h =
    rw (taken, dropped, from_bytes-to_bytes_64 n h.0)
      (ap (◌∷◌ n) (bytes_to_numbers-numbers_to_bytes ns h.1))
  where
    taken : take 8 (to_bytes 8 n ++ numbers_to_bytes ns) ≡ to_bytes 8 n
    taken = take_left 8 (to_bytes 8 n) (numbers_to_bytes ns) (length-to_bytes 8 n)

    dropped : drop 8 (to_bytes 8 n ++ numbers_to_bytes ns) ≡ numbers_to_bytes ns
    dropped = drop_left 8 (to_bytes 8 n) (numbers_to_bytes ns) (length-to_bytes 8 n)

-- A position map of `number`s, with as many cells as its capacity, that is stored to a file that
-- opens, and loaded into an adapter of the same capacity, comes back.
pub load_from_file-store_to_file :
    (m n : PositionMap)
    → length m.map ≡ m.capacity
    → length n.map ≡ n.capacity
    → n.capacity ≡ m.capacity
    → All (λ leaf. leaf < u64_mod) m.map
    → (file : Bytes) × (store_to_file m true ≡ ok file) × (load_from_file n (some file) ≡ ok m)
unfolding load_from_file store_to_file
load_from_file-store_to_file m n vm vn e h =
    let stored = numbers_to_bytes m.map in
    let size = length-numbers_to_bytes m.map in
    let old = length-numbers_to_bytes n.map in
    let all = take_all (n.capacity * 8) stored (omega arith) in
    let past = drop_all (length stored) (numbers_to_bytes n.map) (omega arith) in
    (
      stored,
      refl,
      rw (all, past, append-nil stored)
          (λ i. ok (record {
            map =
                (ap (λ (k : ℕ). bytes_to_numbers k stored) (e ∙ sym vm)
                    ∙ bytes_to_numbers-numbers_to_bytes m.map h)
                  i;
            capacity = e i;
          })),
    )
