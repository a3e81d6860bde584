-- ===== src/Storage/InMemory.antt =====
-- `InMemoryStorageAdapter`: an array of arrays of bytes.
use mathlib.Core.List.{append-nil}
use path_oram.Prelude.{
  ℕ, zero, suc, ◌<◌, ◌≡◌, refl, ap, ◌∙◌, List, [], ◌∷◌, ◌++◌, Option, none, some, length, take,
  drop, set as set_elem, get_elem?, ok, throw, location_out_of_bound, Outcome, ◌>>=◌, ◌==◌,
  if◌then◌else◌, arith, length-set, get_elem?_of_lt, take_all, drop_all,
}
use path_oram.Prelude.Words.{Bytes}
use path_oram.Utility.Random.{Source}
use path_oram.Utility.Cipher.{Aes, BlockCipherMode}
use path_oram.Storage.Config.{StorageConfig, new_storage_config}
use path_oram.Storage.Adapter.{Adapter, fill_with_zeroes}
use path_oram.Storage.Raw.{
  RawStorage, IsRawStorage, get_loop-nil, set_loop-nil, looping, looping-HasBatches,
}

-- The cell of a location. Outside of the array, which the checks exclude, it is undefined.
abbrev cell_of : Option Bytes → Outcome Bytes
cell_of (some bytes) = ok bytes
cell_of none = throw location_out_of_bound

-- `block_size` bytes of the cell.
unfoldable pub get_internal : ℕ → List Bytes → ℕ → Outcome Bytes
get_internal block_size blocks location = do
  bytes ← cell_of (get_elem? blocks location)
  ok (take block_size bytes)

-- `copy` over the first bytes of the cell.
unfoldable pub set_internal : List Bytes → ℕ → Bytes → Outcome (List Bytes)
set_internal blocks location raw = do
  bytes ← cell_of (get_elem? blocks location)
  ok (set_elem blocks location (raw ++ drop (length raw) bytes))

abbrev pub in_memory : (block_size : ℕ) → RawStorage
in_memory block_size = looping (List Bytes) (get_internal block_size) set_internal

-- `capacity` cells of `size` bytes.
pub record IsMemory (capacity size : ℕ) (blocks : List Bytes) : Type 0 where
  pub count : length blocks ≡ capacity
  pub sizes : (l : ℕ) (bytes : Bytes) → get_elem? blocks l ≡ some bytes → length bytes ≡ size

abbrev or_nothing : Option Bytes → Bytes
or_nothing (some bytes) = bytes
or_nothing none = []

abbrev pub cell_at : List Bytes → ℕ → Bytes
cell_at blocks l = or_nothing (get_elem? blocks l)

get_elem?-set_elem :
    (xs : List Bytes) (i j : ℕ) (v : Bytes)
    → i < length xs
    → get_elem? (set_elem xs i v) j ≡ (if j == i then some v else get_elem? xs j)
get_elem?-set_elem [] i j v h = elim h [ ]
get_elem?-set_elem (x ∷ xs) zero zero v h = refl
get_elem?-set_elem (x ∷ xs) zero (suc j) v h = ground arith
get_elem?-set_elem (x ∷ xs) (suc i) zero v h = ground arith
get_elem?-set_elem (x ∷ xs) (suc i) (suc j) v h = ground (arith, get_elem?-set_elem xs i j v)

module _ (capacity size : ℕ) where
  pub get_internal_ok :
      (s : List Bytes) (l : ℕ)
      → IsMemory capacity size s
      → l < capacity
      → get_internal size s l ≡ ok (cell_at s l)
  unfolding get_internal
  get_internal_ok s l h below =
      let (bytes, e) = get_elem?_of_lt s l (omega (arith, h.count)) in
      rw e (ap ok (take_all size bytes (omega (arith, h.sizes l bytes e))))

  pub set_internal_ok :
      (s : List Bytes) (l : ℕ) (raw : Bytes)
      → IsMemory capacity size s
      → l < capacity
      → length raw ≡ size
      → (t : List Bytes) × (set_internal s l raw ≡ ok t)
        × IsMemory capacity size t
        × ((other : ℕ)
            → other < capacity
            → cell_at t other ≡ (if other == l then raw else cell_at s other))
  unfolding set_internal
  set_internal_ok s l raw h below whole =
      let (bytes, e) = get_elem?_of_lt s l (omega (arith, h.count)) in
      let past = drop_all (length raw) bytes (omega (arith, h.sizes l bytes e)) in
      let at = λ (j : ℕ). get_elem?-set_elem s l j raw (omega (arith, h.count)) in
      (
        set_elem s l raw,
        rw (e, past, append-nil raw) refl,
        record {
          count = length-set s l raw ∙ h.count;
          sizes = λ j cell found. ground (arith, at j, h.sizes j cell, whole);
        },
        λ other inside. ground (arith, at other),
      )

-- Memory of the right size is a proper storage.
abbrev pub in_memory-IsRawStorage :
    (capacity size : ℕ) → IsRawStorage (in_memory size) capacity size
in_memory-IsRawStorage capacity size = record {
  IsSound = IsMemory capacity size;
  cell = cell_at;
  batched = looping-HasBatches (List Bytes) (get_internal size) set_internal;
  get_many-nil = get_loop-nil (get_internal size);
  set_many-nil = set_loop-nil set_internal;
  get_internal_ok = get_internal_ok capacity size;
  set_internal_ok = set_internal_ok capacity size;
}

-- The constructor, over what the new arrays hold. `draws` are for a key, if none is given.
unfoldable pub new_in_memory :
    Aes
    → BlockCipherMode
    → (capacity user_block_size : ℕ) → (key : Bytes) → (z batch_limit : ℕ)
    → (draws iv_draws : Source) → (memory : List Bytes)
    → Outcome ((c : StorageConfig) × Adapter (in_memory c.block_size))
new_in_memory aes block_cipher capacity user_block_size key z batch_limit draws iv_draws memory = do
  c ← new_storage_config aes block_cipher capacity user_block_size key z batch_limit draws
  a ← fill_with_zeroes c (in_memory c.block_size) (record { storage = memory; iv_draws = iv_draws })
  ok (c, a)
