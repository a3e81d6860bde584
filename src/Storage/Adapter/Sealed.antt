-- ===== src/Storage/Adapter/Sealed.antt =====
-- The writes that `set` makes of its requests, and what they leave in the cells.
use native.Mathlib.Nat.{mul_comm}
use path_oram.Prelude.{
  ℕ, zero, suc, ◌+◌, ◌<◌, ◌≤◌, ◌≡◌, refl, sym, ap, ◌∙◌, List, [], ◌∷◌, map, length, replicate, All,
  ◌==◌, if◌then◌else◌, Bool-cases, ==_iff, eq-cases, inl, inr, ok, arith, length-append,
}
use path_oram.Prelude.Words.{Bytes, u64_mod}
use path_oram.Definitions.{Bucket, dummy_id}
use path_oram.Utility.Random.{Source, skip, get_random_block, length-get_random_block}
use path_oram.Utility.Cipher.{IsAes, length-cipher, cipher, encrypting}
use path_oram.Oram.Store.{IsBucket, written}
use path_oram.Storage.Config.{StorageConfig, IsStorageConfig}
use path_oram.Storage.Padding.{padded, padded_requests}
use path_oram.Storage.Codec.{plain_bytes}
use path_oram.Storage.Seal.{sealed, seal_ok, padded-IsBucket, length-bucket}
use path_oram.Storage.Raw.{overwritten}
use path_oram.Storage.Adapter.{seal_all, zero_requests}

-- The bytes are those of the bucket, under some vector.
pub record IsSealed (c : StorageConfig) (b : Bucket) (raw : Bytes) : Type 0 where
  pub iv : Bytes
  pub vector : length iv ≡ 16
  pub holds : raw ≡ sealed c iv b

-- Requests that `set` accepts: a proper location and a full bucket, no ID or payload too long.
abbrev pub IsRequest : StorageConfig → ℕ × Bucket → Type 0
IsRequest c r =
    (r.0 < c.capacity)
    × (length r.1 ≡ c.z)
    × All (λ x. (x.0 < u64_mod) × (length x.1 ≤ c.user_block_size)) r.1

abbrev pub Seals : StorageConfig → List (ℕ × Bucket) → List (ℕ × Bytes) → Type 0
Seals c [] writes = writes ≡ []
Seals c (r ∷ requests) [] = ⊥
Seals c (r ∷ requests) (w ∷ writes) =
    (w.0 ≡ r.0) × IsSealed c (map (padded c.user_block_size) r.1) w.1 × Seals c requests writes

module _ (c : StorageConfig) (fine : IsStorageConfig c) where
  pub seal_all_ok :
      (requests : List (ℕ × Bucket)) (draws : Source)
      → All (IsRequest c) requests
      → (writes : List (ℕ × Bytes)) × (draws' : Source) × (seal_all c requests draws
          ≡ ok (writes, draws'))
        × Seals c requests writes
  unfolding seal_all
  seal_all_ok [] draws h = ([], draws, refl, refl)
  seal_all_ok ((l, b) ∷ requests) draws h =
      let iv = get_random_block 16 draws in
      let vector = length-get_random_block 16 draws in
      let (writes, draws', more, seals) = seal_all_ok requests (skip 16 draws) h.1 in
      (
        (l, sealed c iv (map (padded c.user_block_size) b)) ∷ writes,
        draws',
        rw (seal_ok c fine iv l b h.0.0 h.0.1 h.0.2 vector, more) refl,
        (refl, record { iv = iv; vector = vector; holds = refl }, seals),
      )

  sealed-length :
      (b : Bucket) (raw : Bytes)
      → IsAes c.aes
      → IsBucket c.z c.user_block_size b
      → IsSealed c b raw
      → length raw ≡ c.block_size
  sealed-length b raw good h s =
      ap length s.holds
      ∙ omega (
        arith,
        length-append s.iv (cipher c.aes c.block_cipher encrypting c.key s.iv (plain_bytes b)),
        length-cipher c.aes c.block_cipher c.key s.iv (plain_bytes b) good,
        length-bucket c fine b h,
        s.vector,
        fine.bucket_bytes,
        mul_comm c.z (c.user_block_size + 16),
      )

  pub Seals-proper :
      (requests : List (ℕ × Bucket)) (writes : List (ℕ × Bytes))
      → IsAes c.aes
      → All (IsRequest c) requests
      → Seals c requests writes
      → All (λ w. (w.0 < c.capacity) × (length w.1 ≡ c.block_size)) writes
  Seals-proper [] [] good h s = tt
  Seals-proper [] (w ∷ writes) good h s = absurd (ground (arith, s))
  Seals-proper (r ∷ requests) [] good h s = absurd s
  Seals-proper (r ∷ requests) (w ∷ writes) good h s = (
    (
      omega (arith, s.0, h.0.0),
      sealed-length _ w.1 good (padded-IsBucket c fine r.1 h.0.1 h.0.2) s.1,
    ),
    Seals-proper requests writes good h.1 s.2,
  )

module _ (c : StorageConfig) where
  -- A sealed cell is overwritten by the bucket that is written.
  pub overwritten-written :
      (requests : List (ℕ × Bucket)) (writes : List (ℕ × Bytes)) (l : ℕ) (b : Bucket) (old : Bytes)
      → Seals c requests writes
      → IsSealed c b old
      → IsSealed c
          (written (padded_requests c.user_block_size requests) l b)
          (overwritten writes l old)
  overwritten-written [] [] l b old s k = k
  overwritten-written [] (w ∷ writes) l b old s k = absurd (ground (arith, s))
  overwritten-written (r ∷ requests) [] l b old s k = absurd s
  overwritten-written (r ∷ requests) (w ∷ writes) l b old s k =
      overwritten-written requests writes l
        (if l == r.0 then map (padded c.user_block_size) r.1 else b) (if l == w.0 then w.1 else old)
        s.2 step
    where
      step :
          IsSealed c
            (if l == r.0 then map (padded c.user_block_size) r.1 else b)
            (if l == w.0 then w.1 else old)
      step = elim (Bool-cases (l == r.0)) [ inl e ↦ rw (s.0, e) s.1 | inr e ↦ rw (s.0, e) k ]

  zeroes-kept :
      (count location l : ℕ) (writes : List (ℕ × Bytes)) (old : Bytes)
      → Seals c (zero_requests c.z count location) writes
      → IsSealed c (map (padded c.user_block_size) (replicate c.z (dummy_id, []))) old
      → IsSealed c
          (map (padded c.user_block_size) (replicate c.z (dummy_id, [])))
          (overwritten writes l old)
  unfolding zero_requests
  zeroes-kept zero location l [] old s k = k
  zeroes-kept zero location l (w ∷ writes) old s k = absurd (ground (arith, s))
  zeroes-kept (suc count) location l [] old s k = absurd s
  zeroes-kept (suc count) location l (w ∷ writes) old s k =
      zeroes-kept count (location + 1) l writes (if l == w.0 then w.1 else old) s.2
        (elim (Bool-cases (l == w.0)) [ inl e ↦ rw e s.1 | inr e ↦ rw e k ])

  -- A cell that some request names is sealed, whatever it held.
  pub zeroes-sealed :
      (count location l : ℕ) (writes : List (ℕ × Bytes)) (old : Bytes)
      → Seals c (zero_requests c.z count location) writes
      → location ≤ l
      → l < location + count
      → IsSealed c
          (map (padded c.user_block_size) (replicate c.z (dummy_id, [])))
          (overwritten writes l old)
  unfolding zero_requests
  zeroes-sealed zero location l writes old s a b = absurd (omega arith)
  zeroes-sealed (suc count) location l [] old s a b = absurd s
  zeroes-sealed (suc count) location l (w ∷ writes) old s a b = elim (eq-cases l location) [
    | inl e ↦
        zeroes-kept count (location + 1) l writes (if l == w.0 then w.1 else old) s.2
          (rw ((==_iff l w.0).1 (e ∙ sym s.0)) s.1)
    | inr ne ↦
        zeroes-sealed count (location + 1) l writes (if l == w.0 then w.1 else old) s.2
          (omega arith) (omega arith)
  ]
