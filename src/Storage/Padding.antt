-- ===== src/Storage/Padding.antt =====
-- The zeroes that `AbsStorageAdapter::set` puts behind a payload that is too short.
use mathlib.Core.List.{append-nil}
use path_oram.Prelude.{
  ℕ, suc, ◌+◌, ◌-◌, ◌<◌, ◌≤◌, ◌≡◌, refl, ap, ◌∙◌, List, [], ◌∷◌, ◌++◌, map, length, replicate,
  length-replicate, length-append, All, arith,
}
use path_oram.Prelude.Words.{Bytes, u64_mod}
use path_oram.Definitions.{Block, Bucket}

unfoldable pub pad : ℕ → Bytes → Bytes
pad size bytes = bytes ++ replicate (size - length bytes) 0

-- The same for the blocks of a bucket, and for the buckets of requests.
abbrev pub padded : ℕ → Block → Block
padded size x = (x.0, pad size x.1)

abbrev pub padded_bucket : ℕ → Bucket → Bucket
padded_bucket size = map (padded size)

abbrev pub padded_requests : ℕ → List (ℕ × Bucket) → List (ℕ × Bucket)
padded_requests size = map (λ r. (r.0, padded_bucket size r.1))

length-pad_sum :
    (size : ℕ) (bytes : Bytes) → length (pad size bytes) ≡ length bytes + (size - length bytes)
unfolding pad
length-pad_sum size bytes = omega (
  arith,
  length-append bytes (replicate (size - length bytes) 0),
  length-replicate {A = ℕ} (size - length bytes) 0,
)

pub length-pad : (size : ℕ) (bytes : Bytes) → length bytes ≤ size → length (pad size bytes) ≡ size
length-pad size bytes h = omega (arith, length-pad_sum size bytes)

-- Nothing that is too long becomes whole.
pub length-pad_inv :
    (size : ℕ) (bytes : Bytes) → length (pad size bytes) ≡ size → length bytes ≤ size
length-pad_inv size bytes h = omega (arith, length-pad_sum size bytes)

pub pad-whole : (size : ℕ) (bytes : Bytes) → length bytes ≡ size → pad size bytes ≡ bytes
unfolding pad
pad-whole size bytes h =
    let none_missing : size - length bytes ≡ 0 = omega arith in
    ap (λ (n : ℕ). bytes ++ replicate n 0) none_missing ∙ append-nil bytes

pub pad-pad :
    (size : ℕ) (bytes : Bytes) → length bytes ≤ size → pad size (pad size bytes) ≡ pad size bytes
pad-pad size bytes h = pad-whole size (pad size bytes) (length-pad size bytes h)

pub pad-nil : (size : ℕ) → pad size [] ≡ replicate size 0
unfolding pad
pad-nil size =
    let all_missing : size - 0 ≡ size = omega arith in ap (λ (n : ℕ). replicate n 0) all_missing

pub length-padded_bucket : (size : ℕ) (b : Bucket) → length (padded_bucket size b) ≡ length b
length-padded_bucket size [] = refl
length-padded_bucket size (x ∷ b) = ap suc (length-padded_bucket size b)

pub padded_bucket-All :
    (size : ℕ) (b : Bucket)
    → All (λ x. (x.0 < u64_mod) × (length x.1 ≤ size)) b
    → All (λ x. (x.0 < u64_mod) × (length x.1 ≡ size)) (padded_bucket size b)
padded_bucket-All size [] h = tt
padded_bucket-All size (x ∷ b) h =
    ((h.0.0, length-pad size x.1 h.0.1), padded_bucket-All size b h.1)

pub padded_bucket-whole :
    (size : ℕ) (b : Bucket)
    → All (λ x. (x.0 < u64_mod) × (length x.1 ≡ size)) b
    → padded_bucket size b ≡ b
padded_bucket-whole size [] h = refl
padded_bucket-whole size (x ∷ b) h =
    λ i. (x.0, pad-whole size x.1 h.0.1 i) ∷ padded_bucket-whole size b h.1 i
