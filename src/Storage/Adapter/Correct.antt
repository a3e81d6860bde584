-- ===== src/Storage/Adapter/Correct.antt =====
-- An adapter over an implementation that keeps its promise is a storage as `ORAM` expects it.
use mathlib.Core.List.{flat_map}
use path_oram.Prelude.{
  ℕ, zero, suc, ◌<◌, ◌≤◌, ◌+◌, ◌≡◌, refl, sym, ap, ◌∙◌, subst, List, [], ◌∷◌, ◌++◌, map, replicate,
  length-replicate, All, All-mono, All-replicate, ok, throw, Outcome, lt→leb_false, if◌then◌else◌,
  ◌==◌, Bool-cases, inl, inr, arith,
}
use path_oram.Prelude.Words.{Bytes}
use path_oram.Definitions.{Block, Bucket, dummy_id}
use path_oram.Utility.Cipher.{IsAes}
use path_oram.Oram.Store.{IsStore, IsBucket, IsWrite, written, empty_bucket}
use path_oram.Storage.Padding.{padded, padded_bucket, padded_requests, pad-nil}
use path_oram.Storage.Config.{StorageConfig, IsStorageConfig, check_capacity}
use path_oram.Storage.Codec.{unseal}
use path_oram.Storage.Seal.{unseal_ok, padded-IsBucket}
use path_oram.Storage.Raw.{
  RawStorage, IsRawStorage, get_loop, map_all-get_internal, set_internals_ok, overwritten,
}
use path_oram.Storage.Adapter.{
  Adapter, check_all, unseal_all, zero_requests, get, set, fill_with_zeroes, adapter_store,
}
use path_oram.Storage.Adapter.Batches.{get_raws_lem, set_raws_lem}
use path_oram.Storage.Adapter.Sealed.{
  IsSealed, IsRequest, Seals, seal_all_ok, Seals-proper, overwritten-written, zeroes-sealed,
}

abbrev blocks_of : Outcome (List Block) → Bucket
blocks_of (ok blocks) = blocks
blocks_of (throw e) = []

-- The blocks that the bytes of a location decrypt to.
abbrev pub opened : StorageConfig → Bytes → Bucket
opened c bytes = blocks_of (unseal c bytes)

pub flat_map-eq :
    (f g : ℕ → Bucket) (ls : List ℕ) → All (λ l. f l ≡ g l) ls → flat_map f ls ≡ flat_map g ls
unfolding flat_map
flat_map-eq f g [] h = refl
flat_map-eq f g (l ∷ ls) h = λ i. h.0 i ++ flat_map-eq f g ls h.1 i

module _ (c : StorageConfig) (fine : IsStorageConfig c) (aes : IsAes c.aes) where
  opened-sealed :
      (b : Bucket) (bytes : Bytes)
      → IsBucket c.z c.user_block_size b
      → IsSealed c b bytes
      → unseal c bytes ≡ ok b
  opened-sealed b bytes h s = ap (unseal c) s.holds ∙ unseal_ok c fine s.iv b aes s.vector h

  check_all_ok :
      (locations : List ℕ) → All (λ l. l < c.capacity) locations → check_all c locations ≡ ok tt
  unfolding check_all check_capacity
  check_all_ok [] h = refl
  check_all_ok (l ∷ ls) h = rw (lt→leb_false c.capacity l h.0, check_all_ok ls h.1) refl

  written_padded-IsBucket :
      (requests : List (ℕ × Bucket)) (l : ℕ) (b : Bucket)
      → All (λ r. (r.0 < c.capacity) × IsWrite c.z c.user_block_size r.1) requests
      → IsBucket c.z c.user_block_size b
      → IsBucket c.z c.user_block_size (written (padded_requests c.user_block_size requests) l b)
  written_padded-IsBucket [] l b h k = k
  written_padded-IsBucket (r ∷ requests) l b h k =
      written_padded-IsBucket requests l
        (if l == r.0 then padded_bucket c.user_block_size r.1 else b) h.1
        (elim (Bool-cases (l == r.0)) [
          | inl e ↦ rw e (padded-IsBucket c fine r.1 h.0.1.full h.0.1.blocks)
          | inr e ↦ rw e k
        ])

  padded-empty :
      map (padded c.user_block_size) (replicate c.z (dummy_id, []))
      ≡ empty_bucket c.z c.user_block_size
  padded-empty = go c.z
    where
      go :
          (n : ℕ)
          → map (padded c.user_block_size) (replicate n (dummy_id, []))
            ≡ replicate n (dummy_id, replicate c.user_block_size 0)
      go zero = refl
      go (suc n) = λ i. (dummy_id, pad-nil c.user_block_size i) ∷ go n i

  empty-IsBucket : IsBucket c.z c.user_block_size (empty_bucket c.z c.user_block_size)
  empty-IsBucket = record {
    full = length-replicate c.z (dummy_id, replicate c.user_block_size 0);
    blocks =
        All-replicate _ c.z {a = (dummy_id, replicate c.user_block_size 0)}
          (omega arith, length-replicate c.user_block_size 0);
  }

  zero_requests-IsRequest :
      (count location : ℕ)
      → location + count ≤ c.capacity
      → All (IsRequest c) (zero_requests c.z count location)
  unfolding zero_requests
  zero_requests-IsRequest zero location h = tt
  zero_requests-IsRequest (suc count) location h = (
    (
      omega arith,
      length-replicate c.z (dummy_id, []),
      All-replicate _ c.z {a = (dummy_id, [])} (omega arith, omega arith),
    ),
    zero_requests-IsRequest count (location + 1) (omega arith),
  )

  module _ {raw : RawStorage} (good : IsRawStorage raw c.capacity c.block_size) where
    -- Each cell holds a whole bucket.
    pub record IsSound (a : Adapter raw) : Type 0 where
      pub sound : good.IsSound a.storage
      pub cells :
          (l : ℕ)
          → l < c.capacity
          → (b : Bucket) × IsBucket c.z c.user_block_size b × IsSealed c b (good.cell a.storage l)

    abbrev pub view : Adapter raw → ℕ → Bucket
    view a l = opened c (good.cell a.storage l)

    pub view-sealed :
        (a : Adapter raw) (l : ℕ) (b : Bucket)
        → IsBucket c.z c.user_block_size b
        → IsSealed c b (good.cell a.storage l)
        → view a l ≡ b
    view-sealed a l b h s = ap blocks_of (opened-sealed b (good.cell a.storage l) h s)

    unseal_all_ok :
        (a : Adapter raw) (locations : List ℕ)
        → IsSound a
        → All (λ l. l < c.capacity) locations
        → unseal_all c (map (good.cell a.storage) locations) ≡ ok (flat_map (view a) locations)
    unfolding unseal_all flat_map
    unseal_all_ok a [] s h = refl
    unseal_all_ok a (l ∷ ls) s h =
        let (b, whole, held) = s.cells l h.0 in
        rw (opened-sealed b (good.cell a.storage l) whole held, unseal_all_ok a ls s h.1) refl

    -- A `set` of proper requests, on whatever the cells hold.
    set_runs :
        (a : Adapter raw) (requests : List (ℕ × Bucket))
        → good.IsSound a.storage
        → All (IsRequest c) requests
        → (t : Adapter raw) × (writes : List (ℕ × Bytes)) × (set c raw a requests ≡ ok t)
          × good.IsSound t.storage
          × Seals c requests writes
          × ((l : ℕ)
              → l < c.capacity
              → good.cell t.storage l ≡ overwritten writes l (good.cell a.storage l))
    unfolding set
    set_runs a requests sound h =
        let (writes, draws, all, seals) = seal_all_ok c fine requests a.iv_draws h in
        let (t, stored, sound', cells) =
          set_internals_ok good a.storage writes sound
            (Seals-proper c fine requests writes aes h seals) in
        (
          record { storage = t; iv_draws = draws },
          writes,
          rw (all, set_raws_lem good c.batch_limit a.storage writes, stored) refl,
          sound',
          seals,
          cells,
        )

    pub set_ok :
        (a : Adapter raw) (requests : List (ℕ × Bucket))
        → IsSound a
        → All (λ r. (r.0 < c.capacity) × IsWrite c.z c.user_block_size r.1) requests
        → (t : Adapter raw) × (set c raw a requests ≡ ok t)
          × IsSound t
          × ((l : ℕ)
              → l < c.capacity
              → view t l ≡ written (padded_requests c.user_block_size requests) l (view a l))
    set_ok a requests s h =
        let stored = padded_requests c.user_block_size requests in
        let proper = All-mono _ requests (λ r p. (p.0, p.1.full, p.1.blocks)) h in
        let (t, writes, ran, sound, seals, cells) = set_runs a requests s.sound proper in
        let held : (l : ℕ)
            → l < c.capacity
            → (b : Bucket) × IsBucket c.z c.user_block_size b
              × (view a l ≡ b)
              × IsSealed c (written stored l b) (good.cell t.storage l) =
          λ l below.
            let (b, whole, old) = s.cells l below in
            (
              b,
              whole,
              view-sealed a l b whole old,
              subst (IsSealed c (written stored l b)) (sym (cells l below))
                  (overwritten-written c requests writes l b (good.cell a.storage l) seals old),
            ) in
        (
          t,
          ran,
          record {
            sound = sound;
            cells = λ l below.
                let (b, whole, same, new) = held l below in
                (written stored l b, written_padded-IsBucket requests l b h whole, new);
          },
          λ l below.
              let (b, whole, same, new) = held l below in
              view-sealed t l (written stored l b) (written_padded-IsBucket requests l b h whole)
                new
              ∙ ap (written stored l) (sym same),
        )

    -- For a proper configuration and a block cipher that does what `IsAes` says, whatever the cells
    -- hold, `fillWithZeroes` does not throw, and they hold whole buckets of dummies with zeroes for
    -- payloads afterwards.
    pub fill_with_zeroes_lem :
        (a : Adapter raw)
        → good.IsSound a.storage
        → (t : Adapter raw) × (fill_with_zeroes c raw a ≡ ok t)
          × IsSound t
          × ((l : ℕ) → l < c.capacity → view t l ≡ empty_bucket c.z c.user_block_size)
    unfolding fill_with_zeroes
    fill_with_zeroes_lem a sound =
        let (t, writes, ran, sound', seals, cells) =
          set_runs a (zero_requests c.z c.capacity 0) sound
            (zero_requests-IsRequest c.capacity 0 (omega arith)) in
        let empty = empty_bucket c.z c.user_block_size in
        let held : (l : ℕ) → l < c.capacity → IsSealed c empty (good.cell t.storage l) = λ l below.
          subst (IsSealed c empty) (sym (cells l below)) (
            subst (λ (b : Bucket). IsSealed c b (overwritten writes l (good.cell a.storage l)))
              padded-empty
              (zeroes-sealed c c.capacity 0 l writes (good.cell a.storage l) seals (omega arith)
                (omega arith))) in
        (
          t,
          ran,
          record { sound = sound'; cells = λ l below. (empty, empty-IsBucket, held l below) },
          λ l below. view-sealed t l empty empty-IsBucket (held l below),
        )

    pub get_ok :
        (a : Adapter raw) (locations : List ℕ)
        → IsSound a
        → All (λ l. l < c.capacity) locations
        → get c raw a locations ≡ ok (flat_map (view a) locations)
    unfolding get get_loop
    get_ok a locations s h =
        rw
          (
            check_all_ok locations h,
            get_raws_lem good c.batch_limit a.storage locations,
            map_all-get_internal good a.storage locations s.sound h,
          )
          (unseal_all_ok a locations s h)

    -- For a proper configuration and a block cipher that does what `IsAes` says, if every cell of a
    -- storage holds a whole bucket, a `get` after a `set` of full buckets with payloads that are
    -- not too long answers, for each of its locations, the last bucket that was set there, its
    -- payloads padded with zeroes, or what was there before; neither throws.
    pub get-set :
        (a : Adapter raw) (requests : List (ℕ × Bucket)) (locations : List ℕ)
        → IsSound a
        → All (λ r. (r.0 < c.capacity) × IsWrite c.z c.user_block_size r.1) requests
        → All (λ l. l < c.capacity) locations
        → (t : Adapter raw) × (set c raw a requests ≡ ok t)
          × IsSound t
          × (get c raw t locations
              ≡ ok (
                  flat_map
                    (λ l. written (padded_requests c.user_block_size requests) l (view a l))
                    locations))
    get-set a requests locations s h below =
        let (t, ran, s', sees) = set_ok a requests s h in
        (
          t,
          ran,
          s',
          get_ok t locations s' below
              ∙ ap ok (
                  flat_map-eq (view t)
                    (λ l. written (padded_requests c.user_block_size requests) l (view a l))
                    locations (All-mono _ locations sees below)),
        )

    -- `get` returns the buckets of the locations, `set` of whole buckets replaces them, and
    -- `fillWithZeroes` leaves dummies; none of them throws on proper arguments.
    abbrev pub adapter-IsStore : IsStore (adapter_store c raw) c.capacity c.z c.user_block_size
    adapter-IsStore = record {
      IsSound = IsSound;
      view = view;
      view-IsBucket = λ a l s below.
          let (b, whole, held) = s.cells l below in
          subst (IsBucket c.z c.user_block_size) (sym (view-sealed a l b whole held)) whole;
      get_ok = get_ok;
      set_ok = set_ok;
      fill_with_zeroes_ok = λ a s. fill_with_zeroes_lem a s.sound;
    }
