-- ===== src/Tests/Fixtures.antt =====
-- A tree of three buckets with two blocks of two bytes each, in a storage that is an array of
-- buckets, and an ORAM over it that holds one block in the root and one in the stash.
use mathlib.Core.List.{flat_map}
use mathlib.Core.List.Memᴰ
use path_oram.Prelude.{
  ℕ, zero, suc, ◌<◌, ◌≡◌, refl, sym, ap, ◌∙◌, subst, List, [], ◌∷◌, none, some, get_elem?, All,
  Memᴰ, ◌⊎◌, inl, inr, ok, ◌==◌, if◌then◌else◌, Bool-cases, eq-cases, ne→==_false, arith,
}
use path_oram.Prelude.Words.{Bytes}
use path_oram.Prelude.Assoc.{lookup}
use path_oram.Storage.Padding.{
  pad, padded_bucket, padded_requests, length-padded_bucket, padded_bucket-All,
}
use path_oram.Definitions.{Block, Bucket, dummy_id}
use path_oram.Tree.{bucket_for_level_leaf}
use path_oram.PositionMap.{PositionMap}
use path_oram.Stash.{Stash, current_size}
use path_oram.Stash.Laws.{find}
use path_oram.Oram.Store.{Store, IsStore, IsBucket, IsWrite, written, empty_bucket}
use path_oram.Oram.State.{Config, Oram}
use path_oram.Oram.Invariant.{Contents, Expects, put_contents, OnPath, IsConfig, Inv}

abbrev pub bucket_array : Store
bucket_array = record {
  State = ℕ → Bucket;
  get = λ s locations. ok (flat_map s locations);
  set = λ s requests. ok (λ l. written (padded_requests 2 requests) l (s l));
  fill_with_zeroes = λ s. ok (λ l. empty_bucket 2 2);
}

abbrev pub AreBuckets : (ℕ → Bucket) → Type 0
AreBuckets s = (l : ℕ) → l < 4 → IsBucket 2 2 (s l)

pub written-IsBucket :
    (requests : List (ℕ × Bucket)) (l : ℕ) (old : Bucket)
    → All (λ r. (r.0 < 4) × IsWrite 2 2 r.1) requests
    → IsBucket 2 2 old
    → IsBucket 2 2 (written (padded_requests 2 requests) l old)
written-IsBucket [] l old h k = k
written-IsBucket ((i, b) ∷ requests) l old h k =
    written-IsBucket requests l (if l == i then padded_bucket 2 b else old) h.1 chosen
  where
    chosen : IsBucket 2 2 (if l == i then padded_bucket 2 b else old)
    chosen = elim (Bool-cases (l == i)) [
      | inl e ↦ rw e (record {
        full = length-padded_bucket 2 b ∙ h.0.1.full;
        blocks = padded_bucket-All 2 b h.0.1.blocks;
      })
      | inr e ↦ rw e k
    ]

pub empty-IsBucket : IsBucket 2 2 (empty_bucket 2 2)
empty-IsBucket = record { full = refl; blocks = ((omega arith, refl), ((omega arith, refl), tt)) }

pub empty-dummy : (x : Block) → Memᴰ x (empty_bucket 2 2) → x.0 ≡ dummy_id
empty-dummy x m = elim (Memᴰ.cases_cons m) [
  | inl here ↦ ap (λ (b : Block). b.0) here
  | inr behind ↦ elim (Memᴰ.cases_cons behind) [
    | inl here ↦ ap (λ (b : Block). b.0) here
    | inr more ↦ elim more [ ]
  ]
]

unfoldable pub bucket_array-IsStore : IsStore bucket_array 4 2 2
bucket_array-IsStore = record {
  IsSound = AreBuckets;
  view = λ s. s;
  view-IsBucket = λ s l sound below. sound l below;
  get_ok = λ s locations sound below. refl;
  set_ok = λ s requests sound h. (
    λ l. written (padded_requests 2 requests) l (s l),
    refl,
    λ l below. written-IsBucket requests l (s l) h (sound l below),
    λ l below. refl,
  );
  fill_with_zeroes_ok =
      λ s sound. (λ l. empty_bucket 2 2, refl, λ l below. empty-IsBucket, λ l below. refl);
}

abbrev pub small : Config
small = record { data_size = 2; z = 2; height = 2; buckets = 4; blocks = 8; batch_size = 2 }

pub small-IsConfig : IsConfig small
small-IsConfig = record {
  tall = record { lower = omega arith; upper = omega arith };
  roomy = omega arith;
}

abbrev pub small_map : PositionMap
small_map = record { map = 0 ∷ 1 ∷ 1 ∷ 0 ∷ 0 ∷ 1 ∷ 1 ∷ 0 ∷ []; capacity = 8 }

abbrev pub small_tree : ℕ → Bucket
small_tree l = if l == 1 then (0, 5 ∷ 6 ∷ []) ∷ (dummy_id, 0 ∷ 0 ∷ []) ∷ [] else empty_bucket 2 2

abbrev pub small_stash : Stash
small_stash = record { stash = (1, 7 ∷ 8 ∷ []) ∷ []; capacity = 12 }

abbrev pub small_contents : Contents
small_contents = put_contents (put_contents (λ id. none) 1 (7 ∷ 8 ∷ [])) 0 (5 ∷ 6 ∷ [])

abbrev pub small_oram : Oram bucket_array
small_oram = record {
  storage = small_tree;
  map = small_map;
  stash = small_stash;
  cache = [];
  leaf_draws = λ n. n;
  shuffle_draws = λ n. n;
  dummy_draws = λ n. n;
}

small_tree-IsBucket : (l : ℕ) → IsBucket 2 2 (small_tree l)
small_tree-IsBucket l = elim (Bool-cases (l == 1)) [
  | inl e ↦ rw e (record { full = refl; blocks = ((omega arith, refl), ((omega arith, refl), tt)) })
  | inr e ↦ rw e empty-IsBucket
]

proper_leaf :
    (leaves : List ℕ) (id leaf : ℕ)
    → All (λ a. a < 2) leaves
    → get_elem? leaves id ≡ some leaf
    → leaf < 2
proper_leaf [] id leaf h e = ground arith
proper_leaf (a ∷ leaves) zero leaf h e = ground arith
proper_leaf (a ∷ leaves) (suc id) leaf h e = proper_leaf leaves id leaf h.1 e

in_root : OnPath small small_map 1 0
unfolding bucket_for_level_leaf
in_root = (0, 0, refl, omega arith, refl)

in_tree :
    (l : ℕ) (x : Block)
    → Memᴰ x (small_tree l)
    → (x.0 ≡ dummy_id) ⊎ (Expects small small_contents x.0 x.1 × OnPath small small_map l x.0)
unfolding pad
in_tree l x m = elim (eq-cases l 1) [
  | inl e ↦ elim (Memᴰ.cases_cons (rw e at m)) [
    | inl stored ↦ inr (
      subst (λ (y : Block). Expects small small_contents y.0 y.1) (sym stored) refl,
      rw (e, ap (λ (y : Block). y.0) stored) in_root,
    )
    | inr behind ↦ elim (Memᴰ.cases_cons behind) [
      | inl dummy ↦ inl (ap (λ (b : Block). b.0) dummy)
      | inr more ↦ elim more [ ]
    ]
  ]
  | inr ne ↦ elim (Memᴰ.cases_cons (rw (ne→==_false l 1 ne) at m)) [
    | inl dummy ↦ inl (ap (λ (b : Block). b.0) dummy)
    | inr behind ↦ elim (Memᴰ.cases_cons behind) [
      | inl dummy ↦ inl (ap (λ (b : Block). b.0) dummy)
      | inr more ↦ elim more [ ]
    ]
  ]
]

complete :
    (id : ℕ) (d : Bytes)
    → small_contents id ≡ some d
    → ((d' : Bytes) × (find small_stash id ≡ some d'))
      ⊎ ((l : ℕ) × (d' : Bytes) × OnPath small small_map l id × Memᴰ (id, d') (small_tree l))
unfolding lookup
complete id d e = elim (eq-cases id 0) [
  | inl here ↦ inr (1, 5 ∷ 6 ∷ [], rw here in_root, Memᴰ.head (λ i. (here i, 5 ∷ 6 ∷ [])))
  | inr ne ↦ inl (d, ground arith)
]

in_stash : (id : ℕ) (d : Bytes) → find small_stash id ≡ some d → Expects small small_contents id d
unfolding lookup pad
in_stash id d e =
    let here : id ≡ 1 = ground arith in
    let payload : d ≡ 7 ∷ 8 ∷ [] = ground arith in rw (here, payload) refl

pub small-Inv : Inv small bucket_array-IsStore small_contents small_oram
unfolding lookup current_size bucket_array-IsStore
small-Inv = record {
  readable = record {
    positive = omega arith;
    sound = λ l below. small_tree-IsBucket l;
    cached = record { distinct = tt; entries = tt };
  };
  mapped = record {
    cells = record { cells = refl };
    numbered = omega arith;
    proper = λ id leaf e.
        proper_leaf small_map.map id leaf
          (
            omega arith,
            (
              omega arith,
              (
                omega arith,
                (omega arith, (omega arith, (omega arith, (omega arith, (omega arith, tt))))),
              ),
            ),
          )
          e;
    known = λ id d e. (ground arith, ground arith);
  };
  stash_valid = record { distinct = (refl, tt); bounded = omega arith };
  stash_sound = λ id d e. in_stash id d e;
  tree_sound = λ l x below m. in_tree l x m;
  complete = λ id d e. complete id d e;
}
