-- ===== src/Oram/Access/Reading.antt =====
-- The first half of an access: the locations of a path, and the blocks that go to the stash.
use mathlib.Core.List.Memᴰ
use path_oram.Prelude.{
  ℕ, All, zero, suc, ◌+◌, ◌≤◌, ◌<◌, ◌≡◌, ◌≢◌, refl, sym, ap, ◌∙◌, subst, List, [], ◌∷◌, some, Memᴰ,
  ◌⊎◌, inl, inr, ok, ok_path, >>=-eq-ok, throw, stash_overflow, ◌==◌, if◌then◌else◌, eq-cases,
  Bool-cases, Option-cases, ==_iff, ne→==_false, arith,
}
use path_oram.Prelude.Words.{Bytes}
use path_oram.Definitions.{Block, dummy_id}
use path_oram.Tree.{bucket_for_level_leaf}
use path_oram.Stash
use path_oram.Stash.{Stash}
use path_oram.Stash.Laws
use path_oram.Stash.Laws.{find, after_add}
use path_oram.Oram.Access.{set_insert, path_locations, add_blocks}

mem-set_insert : (a : ℕ) (xs : List ℕ) {l : ℕ} → Memᴰ l (set_insert a xs) → (l ≡ a) ⊎ Memᴰ l xs
unfolding set_insert
mem-set_insert a [] m = inl (Memᴰ.eq_of_singleton m)
mem-set_insert a (x ∷ xs) m = elim (Bool-cases (a == x)) [
  | inl e ↦ inr (rw (e, set_insert) at m)
  | inr e ↦ elim (Memᴰ.cases_cons (rw (e, set_insert) at m)) [
    | inl here ↦ inr (Memᴰ.head here)
    | inr there ↦ elim (mem-set_insert a xs there) [
      | inl new ↦ inl new
      | inr old ↦ inr (Memᴰ.tail old)
    ]
  ]
]

set_insert_keeps : (a : ℕ) (xs : List ℕ) {l : ℕ} → Memᴰ l xs → Memᴰ l (set_insert a xs)
unfolding set_insert
set_insert_keeps a (x ∷ xs) m = elim (Bool-cases (a == x)) [
  | inl e ↦ rw (e, set_insert) m
  | inr e ↦ elim (Memᴰ.cases_cons m) [
    | inl here ↦ rw (e, set_insert) (Memᴰ.head here)
    | inr there ↦ rw (e, set_insert) (Memᴰ.tail (set_insert_keeps a xs there))
  ]
]
set_insert_keeps a [] m = elim m [ ]

set_insert_new : (a : ℕ) (xs : List ℕ) → Memᴰ a (set_insert a xs)
unfolding set_insert
set_insert_new a [] = Memᴰ.head refl
set_insert_new a (x ∷ xs) = elim (Bool-cases (a == x)) [
  | inl e ↦ rw (e, set_insert) (Memᴰ.head ((==_iff a x).0 e))
  | inr e ↦ rw (e, set_insert) (Memᴰ.tail (set_insert_new a xs))
]

module _ (h leaf : ℕ) where
  pub path_locations_keeps :
      (levels level : ℕ) (path : List ℕ) {l : ℕ}
      → Memᴰ l path
      → Memᴰ l (path_locations h levels level leaf path)
  unfolding path_locations
  path_locations_keeps zero level path m = m
  path_locations_keeps (suc levels) level path m =
      path_locations_keeps levels (level + 1) (set_insert (bucket_for_level_leaf h level leaf) path)
        (set_insert_keeps _ path m)

  -- Every level of the path is among the locations.
  pub path_locations_all :
      (levels level : ℕ) (path : List ℕ) (k : ℕ)
      → level ≤ k
      → k < level + levels
      → Memᴰ (bucket_for_level_leaf h k leaf) (path_locations h levels level leaf path)
  unfolding path_locations
  path_locations_all zero level path k a b = absurd (omega arith)
  path_locations_all (suc levels) level path k a b = elim (eq-cases k level) [
    | inl e ↦
        path_locations_keeps levels (level + 1)
          (set_insert (bucket_for_level_leaf h level leaf) path)
          (subst
            (λ (t : ℕ).
              Memᴰ (bucket_for_level_leaf h t leaf)
                (set_insert (bucket_for_level_leaf h level leaf) path))
            (sym e) (set_insert_new (bucket_for_level_leaf h level leaf) path))
    | inr ne ↦
        path_locations_all levels (level + 1) (set_insert (bucket_for_level_leaf h level leaf) path)
          k (omega arith) (omega arith)
  ]

  -- And nothing else is.
  pub mem-path_locations :
      (levels level : ℕ) (path : List ℕ) {l : ℕ}
      → Memᴰ l (path_locations h levels level leaf path)
      → Memᴰ l path ⊎ ((k : ℕ) × (k < level + levels) × (l ≡ bucket_for_level_leaf h k leaf))
  unfolding path_locations
  mem-path_locations zero level path m = inl m
  mem-path_locations (suc levels) level path m =
      elim (mem-path_locations levels (level + 1)
        (set_insert (bucket_for_level_leaf h level leaf) path) m) [
          | inl s ↦ elim (mem-set_insert (bucket_for_level_leaf h level leaf) path s) [
            | inl e ↦ inr (level, omega arith, e)
            | inr old ↦ inl old
          ]
          | inr (k, less, e) ↦ inr (k, omega arith, e)
        ]

after_block : Stash → Block → Stash
after_block t x = if x.0 == dummy_id then t else after_add t x.0 x.1

-- The stash after all blocks have been added, if none overflows.
pub after_blocks : Stash → List Block → Stash
unfolding after_block
after_blocks t [] = t
after_blocks t (x ∷ xs) = after_blocks (after_block t x) xs

module _ (t : Stash) (x : Block) (id : ℕ) where
  after_block_keeps : {d : Bytes} → find t id ≡ some d → find (after_block t x) id ≡ some d
  unfolding after_block
  after_block_keeps e = ground (arith, Laws.find-after_add t x.0 x.1 id)

  find-after_block :
      {d : Bytes}
      → find (after_block t x) id ≡ some d
      → (find t id ≡ some d) ⊎ ((id ≢ dummy_id) × ((id ≡ x.0) × (d ≡ x.1)))
  unfolding after_block
  find-after_block {d} e = elim (Option-cases (find t id)) [
    | inr (old, there) ↦ inl (there ∙ sym (after_block_keeps there) ∙ e)
    | inl absent ↦ elim (Bool-cases (x.0 == dummy_id)) [
      | inl dummy ↦ inl (rw dummy at e)
      | inr real ↦ elim (eq-cases id x.0) [
        | inl same ↦
            let added = rw real at e in
            inr
              (λ q. absurd (ground arith), (same, ground (arith, Laws.find-after_add t x.0 x.1 id)))
        | inr other ↦ inl (ground (arith, Laws.find-after_add t x.0 x.1 id))
      ]
    ]
  ]

  after_block_adds : x.0 ≢ dummy_id → id ≡ x.0 → (d : Bytes) × (find (after_block t x) id ≡ some d)
  unfolding after_block
  after_block_adds real same = elim (Option-cases (find t id)) [
    | inr (old, there) ↦ (old, after_block_keeps there)
    | inl absent ↦
        (x.1, rw (ne→==_false x.0 dummy_id real) (ground (arith, Laws.find-after_add t x.0 x.1 id)))
  ]

pub after_blocks_keeps :
    (t : Stash) (xs : List Block) (id : ℕ) {d : Bytes}
    → find t id ≡ some d
    → find (after_blocks t xs) id ≡ some d
unfolding after_blocks
after_blocks_keeps t [] id e = e
after_blocks_keeps t (x ∷ xs) id e =
    after_blocks_keeps (after_block t x) xs id (after_block_keeps t x id e)

-- What is found afterwards was there before, or is one of the blocks and no dummy.
pub find-after_blocks :
    (t : Stash) (xs : List Block) (id : ℕ) {d : Bytes}
    → find (after_blocks t xs) id ≡ some d
    → (find t id ≡ some d) ⊎ ((id ≢ dummy_id) × Memᴰ (id, d) xs)
unfolding after_blocks
find-after_blocks t [] id e = inl e
find-after_blocks t (x ∷ xs) id e = elim (find-after_blocks (after_block t x) xs id e) [
  | inr (real, m) ↦ inr (real, Memᴰ.tail m)
  | inl first ↦ elim (find-after_block t x id first) [
    | inl old ↦ inl old
    | inr (real, same) ↦ inr (real, Memᴰ.head (λ i. (same.0 i, same.1 i)))
  ]
]

-- Every block that is no dummy is found, with its payload or the one that was there.
pub after_blocks_adds :
    (t : Stash) (xs : List Block) (id : ℕ) {d : Bytes}
    → id ≢ dummy_id
    → Memᴰ (id, d) xs
    → (d' : Bytes) × (find (after_blocks t xs) id ≡ some d')
unfolding after_blocks
after_blocks_adds t (x ∷ xs) id real (Memᴰ.head e) =
    let same = ap (λ (b : Block). b.0) e in
    let (d', found) = after_block_adds t x id (λ q. real (same ∙ q)) same in
    (d', after_blocks_keeps (after_block t x) xs id found)
after_blocks_adds t (x ∷ xs) id real (Memᴰ.tail m) =
    after_blocks_adds (after_block t x) xs id real m
after_blocks_adds t [] id real m = elim m [ ]

pub after_blocks-IsValid :
    (t u : Stash) (xs : List Block) → Laws.IsValid t → add_blocks t xs ≡ ok u → Laws.IsValid u
unfolding add_blocks
after_blocks-IsValid t u [] v e = subst Laws.IsValid (ok_path e) v
after_blocks-IsValid t u ((id, bytes) ∷ xs) v e =
    let (t', first, others) =
      >>=-eq-ok (if id == dummy_id then ok t else Stash.add t id bytes) (λ s. add_blocks s xs) e in
    after_blocks-IsValid t' u xs
      (elim (Bool-cases (id == dummy_id)) [
        | inl dummy ↦ subst Laws.IsValid (ok_path (rw dummy at first)) v
        | inr real ↦ Laws.add-IsValid t id bytes v (rw real at first)
      ])
      others

pub after_blocks-capacity :
    (t : Stash) (xs : List Block) → (after_blocks t xs).capacity ≡ t.capacity
unfolding after_blocks after_block after_add
after_blocks-capacity t [] = refl
after_blocks-capacity t (x ∷ xs) = after_blocks-capacity (after_block t x) xs ∙ ground arith

-- The blocks are all added, or the stash overflows since it has no room for `n` blocks.
pub add_blocks_cases :
    (n : ℕ) (t : Stash) (xs : List Block)
    → Laws.IsValid t
    → Laws.Below n t
    → All (λ x. (x.0 ≡ dummy_id) ⊎ (x.0 < n)) xs
    → ((t.capacity < n) × (add_blocks t xs ≡ throw stash_overflow))
      ⊎ (add_blocks t xs ≡ ok (after_blocks t xs))
unfolding add_blocks after_blocks after_block after_add
add_blocks_cases n t [] v b h = inr refl
add_blocks_cases n t ((id, bytes) ∷ xs) v b h = elim (Bool-cases (id == dummy_id)) [
  | inl e ↦ rw (e, add_blocks) (add_blocks_cases n t xs v b h.1)
  | inr e ↦
      let less : id < n = elim h.0 [
        | inl dummy ↦ absurd (ground (arith, e, dummy))
        | inr below ↦ below
      ] in
      elim (Laws.add_cases t id bytes) [
        | inl (over, thrown) ↦ inl (Laws.overflow-lt n t id v b less over, rw (e, thrown) refl)
        | inr fine ↦
            rw (e, fine)
              (add_blocks_cases n (after_add t id bytes) xs (Laws.add-IsValid t id bytes v fine)
                (λ i d found. ground (arith, b i d, Laws.find-after_add t id bytes i)) h.1)
      ]
]
