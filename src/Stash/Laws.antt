-- ===== src/Stash/Laws.antt =====
-- The stash as a map: what each operation does to it, its bound, and when it overflows.
use mathlib.Core.List.{append-nil}
use path_oram.Prelude.{
  ℕ, ◌+◌, ◌<◌, ◌∷◌, All-of_mem, ◌≤◌, ◌≡◌, subst, false, List, [], ◌++◌, Option, none, some, ◌==◌,
  if◌then◌else◌, ok, throw, stash_overflow, Permᴰ, arith, ◌⊎◌, inl, inr, Bool-cases, not, ◌&&◌,
  length, refl,
}
use path_oram.Prelude.Words.{Bytes}
use path_oram.Prelude.Bounded.{length-Distinct}
use path_oram.Prelude.Assoc.{
  contains-eq-lookup, lookup_of_mem, lookup, contains, Distinct, lookup-insert, lookup-assign,
  lookup-erase, length-insert, length-assign, length-erase-le, insert, assign, insert-Distinct,
  assign-Distinct, erase-Distinct,
}
use path_oram.Utility.Random.{Source}
use path_oram.Utility.Shuffle.{shuffle-perm}
use path_oram.Definitions.{Block}
use path_oram.Stash.{Stash, get_all, check_overflow, add, update, get, remove, exists, current_size}

-- Keys are unique and the capacity is kept.
pub record IsValid (t : Stash) : Type 0 where
  pub distinct : Distinct t.stash
  pub bounded : current_size t ≤ t.capacity

-- The contents as a function.
abbrev pub find : Stash → ℕ → Option Bytes
find t block = lookup block t.stash

-- The stash is full, and the block is not in it.
abbrev pub Overflows : Stash → ℕ → Type 0
Overflows t block = (current_size t ≡ t.capacity) × (exists t block ≡ false)

-- What `add` and `update` leave if they do not throw.
unfoldable pub after_add : Stash → ℕ → Bytes → Stash
after_add t block bytes = record t { stash = insert block bytes t.stash }

unfoldable pub after_update : Stash → ℕ → Bytes → Stash
after_update t block bytes = record t { stash = assign block bytes t.stash }

module _ (t : Stash) (block : ℕ) (bytes : Bytes) where
  -- `add` and `update` throw if the stash is full and the block is not in it.
  pub overflow_throws :
      Overflows t block
      → (add t block bytes ≡ throw stash_overflow) × (update t block bytes ≡ throw stash_overflow)
  unfolding add update check_overflow exists current_size
  overflow_throws h = (ground arith, ground arith)

  pub no_overflow_ok :
      ¬ Overflows t block
      → (add t block bytes ≡ ok (after_add t block bytes))
        × (update t block bytes ≡ ok (after_update t block bytes))
  unfolding add update check_overflow exists current_size after_add after_update
  no_overflow_ok h = (ground (arith, h), ground (arith, h))

  pub add_inv : {u : Stash} → add t block bytes ≡ ok u → u ≡ after_add t block bytes
  unfolding add check_overflow after_add
  add_inv h = ground arith

  pub update_inv : {u : Stash} → update t block bytes ≡ ok u → u ≡ after_update t block bytes
  unfolding update check_overflow after_update
  update_inv h = ground arith

  -- `add` does not replace, `update` does, and neither touches another block.
  pub find-after_add :
      (other : ℕ)
      → find (after_add t block bytes) other ≡ (
          if other == block
          then elim (find t block) [ none ↦ some bytes | some old ↦ some old ]
          else find t other)
  unfolding after_add
  find-after_add other = lookup-insert block other bytes t.stash

  pub find-after_update :
      (other : ℕ)
      → find (after_update t block bytes) other
        ≡ (if other == block then some bytes else find t other)
  unfolding after_update
  find-after_update other = lookup-assign block other bytes t.stash

  -- Unless the stash overflows, `add` keeps the bytes of a block that was there, or else adds the
  -- block, and leaves every other block.
  pub add_ok :
      ¬ Overflows t block
      → (u : Stash) × (add t block bytes ≡ ok u)
        × (u.capacity ≡ t.capacity)
        × ((other : ℕ)
            → find u other ≡ (
                if other == block
                then elim (find t block) [ none ↦ some bytes | some old ↦ some old ]
                else find t other))
  unfolding after_add
  add_ok h = (after_add t block bytes, (no_overflow_ok h).0, refl, find-after_add)

  -- Unless the stash overflows, `update` gives the block these bytes, and leaves every other block.
  pub update_ok :
      ¬ Overflows t block
      → (u : Stash) × (update t block bytes ≡ ok u)
        × (u.capacity ≡ t.capacity)
        × ((other : ℕ) → find u other ≡ (if other == block then some bytes else find t other))
  unfolding after_update
  update_ok h = (after_update t block bytes, (no_overflow_ok h).1, refl, find-after_update)

  pub size-after_add : current_size (after_add t block bytes) ≤ current_size t + 1
  unfolding current_size after_add
  size-after_add = ground (arith, length-insert block bytes t.stash)

  pub size-after_update : current_size (after_update t block bytes) ≤ current_size t + 1
  unfolding current_size after_update
  size-after_update = ground (arith, length-assign block bytes t.stash)

  -- From a stash within its capacity, with one entry for an ID, an `add` that does not throw keeps
  -- it so.
  pub add-IsValid : {u : Stash} → IsValid t → add t block bytes ≡ ok u → IsValid u
  unfolding add check_overflow current_size after_add
  add-IsValid {u} v h = record {
    distinct = rw (add_inv h, after_add) (insert-Distinct block bytes t.stash v.distinct);
    bounded = ground (arith, v.bounded, length-insert block bytes t.stash);
  }

  -- From a stash within its capacity, with one entry for an ID, an `update` that does not throw
  -- keeps it so.
  pub update-IsValid : {u : Stash} → IsValid t → update t block bytes ≡ ok u → IsValid u
  unfolding update check_overflow current_size after_update
  update-IsValid {u} v h = record {
    distinct = rw (update_inv h, after_update) (assign-Distinct block bytes t.stash v.distinct);
    bounded = ground (arith, v.bounded, length-assign block bytes t.stash);
  }

module _ (t : Stash) (block : ℕ) where
  -- After `remove` the block is not in the stash, and every other block is as it was.
  pub find-remove :
      (other : ℕ) → find (remove t block) other ≡ (if other == block then none else find t other)
  unfolding remove
  find-remove other = lookup-erase block other t.stash

  pub remove-IsValid : IsValid t → IsValid (remove t block)
  unfolding remove current_size
  remove-IsValid v = record {
    distinct = erase-Distinct block t.stash v.distinct;
    bounded = omega (arith, length-erase-le block t.stash);
  }

  -- The response gets the bytes of the block in front, or stays.
  pub get_lem :
      (response : Bytes)
      → get t block response
        ≡ elim (find t block) [ none ↦ response | some found ↦ found ++ response ]
  unfolding get
  get_lem response = ground arith

-- `getAll` into an empty vector yields every block of the stash once, in some order.
pub get_all-perm : (t : Stash) (draws : Source) → Permᴰ t.stash (get_all t draws [])
unfolding get_all
get_all-perm t draws =
    subst (λ (l : List Block). Permᴰ l (get_all t draws [])) (append-nil t.stash)
      (shuffle-perm draws (t.stash ++ []))

-- `add` and `update` overflow, or do what they promise.
pub add_cases :
    (t : Stash) (block : ℕ) (bytes : Bytes)
    → (Overflows t block × (add t block bytes ≡ throw stash_overflow))
      ⊎ (add t block bytes ≡ ok (after_add t block bytes))
unfolding add check_overflow after_add current_size exists
add_cases t block bytes =
    elim (Bool-cases (length t.stash == t.capacity && not (contains block t.stash))) [
      | inl e ↦ inl ((ground arith, ground arith), rw e refl)
      | inr e ↦ inr (rw e refl)
    ]

pub update_cases :
    (t : Stash) (block : ℕ) (bytes : Bytes)
    → (Overflows t block × (update t block bytes ≡ throw stash_overflow))
      ⊎ (update t block bytes ≡ ok (after_update t block bytes))
unfolding update check_overflow after_update current_size exists
update_cases t block bytes =
    elim (Bool-cases (length t.stash == t.capacity && not (contains block t.stash))) [
      | inl e ↦ inl ((ground arith, ground arith), rw e refl)
      | inr e ↦ inr (rw e refl)
    ]

-- Every ID in the stash is below `n`.
abbrev pub Below : ℕ → Stash → Type 0
Below n t = (id : ℕ) (d : Bytes) → find t id ≡ some d → id < n

-- A stash with room for `n` blocks does not overflow by a block below `n`.
pub overflow-lt :
    (n : ℕ) (t : Stash) (block : ℕ)
    → IsValid t
    → Below n t
    → block < n
    → Overflows t block
    → t.capacity < n
unfolding current_size exists lookup
overflow-lt n t block v below less over =
    let absent : lookup block t.stash ≡ none =
      ground (arith, over.1, contains-eq-lookup block t.stash) in
    omega (
      arith,
      over.0,
      length-Distinct n ((block, []) ∷ t.stash) (absent, v.distinct)
          (
            less,
            All-of_mem _ t.stash (λ e m. below e.0 e.1 (lookup_of_mem e.0 t.stash v.distinct m)),
          ),
    )

pub capacity-after_update :
    (t : Stash) (block : ℕ) (bytes : Bytes) → (after_update t block bytes).capacity ≡ t.capacity
unfolding after_update
capacity-after_update t block bytes = refl
