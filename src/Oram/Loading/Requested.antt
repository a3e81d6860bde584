-- ===== src/Oram/Loading/Requested.antt =====
-- What the loop over the data leaves: full buckets at locations of their own, and an unfinished one.
use mathlib.Core.List.Memᴰ
use path_oram.Prelude.{
  ℕ, ◌+◌, ◌*◌, ◌^◌, ◌≤◌, ◌<◌, ◌≡◌, refl, sym, ◌∙◌, subst, List, [], ◌∷◌, ◌++◌, none, some, All,
  All-mono, mem-All, Memᴰ, length, length-append, if◌then◌else◌, ◌==◌, eq-cases, ne→==_false, ◌⊎◌,
  inl, inr, arith,
}
use path_oram.Prelude.Assoc.{lookup, Distinct}
use path_oram.Definitions.{Block, Bucket}
use path_oram.Tree.Path.{leaves}
use path_oram.PositionMap
use path_oram.PositionMap.Laws as PositionMapLaws
use path_oram.PositionMap.Laws.{leaf_of}
use path_oram.Oram.State.{Config}
use path_oram.Oram.Invariant.{OnPath}
use path_oram.Oram.Loading.{Placed}
use path_oram.Oram.Loading.Spreading.{IsSpread}
use path_oram.Oram.Loading.Placing.{OnPath-same, AreHeld}

abbrev pub AreProper : Config → PositionMap.PositionMap → Type 0
AreProper c map = (id leaf : ℕ) → leaf_of map id ≡ some leaf → leaf < leaves c.height

-- A request is a full bucket for one of the iterations.
abbrev pub IsFull : Config → (ℕ → ℕ) → (first last : ℕ) → ℕ × Bucket → Type 0
IsFull c location first last q =
    ((j : ℕ) × (first ≤ j) × (j < last) × (q.0 ≡ location j)) × (length q.1 ≡ c.z)

-- Where a block of the data is afterwards.
abbrev pub IsRequested : Block → Placed → Type 0
IsRequested x r = ((l : ℕ) × (b : Bucket) × Memᴰ (l, b) r.requests × Memᴰ x b) ⊎ Memᴰ x r.bucket

pub record IsPlaced (c : Config) (location : ℕ → ℕ) (map : PositionMap.PositionMap) (iteration : ℕ)
    (bucket : Bucket) (input : List Block) (r : Placed) : Type 0 where
  pub cells : PositionMapLaws.IsValid r.map
  pub same : r.map.capacity ≡ map.capacity
  pub proper : AreProper c r.map
  pub kept : (id : ℕ) → lookup id input ≡ none → leaf_of r.map id ≡ leaf_of map id
  pub total : r.iteration * c.z + length r.bucket ≡ iteration * c.z + length bucket + length input
  pub later : iteration ≤ r.iteration
  pub short : length r.bucket < c.z
  pub full : All (IsFull c location iteration r.iteration) r.requests
  pub distinct : Distinct r.requests
  pub sound :
      (l : ℕ) (b : Bucket) (x : Block)
      → Memᴰ (l, b) r.requests
      → Memᴰ x b
      → (Memᴰ x bucket ⊎ Memᴰ x input) × OnPath c r.map l x.0
  pub bucket_sound :
      (x : Block)
      → Memᴰ x r.bucket
      → (Memᴰ x bucket ⊎ Memᴰ x input) × OnPath c r.map (location r.iteration) x.0
  pub complete : (x : Block) → Memᴰ x bucket ⊎ Memᴰ x input → IsRequested x r

-- A block of the grown bucket was in the bucket, or is the new one.
ungrown :
    (bucket : Bucket) (r x : Block) (input : List Block)
    → Memᴰ x (bucket ++ r ∷ []) ⊎ Memᴰ x input
    → Memᴰ x bucket ⊎ Memᴰ x (r ∷ input)
ungrown bucket r x input (inr later) = inr (Memᴰ.tail later)
ungrown bucket r x input (inl now) = elim (Memᴰ.append_cases bucket now) [
  | inl old ↦ inl old
  | inr new ↦ elim (Memᴰ.cases_cons new) [
    | inl here ↦ inr (Memᴰ.head here)
    | inr none_left ↦ elim none_left [ ]
  ]
]

grown_with :
    (bucket : Bucket) (r x : Block) (input : List Block)
    → Memᴰ x bucket ⊎ Memᴰ x (r ∷ input)
    → Memᴰ x (bucket ++ r ∷ []) ⊎ Memᴰ x input
grown_with bucket r x input (inl old) = inl (Memᴰ.append_left (r ∷ []) old)
grown_with bucket r x input (inr m) = elim (Memᴰ.cases_cons m) [
  | inl here ↦ inl (Memᴰ.append_right bucket (Memᴰ.head here))
  | inr later ↦ inr later
]

-- No request of a later iteration has the location of this one.
fresh_location :
    (c : Config) (location : ℕ → ℕ) (i last count max : ℕ) (requests : List (ℕ × Bucket))
    → IsSpread location max count
    → last ≤ count
    → All (IsFull c location (i + 1) last) requests
    → lookup (location i) requests ≡ none
unfolding lookup
fresh_location c location i last count max [] spread within later = refl
fresh_location c location i last count max (q ∷ requests) spread within later =
    let (j, first, less, at) = later.0.0 in
    let apart =
      ne→==_false (location i) q.0
        (λ e. absurd (omega (arith, e, at, spread.rising i j (omega arith) (omega arith)))) in
    rw apart (fresh_location c location i last count max requests spread within later.1)

module _ (c : Config) (location : ℕ → ℕ) (count : ℕ)
    (spread : IsSpread location (2 ^ c.height) count) (map map' : PositionMap.PositionMap)
    (same' : map'.capacity ≡ map.capacity) (iteration leaf : ℕ) (bucket : Bucket) (r : Block)
    (input : List Block)
    (placed : (other : ℕ)
      → leaf_of map' other ≡ (if other == r.0 then some leaf else leaf_of map other)) where
  kept_before :
      (after : PositionMap.PositionMap)
      → ((id : ℕ) → lookup id input ≡ none → leaf_of after id ≡ leaf_of map' id)
      → (id : ℕ) → lookup id (r ∷ input) ≡ none
      → leaf_of after id ≡ leaf_of map id
  unfolding lookup
  kept_before after kept id apart = elim (eq-cases id r.0) [
    | inl e ↦ absurd (ground arith)
    | inr ne ↦
        let off = ne→==_false id r.0 ne in kept id (rw off at apart) ∙ placed id ∙ rw off refl
  ]

  -- One more block, and the bucket is not full yet.
  pub open_step :
      (after : Placed)
      → IsPlaced c location map' iteration (bucket ++ r ∷ []) input after
      → IsPlaced c location map iteration bucket (r ∷ input) after
  open_step after p = record {
    cells = p.cells;
    same = p.same ∙ same';
    proper = p.proper;
    kept = kept_before after.map p.kept;
    total = omega (arith, p.total, length-append bucket (r ∷ []));
    later = p.later;
    short = p.short;
    full = p.full;
    distinct = p.distinct;
    sound =
        λ l b x at m. let (from, on) = p.sound l b x at m in (ungrown bucket r x input from, on);
    bucket_sound =
        λ x m. let (from, on) = p.bucket_sound x m in (ungrown bucket r x input from, on);
    complete = λ x from. p.complete x (grown_with bucket r x input from);
  }

  -- One more block makes the bucket full.
  pub full_step :
      (after : Placed)
      → length (bucket ++ r ∷ []) ≡ c.z
      → after.iteration ≤ count
      → AreHeld c map' (location iteration) (bucket ++ r ∷ []) input
      → IsPlaced c location map' (iteration + 1) [] input after
      → IsPlaced c location map iteration bucket
          (r ∷ input)
          (record after { requests = (location iteration, bucket ++ r ∷ []) ∷ after.requests })
  full_step after whole within held p =
      let grown = bucket ++ r ∷ [] in
      record {
        cells = p.cells;
        same = p.same ∙ same';
        proper = p.proper;
        kept = kept_before after.map p.kept;
        total = omega (arith, p.total, length-append bucket (r ∷ []), whole);
        later = omega (arith, p.later);
        short = p.short;
        full = (
          ((iteration, omega arith, omega (arith, p.later), refl), whole),
          All-mono _ after.requests
              (λ q ((j, first, less, at), size). ((j, omega arith, less, at), size)) p.full,
        );
        distinct = (
          fresh_location c location iteration after.iteration count (2 ^ c.height) after.requests
              spread within p.full,
          p.distinct,
        );
        sound = λ l b x at m. elim (Memᴰ.cases_cons at) [
          | inl here ↦
              let m' : Memᴰ x grown = subst (λ (q : ℕ × Bucket). Memᴰ x q.1) here m in
              let (on, apart) = mem-All _ grown held m' in
              (
                ungrown bucket r x input (inl m'),
                subst (λ (q : ℕ × Bucket). OnPath c after.map q.0 x.0) (sym here)
                    (OnPath-same c map' after.map (location iteration) x.0 (p.kept x.0 apart) on),
              )
          | inr there ↦
              let (from, on) = p.sound l b x there m in
              (ungrown bucket r x input (later_only x from), on)
        ];
        bucket_sound = λ x m.
            let (from, on) = p.bucket_sound x m in
            (ungrown bucket r x input (later_only x from), on);
        complete = λ x from. elim (grown_with bucket r x input from) [
          | inl now ↦ inl (location iteration, grown, Memᴰ.head refl, now)
          | inr later ↦ elim (p.complete x (inr later)) [
            | inl (l, b, at, m) ↦ inl (l, b, Memᴰ.tail at, m)
            | inr m ↦ inr m
          ]
        ];
      }
    where
      later_only : (x : Block) → Memᴰ x [] ⊎ Memᴰ x input → Memᴰ x (bucket ++ r ∷ []) ⊎ Memᴰ x input
      later_only x (inl m) = elim m [ ]
      later_only x (inr m) = inr m
