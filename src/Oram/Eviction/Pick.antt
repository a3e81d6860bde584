-- ===== src/Oram/Eviction/Pick.antt =====
-- One level of the eviction. `pick_from` takes blocks that fit the bucket, at most `Z` of them; to
-- sort their places in falling order and erase one after another leaves exactly the other blocks.
use mathlib.Core.Bool.{true≢false}
use mathlib.Core.List.{append_assoc}
use mathlib.Core.List.Memᴰ
use path_oram.Prelude.{
  ℕ, suc, ◌+◌, ◌≤◌, ◌<◌, ◌≡◌, refl, sym, ap, ◌∙◌, true, false, some_path, List, [], ◌∷◌, ◌++◌, some,
  length, length-append, All, Memᴰ, ◌⊎◌, inl, inr, ok, ltb, le→ltb_false, Bool-cases, lt-cases,
  ne→==_false, ==_iff, arith,
}
use path_oram.Definitions.{Block}
use path_oram.Tree.{can_include}
use path_oram.PositionMap.{PositionMap}
use path_oram.PositionMap.Laws
use path_oram.PositionMap.Laws.{leaf_of}
use path_oram.Oram.State.{Config}
use path_oram.Oram.Eviction.{pick_from, insert_desc, sort_desc, erase_at, erase_each}

-- From entry `i` on: the picked entries, their places, and the entries that stay.
pub data Picks : List Block → ℕ → List Block → List ℕ → List Block → Type 0 where
  stop : {i : ℕ} {es : List Block} → Picks es i [] [] es
  take :
      {e : Block} {es chosen left : List Block} {i : ℕ} {places : List ℕ}
      → Picks es (i + 1) chosen places left
      → Picks (e ∷ es) i (e ∷ chosen) (i ∷ places) left
  pass :
      {e : Block} {es chosen left : List Block} {i : ℕ} {places : List ℕ}
      → Picks es (i + 1) chosen places left
      → Picks (e ∷ es) i chosen places (e ∷ left)

-- Every entry is picked or stays.
pub Picks-mem :
    {es chosen left : List Block} {i : ℕ} {places : List ℕ} {x : Block}
    → Picks es i chosen places left
    → Memᴰ x es
    → Memᴰ x chosen ⊎ Memᴰ x left
Picks-mem stop m = inr m
Picks-mem (take p) (Memᴰ.head e) = inl (Memᴰ.head e)
Picks-mem (take p) (Memᴰ.tail m) = elim (Picks-mem p m) [
  | inl k ↦ inl (Memᴰ.tail k)
  | inr k ↦ inr k
]
Picks-mem (pass p) (Memᴰ.head e) = inr (Memᴰ.head e)
Picks-mem (pass p) (Memᴰ.tail m) = elim (Picks-mem p m) [
  | inl k ↦ inl k
  | inr k ↦ inr (Memᴰ.tail k)
]

pub mem-Picks :
    {es chosen left : List Block} {i : ℕ} {places : List ℕ} {x : Block}
    → Picks es i chosen places left
    → Memᴰ x chosen ⊎ Memᴰ x left
    → Memᴰ x es
mem-Picks stop (inl m) = elim m [ ]
mem-Picks stop (inr m) = m
mem-Picks (take p) (inl (Memᴰ.head e)) = Memᴰ.head e
mem-Picks (take p) (inl (Memᴰ.tail m)) = Memᴰ.tail (mem-Picks p (inl m))
mem-Picks (take p) (inr m) = Memᴰ.tail (mem-Picks p (inr m))
mem-Picks (pass p) (inl m) = Memᴰ.tail (mem-Picks p (inl m))
mem-Picks (pass p) (inr (Memᴰ.head e)) = Memᴰ.head e
mem-Picks (pass p) (inr (Memᴰ.tail m)) = Memᴰ.tail (mem-Picks p (inr m))

Picks-places :
    {es chosen left : List Block} {i : ℕ} {places : List ℕ}
    → Picks es i chosen places left
    → (k : ℕ) → k ≤ i
    → All (λ j. k ≤ j) places
Picks-places stop k h = tt
Picks-places (take p) k h = (h, Picks-places p k (omega arith))
Picks-places (pass p) k h = Picks-places p k (omega arith)

insert_desc-All :
    (k i : ℕ) (js : List ℕ) → k ≤ i → All (λ j. k ≤ j) js → All (λ j. k ≤ j) (insert_desc i js)
unfolding insert_desc
insert_desc-All k i [] h a = (h, tt)
insert_desc-All k i (j ∷ js) h a = elim (Bool-cases (ltb j i)) [
  | inl e ↦ rw (e, insert_desc) (h, a)
  | inr e ↦ rw (e, insert_desc) (a.0, insert_desc-All k i js h a.1)
]

sort_desc-All : (k : ℕ) (js : List ℕ) → All (λ j. k ≤ j) js → All (λ j. k ≤ j) (sort_desc js)
unfolding sort_desc
sort_desc-All k [] a = tt
sort_desc-All k (j ∷ js) a = insert_desc-All k j (sort_desc js) a.0 (sort_desc-All k js a.1)

insert_desc_least :
    (i : ℕ) (js : List ℕ) → All (λ j. suc i ≤ j) js → insert_desc i js ≡ js ++ i ∷ []
unfolding insert_desc
insert_desc_least i [] a = refl
insert_desc_least i (j ∷ js) a =
    rw (le→ltb_false j i (omega arith)) (ap (◌∷◌ j) (insert_desc_least i js a.1))

erase_each-append :
    (xs : List Block) (is : List ℕ) (i : ℕ)
    → erase_each xs (is ++ i ∷ []) ≡ erase_at (erase_each xs is) i
unfolding erase_each
erase_each-append xs [] i = refl
erase_each-append xs (j ∷ is) i = erase_each-append (erase_at xs j) is i

erase_at-middle : (xs ys : List Block) (y : Block) → erase_at (xs ++ y ∷ ys) (length xs) ≡ xs ++ ys
unfolding erase_at
erase_at-middle [] ys y = refl
erase_at-middle (x ∷ xs) ys y = ap (◌∷◌ x) (erase_at-middle xs ys y)

shifted :
    (before es : List Block) (e : Block) (left : List Block) (js : List ℕ)
    → erase_each ((before ++ e ∷ []) ++ es) js ≡ (before ++ e ∷ []) ++ left
    → erase_each (before ++ e ∷ es) js ≡ before ++ e ∷ left
shifted before es e left js h =
    ap (λ (l : List Block). erase_each l js) (sym (append_assoc before (e ∷ []) es))
    ∙ h
    ∙ append_assoc before (e ∷ []) left

erase_from :
    {es chosen left : List Block} {i : ℕ} {places : List ℕ}
    → Picks es i chosen places left
    → (before : List Block) → length before ≡ i
    → erase_each (before ++ es) (sort_desc places) ≡ before ++ left
unfolding sort_desc erase_each
erase_from stop before size = refl
erase_from (take {e} {es} {left} {i} {places} p) before size =
    let least = sort_desc-All (suc i) places (Picks-places p (suc i) (omega arith)) in
    let inner = erase_from p (before ++ e ∷ []) (length-append before (e ∷ []) ∙ omega arith) in
    ap (erase_each (before ++ e ∷ es)) (insert_desc_least i (sort_desc places) least)
    ∙ erase_each-append (before ++ e ∷ es) (sort_desc places) i
    ∙ ap (λ (l : List Block). erase_at l i) (shifted before es e left (sort_desc places) inner)
    ∙ ap (erase_at (before ++ e ∷ left)) (sym size)
    ∙ erase_at-middle before left e
erase_from (pass {e} {es} {left} {places} p) before size =
    shifted before es e left (sort_desc places)
      (erase_from p (before ++ e ∷ []) (length-append before (e ∷ []) ∙ omega arith))

-- To sort the places of the picked entries in falling order and to erase one after another leaves
-- exactly the entries that were not picked, in their order.
pub erase_each-Picks :
    {es chosen left : List Block} {places : List ℕ}
    → Picks es 0 chosen places left
    → erase_each es (sort_desc places) ≡ left
erase_each-Picks p = erase_from p [] refl

-- A block that may lie in the bucket: the position map sends it to a leaf below.
abbrev pub Fits : Config → PositionMap → (level leaf : ℕ) → Block → Type 0
Fits c positions level leaf x =
    (entry_leaf : ℕ) × (leaf_of positions x.0 ≡ some entry_leaf)
    × (can_include c.height entry_leaf leaf level ≡ true)

-- The outcome of the loop: blocks that fit, and no more than there is room for.
pub record PickResult (c : Config) (positions : PositionMap) (level leaf count i : ℕ)
    (es : List Block) : Type 0 where
  pub chosen : List Block
  pub places : List ℕ
  pub left : List Block
  pub returns : pick_from c positions level leaf count i es ≡ ok (chosen, places)
  pub picks : Picks es i chosen places left
  pub room : count + length chosen ≤ c.z
  pub fit : All (Fits c positions level leaf) chosen
  -- What fits stays only if there is no room.
  pub greedy :
      (x : Block) → Memᴰ x left → Fits c positions level leaf x → count + length chosen ≡ c.z

module _ (c : Config) (positions : PositionMap) (level leaf : ℕ)
    (valid : Laws.IsValid positions) where
  unfit :
      (e : Block) (entry_leaf : ℕ)
      → leaf_of positions e.0 ≡ some entry_leaf
      → can_include c.height entry_leaf leaf level ≡ false
      → (x : Block) → x ≡ e
      → ¬ Fits c positions level leaf x
  unfit e entry_leaf at off x same (other, at', fits) =
      let one : entry_leaf ≡ other =
        some_path (sym at ∙ ap (λ (b : Block). leaf_of positions b.0) (sym same) ∙ at') in
      true≢false (sym fits ∙ ap (λ (t : ℕ). can_include c.height t leaf level) (sym one) ∙ off)

  -- From `count` blocks below `Z` on, the search through the local stash does not throw; it picks
  -- entries that fit the bucket, notes their places, and stays within `Z`, and leaves an entry that
  -- fits only if there is no more room, if the entries are below the capacity of the position map.
  pub pick_from_ok :
      (count i : ℕ) (es : List Block)
      → count < c.z
      → All (λ e. e.0 < positions.capacity) es
      → PickResult c positions level leaf count i es
  unfolding pick_from
  pick_from_ok count i [] room known = record {
    chosen = [];
    places = [];
    left = [];
    returns = refl;
    picks = stop;
    room = omega arith;
    fit = tt;
    greedy = λ x m. elim m [ ];
  }
  pick_from_ok count i (e ∷ es) room known =
      let (entry_leaf, at, got) = Laws.get_ok positions e.0 valid known.0 in
      elim (Bool-cases (can_include c.height entry_leaf leaf level)) [
        | inl fits ↦ elim (lt-cases (count + 1) c.z) [
          | inl more ↦
              let r = pick_from_ok (count + 1) (i + 1) es more known.1 in
              record {
                chosen = e ∷ r.chosen;
                places = i ∷ r.places;
                left = r.left;
                returns =
                    rw
                      (
                        got,
                        fits,
                        ne→==_false (count + 1) c.z (λ q. absurd (omega arith)),
                        r.returns,
                      )
                      refl;
                picks = take r.picks;
                room = omega (arith, r.room);
                fit = ((entry_leaf, at, fits), r.fit);
                greedy = λ x m f. omega (arith, r.greedy x m f);
              }
          | inr full ↦ record {
            chosen = e ∷ [];
            places = i ∷ [];
            left = es;
            returns = rw (got, fits, (==_iff (count + 1) c.z).1 (omega arith)) refl;
            picks = take stop;
            room = omega arith;
            fit = ((entry_leaf, at, fits), tt);
            greedy = λ x m f. omega arith;
          }
        ]
        | inr off ↦
            let r = pick_from_ok count (i + 1) es room known.1 in
            let misfit = unfit e entry_leaf at off in
            record {
              chosen = r.chosen;
              places = r.places;
              left = e ∷ r.left;
              returns = rw (got, off) r.returns;
              picks = pass r.picks;
              room = r.room;
              fit = r.fit;
              greedy = λ x m f. elim (Memᴰ.cases_cons m) [
                | inl here ↦ absurd (misfit x here f)
                | inr there ↦ r.greedy x there f
              ];
            }
      ]
