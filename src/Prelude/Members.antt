-- ===== src/Prelude/Members.antt =====
-- Membership and predicates over lists. `Memᴰ` is the library's membership with its witness kept.
use Prim.Native.Nat.{ℕ, zero, suc}
use mathlib.Core.Path.{◌≡◌, refl, ap, ◌∙◌, subst, sym}
use mathlib.Core.List.{List, [], ◌∷◌, ◌++◌, flat_map}
use mathlib.Core.List.Memᴰ
use mathlib.Core.Logic.{inl, inr}
pub use mathlib.Core.List.{Memᴰ, Permᴰ}
use path_oram.Prelude.Lists.{replicate, length}

-- Every element satisfies the predicate.
abbrev pub All {ℓ κ} : {A : Type ℓ} → (A → Type κ) → List A → Type κ
All P [] = Unit
All P (x ∷ xs) = P x × All P xs

module _ {ℓ κ} {A : Type ℓ} (P : A → Type κ) where
  pub All-append : (xs ys : List A) → All P xs → All P ys → All P (xs ++ ys)
  All-append [] ys hx hy = hy
  All-append (x ∷ xs) ys hx hy = (hx.0, All-append xs ys hx.1 hy)

  pub All-append_left : (xs ys : List A) → All P (xs ++ ys) → All P xs
  All-append_left [] ys h = tt
  All-append_left (x ∷ xs) ys h = (h.0, All-append_left xs ys h.1)

  pub All-append_right : (xs ys : List A) → All P (xs ++ ys) → All P ys
  All-append_right [] ys h = h
  All-append_right (x ∷ xs) ys h = All-append_right xs ys h.1

  pub All-of_mem : (xs : List A) → ((a : A) → Memᴰ a xs → P a) → All P xs
  All-of_mem [] f = tt
  All-of_mem (x ∷ xs) f = (f x (Memᴰ.head refl), All-of_mem xs (λ a m. f a (Memᴰ.tail m)))

  pub mem-All : {a : A} (xs : List A) → All P xs → Memᴰ a xs → P a
  mem-All [] h m = elim m [ ]
  mem-All (x ∷ xs) h (Memᴰ.head e) = subst P (sym e) h.0
  mem-All (x ∷ xs) h (Memᴰ.tail m) = mem-All xs h.1 m

  pub All-mono {μ} : {Q : A → Type μ} (xs : List A) → ((a : A) → P a → Q a) → All P xs → All Q xs
  All-mono [] f h = tt
  All-mono (x ∷ xs) f h = (f x h.0, All-mono xs f h.1)

  pub All-replicate : (n : ℕ) {a : A} → P a → All P (replicate n a)
  All-replicate zero p = tt
  All-replicate (suc n) p = (p, All-replicate n p)

module _ {ℓ} {A : Type ℓ} {a : A} where
  pub mem-perm : {xs ys : List A} → Permᴰ xs ys → Memᴰ a xs → Memᴰ a ys
  mem-perm Permᴰ.nil m = m
  mem-perm (Permᴰ.cons e p) (Memᴰ.head h) = Memᴰ.head (subst (λ z. a ≡ z) e h)
  mem-perm (Permᴰ.cons e p) (Memᴰ.tail m) = Memᴰ.tail (mem-perm p m)
  mem-perm (Permᴰ.swap e f) (Memᴰ.head h) = Memᴰ.tail (Memᴰ.head (subst (λ z. a ≡ z) e h))
  mem-perm (Permᴰ.swap e f) (Memᴰ.tail (Memᴰ.head h)) = Memᴰ.head (subst (λ z. a ≡ z) f h)
  mem-perm (Permᴰ.swap e f) (Memᴰ.tail (Memᴰ.tail m)) = Memᴰ.tail (Memᴰ.tail m)
  mem-perm (Permᴰ.trans p q) m = mem-perm q (mem-perm p m)

pub mem-replicate {ℓ} : {A : Type ℓ} (n : ℕ) (a : A) {x : A} → Memᴰ x (replicate n a) → x ≡ a
mem-replicate zero a m = elim m [ ]
mem-replicate (suc n) a (Memᴰ.head at) = at
mem-replicate (suc n) a (Memᴰ.tail at) = mem-replicate n a at

pub length-perm {ℓ} : {A : Type ℓ} {xs ys : List A} → Permᴰ xs ys → length xs ≡ length ys
length-perm Permᴰ.nil = refl
length-perm (Permᴰ.cons e p) = ap suc (length-perm p)
length-perm (Permᴰ.swap e f) = refl
length-perm (Permᴰ.trans p q) = length-perm p ∙ length-perm q

module _ {ℓ κ} {A : Type ℓ} {B : Type κ} where
  pub mem-flat_map_of :
      (f : A → List B) {a : A} {b : B} (xs : List A)
      → Memᴰ a xs
      → Memᴰ b (f a)
      → Memᴰ b (flat_map f xs)
  unfolding flat_map
  mem-flat_map_of f {b} (x ∷ xs) (Memᴰ.head e) m =
      Memᴰ.append_left (flat_map f xs) (subst (λ (y : A). Memᴰ b (f y)) e m)
  mem-flat_map_of f (x ∷ xs) (Memᴰ.tail h) m = Memᴰ.append_right (f x) (mem-flat_map_of f xs h m)
  mem-flat_map_of f [] h m = elim h [ ]

  pub mem-flat_map :
      (f : A → List B) {b : B} (xs : List A)
      → Memᴰ b (flat_map f xs)
      → (a : A) × Memᴰ a xs × Memᴰ b (f a)
  unfolding flat_map
  mem-flat_map f [] m = elim m [ ]
  mem-flat_map f (x ∷ xs) m = elim (Memᴰ.append_cases (f x) m) [
    | inl h ↦ (x, Memᴰ.head refl, h)
    | inr h ↦ let (a, at, r) = mem-flat_map f xs h in (a, Memᴰ.tail at, r)
  ]
