-- ===== src/Base/Lists.antt =====
-- Lists measured and summed in native numbers, and a predicate on every element.
use Prim.Native.Nat.{ℕ, zero, suc, ◌+◌, ◌≤◌}
use mathlib.Core.Path.{◌≡◌, refl, ap}
use mathlib.Core.Bool.{Bool, true, false}
use mathlib.Core.List.{List, [], ◌∷◌, ◌++◌, map}
use mathlib.Core.Option.{Option, none, some}
use native.Mathlib.Omega.{arith}
use mathlib.Core.Logic.{◌⊎◌, inl, inr}
use duevy_be.Base.Tests.{◌==◌, if◌then◌else◌, Bool-cases}

module _ {ℓ} {A : Type ℓ} where
  abbrev pub length : List A → ℕ
  length [] = 0
  length (_ ∷ xs) = suc (length xs)

  abbrev pub get_elem? : List A → ℕ → Option A
  get_elem? [] i = none
  get_elem? (x ∷ xs) zero = some x
  get_elem? (x ∷ xs) (suc i) = get_elem? xs i

  abbrev pub take : ℕ → List A → List A
  take zero xs = []
  take (suc n) [] = []
  take (suc n) (x ∷ xs) = x ∷ take n xs

  -- The elements that pass a test, in order.
  abbrev pub keep : (A → Bool) → List A → List A
  keep p [] = []
  keep p (x ∷ xs) = let rest = keep p xs in if p x then x ∷ rest else rest

  -- The first element that passes a test.
  abbrev pub find? : (A → Bool) → List A → Option A
  find? p [] = none
  find? p (x ∷ xs) = let rest = find? p xs in if p x then some x else rest

  abbrev pub sum_by : (A → ℕ) → List A → ℕ
  sum_by f [] = 0
  sum_by f (x ∷ xs) = f x + sum_by f xs

  abbrev pub All {κ} : (A → Type κ) → List A → Type κ
  All P [] = Unit
  All P (x ∷ xs) = P x × All P xs

  -- A predicate on one element at least.
  abbrev pub Any : (A → Type 0) → List A → Type 0
  Any P [] = ⊥
  Any P (x ∷ xs) = P x ⊎ Any P xs

module _ {ℓ} {A : Type ℓ} where
  pub length-append : (xs ys : List A) → length (xs ++ ys) ≡ length xs + length ys
  length-append [] ys = omega arith
  length-append (_ ∷ xs) ys = omega (arith, length-append xs ys)

  pub length-map {κ} : {B : Type κ} (f : A → B) (xs : List A) → length (map f xs) ≡ length xs
  length-map f [] = refl
  length-map f (_ ∷ xs) = ap suc (length-map f xs)

  pub sum_by-append : (f : A → ℕ) (xs ys : List A) → sum_by f (xs ++ ys) ≡ sum_by f xs + sum_by f ys
  sum_by-append f [] ys = omega arith
  sum_by-append f (x ∷ xs) ys = omega (arith, sum_by-append f xs ys)

  pub sum_by-map {κ} :
      {B : Type κ} (f : B → ℕ) (g : A → B) (xs : List A)
      → sum_by f (map g xs) ≡ sum_by (λ x. f (g x)) xs
  sum_by-map f g [] = refl
  sum_by-map f g (x ∷ xs) = omega (arith, sum_by-map f g xs)

  pub sum_by_congr : (f g : A → ℕ) (xs : List A) → ((x : A) → f x ≡ g x) → sum_by f xs ≡ sum_by g xs
  sum_by_congr f g [] h = refl
  sum_by_congr f g (x ∷ xs) h = omega (arith, h x, sum_by_congr f g xs h)

  pub sum_by_add :
      (f g : A → ℕ) (xs : List A) → sum_by (λ x. f x + g x) xs ≡ sum_by f xs + sum_by g xs
  sum_by_add f g [] = refl
  sum_by_add f g (x ∷ xs) = omega (arith, sum_by_add f g xs)

  pub length-take_le : (n : ℕ) (xs : List A) → length (take n xs) ≤ n
  length-take_le zero xs = omega arith
  length-take_le (suc n) [] = omega arith
  length-take_le (suc n) (x ∷ xs) = omega (arith, length-take_le n xs)

abbrev pub sum : List ℕ → ℕ
sum [] = 0
sum (x ∷ xs) = x + sum xs

-- `Array.includes` on ids.
abbrev pub mem? : ℕ → List ℕ → Bool
mem? k [] = false
mem? k (x ∷ xs) = let rest = mem? k xs in if k == x then true else rest

-- A predicate on every element of a mapped list.
pub All-map {ℓ κ} :
    {A : Type ℓ} {B : Type κ} (P : A → Type 0) (Q : B → Type 0) (f : A → B) (xs : List A)
    → ((x : A) → P x → Q (f x))
    → All P xs
    → All Q (map f xs)
All-map P Q f [] h all = tt
All-map P Q f (x ∷ xs) h (p, all) = (h x p, All-map P Q f xs h all)

pub All-implies {ℓ} :
    {A : Type ℓ} (P Q : A → Type 0) (xs : List A) → ((x : A) → P x → Q x) → All P xs → All Q xs
All-implies P Q [] h all = tt
All-implies P Q (x ∷ xs) h (p, all) = (h x p, All-implies P Q xs h all)

pub All-keep {ℓ} :
    {A : Type ℓ} (P Q : A → Type 0) (p : A → Bool) (xs : List A)
    → ((x : A) → p x ≡ true → P x → Q x)
    → All P xs
    → All Q (keep p xs)
All-keep P Q p [] h all = tt
All-keep P Q p (x ∷ xs) h (q, all) = elim (Bool-cases (p x)) [
  | inl kept ↦ rw kept (h x kept q, All-keep P Q p xs h all)
  | inr dropped ↦ rw dropped (All-keep P Q p xs h all)
]

pub All-take {ℓ} :
    {A : Type ℓ} (P : A → Type 0) (n : ℕ) (xs : List A) → All P xs → All P (take n xs)
All-take P zero xs all = tt
All-take P (suc n) [] all = tt
All-take P (suc n) (x ∷ xs) (p, all) = (p, All-take P n xs all)

-- What is found passes the test.
pub find?-holds {ℓ} :
    {A : Type ℓ} (p : A → Bool) (xs : List A) {a : A} → find? p xs ≡ some a → p a ≡ true
find?-holds p [] h = cc
find?-holds p (x ∷ xs) {a} h = ground (arith, find?-holds p xs {a = a})

-- A search fails on every element, or an element passes.
pub find?-cases :
    {A : Type 0} (p : A → Bool) (xs : List A)
    → ((find? p xs ≡ none) × All (λ x. p x ≡ false) xs)
      ⊎ ((a : A) × (find? p xs ≡ some a) × Any (λ x. p x ≡ true) xs)
find?-cases p [] = inl (refl, tt)
find?-cases p (x ∷ xs) = elim (Bool-cases (p x)) [
  | inl here ↦ inr (x, ground arith, inl here)
  | inr other ↦ elim (find?-cases p xs) [
    | inl (gone, all) ↦ inl (ground arith, (other, all))
    | inr (a, there, any) ↦ inr (a, ground arith, inr any)
  ]
]

pub Any-implies {ℓ} :
    {A : Type ℓ} (P Q : A → Type 0) (xs : List A) → ((x : A) → P x → Q x) → Any P xs → Any Q xs
Any-implies P Q [] h any = any
Any-implies P Q (x ∷ xs) h (inl p) = inl (h x p)
Any-implies P Q (x ∷ xs) h (inr any) = inr (Any-implies P Q xs h any)
