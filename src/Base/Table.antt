-- ===== src/Base/Table.antt =====
-- A table is the list of its rows. `findUnique` on an id, `update` by id, and what an update leaves
-- alone.
use Prim.Native.Nat.{ℕ}
use mathlib.Core.Path.{◌≡◌, refl}
use mathlib.Core.Option.{Option, none, some}
use mathlib.Core.List.{List, [], ◌∷◌}
use native.Mathlib.Omega.{arith}
use duevy_be.Base.Tests.{◌==◌, if◌then◌else◌, Bool-cases}
use duevy_be.Base.Lists.{All}
use mathlib.Core.Logic.{inl, inr}

abbrev pub map_option {ℓ κ} : {A : Type ℓ} {B : Type κ} → (A → B) → Option A → Option B
map_option f none = none
map_option f (some a) = some (f a)

module _ {A : Type 0} (key : A → ℕ) where
  -- `findUnique({ where: { id } })`
  unfoldable pub find_by : ℕ → List A → Option A
  find_by k [] = none
  find_by k (a ∷ rows) = let rest = find_by k rows in if key a == k then some a else rest

  -- `update({ where: { id }, data })`
  unfoldable pub update_by : ℕ → (A → A) → List A → List A
  update_by k f [] = []
  update_by k f (a ∷ rows) = (if key a == k then f a else a) ∷ update_by k f rows

  -- What is found has the id.
  pub find_by-key : (k : ℕ) (rows : List A) {a : A} → find_by k rows ≡ some a → key a ≡ k
  unfolding find_by
  find_by-key k [] h = cc
  find_by-key k (x ∷ rows) {a} h = ground (arith, find_by-key k rows {a = a})

  -- An update of one row, seen through every other lookup.
  pub find_by-update_by :
      (j k : ℕ) (f : A → A) (rows : List A)
      → ((a : A) → key (f a) ≡ key a)
      → find_by j (update_by k f rows)
        ≡ (if k == j then map_option f (find_by j rows) else find_by j rows)
  unfolding find_by update_by
  find_by-update_by j k f [] h = ground arith
  find_by-update_by j k f (a ∷ rows) h = ground (arith, h a, find_by-update_by j k f rows h)

  pub find_by-cons :
      (j : ℕ) (a : A) (rows : List A)
      → find_by j (a ∷ rows) ≡ (if key a == j then some a else find_by j rows)
  unfolding find_by
  find_by-cons j a rows = refl

  -- An update that keeps a predicate of each row.
  pub All-update_by :
      (P : A → Type 0) (k : ℕ) (f : A → A) (rows : List A)
      → ((a : A) → P a → P (f a))
      → All P rows
      → All P (update_by k f rows)
  unfolding update_by
  All-update_by P k f [] h all = tt
  All-update_by P k f (a ∷ rows) h (p, all) = (
    elim (Bool-cases (key a == k)) [ inl is ↦ rw is (h a p) | inr other ↦ rw other p ],
    All-update_by P k f rows h all,
  )
