-- ===== src/Ledger/Availability/Partition.antt =====
-- The groups of a space's ledger: one for each due, and one for no due.
use duevy_be.Base.{
  ℕ, ◌+◌, ◌*◌, ◌≡◌, refl, ap, true, false, ◌&&◌, ◌==◌, if◌then◌else◌, Option, none, some, List, [],
  ◌∷◌, All, sum_by, sum_by_add, ◌⊎◌, Option-cases, Bool-cases, inl, inr, arith,
}
use mathlib.Core.Path.{subst}
use duevy_be.Store.{Due, LedgerEntry}
use duevy_be.Ledger.{Ledger, same_group}

-- An entry's due, if it names one, is exactly one of the space's dues.
abbrev pub Covers : List Due → Option ℕ → Type 0
Covers dues none = Unit
Covers dues (some k) = sum_by (λ d. if d.id == k then 1 else 0) dues ≡ 1

module _ (space : ℕ) (m : LedgerEntry → ℕ) where
  abbrev pub in_group : Option ℕ → LedgerEntry → ℕ
  in_group due e = if e.space_id == space && same_group due e.due_id then m e else 0

  in_group_hit :
      (e : LedgerEntry) (k j : ℕ)
      → (e.space_id == space) ≡ true
      → e.due_id ≡ some k
      → in_group (some j) e ≡ m e * (if j == k then 1 else 0)
  in_group_hit e k j s h = elim (Bool-cases (j == k)) [
    | inl t ↦ simp (s, h, t) (omega arith)
    | inr t ↦ simp (s, h, t) (omega arith)
  ]

  hits :
      (e : LedgerEntry) (k : ℕ) (dues : List Due)
      → (e.space_id == space) ≡ true
      → e.due_id ≡ some k
      → sum_by (λ d. in_group (some d.id) e) dues
        ≡ m e * sum_by (λ d. if d.id == k then 1 else 0) dues
  hits e k [] s h = omega arith
  hits e k (d ∷ ds) s h = omega (arith, in_group_hit e k d.id s h, hits e k ds s h)

  -- An entry of another space, or of no due, is in the group of no due of the space.
  misses :
      (e : LedgerEntry) (dues : List Due)
      → ((e.space_id == space) ≡ false) ⊎ (e.due_id ≡ none)
      → sum_by (λ d. in_group (some d.id) e) dues ≡ 0
  misses e [] h = refl
  misses e (d ∷ ds) h = omega (arith, apart d.id h, misses e ds h)
    where
      apart :
          (j : ℕ) → ((e.space_id == space) ≡ false) ⊎ (e.due_id ≡ none) → in_group (some j) e ≡ 0
      apart j (inl s) = simp s
      apart j (inr n) = ground arith

  -- One entry, over all the groups.
  entry_once :
      (e : LedgerEntry) (dues : List Due)
      → ((e.space_id == space) ≡ true → Covers dues e.due_id)
      → sum_by (λ d. in_group (some d.id) e) dues + in_group none e
        ≡ (if e.space_id == space then m e else 0)
  entry_once e dues h = elim (Bool-cases (e.space_id == space)) [
    | inr s ↦
        let none_here : in_group none e ≡ 0 = simp s in
        let out : (if e.space_id == space then m e else 0) ≡ 0 = simp s in
        omega (arith, misses e dues (inl s))
    | inl s ↦
        let here : (if e.space_id == space then m e else 0) ≡ m e = simp s in
        elim (Option-cases e.due_id) [
          | inl n ↦
              let alone : in_group none e ≡ m e = simp (s, n) in
              omega (arith, misses e dues (inr n))
          | inr (k, n) ↦
              let elsewhere : in_group none e ≡ 0 = simp (s, n) in
              let once : sum_by (λ d. if d.id == k then 1 else 0) dues ≡ 1 =
                subst (Covers dues) n (h s) in
              omega (arith, hits e k dues s n, ap (λ (t : ℕ). m e * t) once)
        ]
  ]

-- Over a whole ledger: the groups add up to the space's sum.
module _ (space : ℕ) (m : LedgerEntry → ℕ) where
  pub group_sums :
      (dues : List Due) (l : Ledger)
      → All (λ e. (e.space_id == space) ≡ true → Covers dues e.due_id) l
      → sum_by (λ d. sum_by (in_group space m (some d.id)) l) dues
          + sum_by (in_group space m none) l
        ≡ sum_by (λ e. if e.space_id == space then m e else 0) l
  group_sums dues [] h = omega (arith, all_zero dues)
    where
      all_zero : (ds : List Due) → sum_by (λ _. 0) ds ≡ 0
      all_zero [] = refl
      all_zero (d ∷ ds) = omega (arith, all_zero ds)
  group_sums dues (e ∷ l) h = omega (
    arith,
    sum_by_add (λ d. in_group space m (some d.id) e) (λ d. sum_by (in_group space m (some d.id)) l)
        dues,
    entry_once space m e dues h.0,
    group_sums dues l h.1,
  )
