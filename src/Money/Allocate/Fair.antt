-- ===== src/Money/Allocate/Fair.antt =====
-- `allocate` of src/lib/money.ts: each share beside its exact proportion.
use duevy_be.Base.{
  ℕ, zero, suc, ◌+◌, ◌-◌, ◌*◌, ◌/◌, ◌≤◌, ◌<◌, ◌≡◌, ◌≢◌, refl, ◌==◌, if◌then◌else◌, some, List, [],
  ◌∷◌, sum, get_elem?, sum_by, arith,
}
use duevy_be.Base.Results.{ok}
use duevy_be.Money.{max_safe_integer}
use duevy_be.Money.Allocate.{
  Remainder, floor_shares, remainders_from, insert_sorted, sort_remainders, bump, hand_out,
  allocate, allocate_lem, largest_remainder,
}

-- `parts[j]`, 0 past the end.
abbrev pub share_at : ℕ → List ℕ → ℕ
share_at j [] = 0
share_at zero (p ∷ ps) = p
share_at (suc j) (p ∷ ps) = share_at j ps

-- How often index j stands among the remainders.
abbrev one_at : ℕ → Remainder → ℕ
one_at j r = if r.index == j then 1 else 0

abbrev occurs : ℕ → List Remainder → ℕ
occurs j rs = sum_by (one_at j) rs

share_at-bump :
    (i j : ℕ) (ps : List ℕ)
    → (share_at j ps ≤ share_at j (bump i ps))
      × (share_at j (bump i ps) ≤ share_at j ps + (if i == j then 1 else 0))
unfolding bump
share_at-bump i j [] = ground arith
share_at-bump zero zero (p ∷ ps) = ground arith
share_at-bump zero (suc j) (p ∷ ps) = ground arith
share_at-bump (suc i) zero (p ∷ ps) = ground arith
share_at-bump (suc i) (suc j) (p ∷ ps) = ground (arith, share_at-bump i j ps)

share_at-hand_out :
    (j : ℕ) (rs : List Remainder) (left : ℕ) (ps : List ℕ)
    → (share_at j ps ≤ share_at j (hand_out rs left ps))
      × (share_at j (hand_out rs left ps) ≤ share_at j ps + occurs j rs)
unfolding hand_out
share_at-hand_out j [] left ps = omega arith
share_at-hand_out j (r ∷ rs) zero ps = omega arith
share_at-hand_out j (r ∷ rs) (suc left) ps =
    omega (arith, share_at-hand_out j rs left (bump r.index ps), share_at-bump r.index j ps)

occurs-insert_sorted :
    (j : ℕ) (a : Remainder) (rs : List Remainder)
    → occurs j (insert_sorted a rs) ≡ one_at j a + occurs j rs
unfolding insert_sorted
occurs-insert_sorted j a [] = refl
occurs-insert_sorted j a (b ∷ bs) = ground (arith, occurs-insert_sorted j a bs)

occurs-sort_remainders : (j : ℕ) (rs : List Remainder) → occurs j (sort_remainders rs) ≡ occurs j rs
unfolding sort_remainders
occurs-sort_remainders j [] = refl
occurs-sort_remainders j (a ∷ rs) =
    omega (arith, occurs-insert_sorted j a (sort_remainders rs), occurs-sort_remainders j rs)

-- Each index stands once in what is sorted: not before its turn, and not after.
occurs-remainders_from :
    (total s i j : ℕ) (ws : List ℕ)
    → (occurs j (remainders_from total s i ws) ≤ 1)
      × (j < i → occurs j (remainders_from total s i ws) ≡ 0)
unfolding remainders_from
occurs-remainders_from total s i j [] = ground arith
occurs-remainders_from total s i j (w ∷ ws) =
    ground (arith, occurs-remainders_from total s (i + 1) j ws)

share_at-floor_shares :
    (total s j : ℕ) {w : ℕ} (ws : List ℕ)
    → get_elem? ws j ≡ some w
    → share_at j (floor_shares total s ws) ≡ total * w / s
unfolding floor_shares
share_at-floor_shares total s j [] h = cc
share_at-floor_shares total s zero (x ∷ ws) h = ground arith
share_at-floor_shares total s (suc j) (x ∷ ws) h = share_at-floor_shares total s j ws h

near_exact : (s x p : ℕ) → 0 < s → x / s ≤ p → p ≤ x / s + 1 → (x < s * p + s) × (s * p ≤ x + s)
near_exact s x p h lo hi = grind arith

allocate-total :
    (total : ℕ) (ws : List ℕ) {ps : List ℕ} → allocate total ws ≡ ok ps → total ≤ max_safe_integer
unfolding allocate
allocate-total total ws h = ground arith

-- With weights that are not all 0 and whose sum is a safe integer, the share p of a weight w is less than a kobo below its exact
-- proportion total · w / Σ weights, and at most a kobo above it.
pub allocate_proportional :
    (total j : ℕ) {w : ℕ} (ws : List ℕ) {ps : List ℕ}
    → sum ws ≤ max_safe_integer
    → allocate total ws ≡ ok ps
    → sum ws ≢ 0
    → get_elem? ws j ≡ some w
    → (total * w < sum ws * share_at j ps + sum ws) × (sum ws * share_at j ps ≤ total * w + sum ws)
unfolding largest_remainder
allocate_proportional total j {w} ws {ps} fits h ne at =
    let s = sum ws in
    let rs = remainders_from total s 0 ws in
    let parts = floor_shares total s ws in
    let left = total - sum parts in
    let e : ps ≡ hand_out (sort_remainders rs) left parts =
      ground (arith, allocate_lem total ws (allocate-total total ws {ps = ps} h) fits) in
    let (lo, hi) = share_at-hand_out j (sort_remainders rs) left parts in
    near_exact s (total * w) (share_at j ps) (omega arith)
      (rw e (omega (arith, lo, share_at-floor_shares total s j ws at)))
      (rw e (
        omega (
          arith,
          hi,
          share_at-floor_shares total s j ws at,
          occurs-sort_remainders j rs,
          (occurs-remainders_from total s 0 j ws).0,
        )))
