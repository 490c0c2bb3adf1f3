-- ===== src/Money/Allocate/Shares.antt =====
-- `allocate` of src/lib/money.ts: the sum and the number of the shares.
use duevy_be.Base.{
  ℕ, zero, suc, ◌+◌, ◌-◌, ◌*◌, ◌/◌, ◌≤◌, ◌<◌, ◌≡◌, ◌≢◌, refl, sym, ◌∙◌, ap, inl, inr, Bool-cases,
  ◌==◌, List, [], ◌∷◌, map, length, sum, All, length-map, arith,
}
use duevy_be.Base.Results.{ok}
use duevy_be.Money.{max_safe_integer}
use duevy_be.Money.Allocate.{
  Remainder, floor_shares, remainders_from, sorts_before, insert_sorted, sort_remainders, bump,
  hand_out, even_shares, largest_remainder, allocate, allocate_lem, add_first,
}

length-bump : (i : ℕ) (ps : List ℕ) → length (bump i ps) ≡ length ps
unfolding bump
length-bump i [] = refl
length-bump zero (p ∷ ps) = refl
length-bump (suc i) (p ∷ ps) = ap suc (length-bump i ps)

sum-bump : (i : ℕ) (ps : List ℕ) → i < length ps → sum (bump i ps) ≡ sum ps + 1
unfolding bump
sum-bump i [] h = absurd (omega arith)
sum-bump zero (p ∷ ps) h = omega arith
sum-bump (suc i) (p ∷ ps) h = omega (arith, sum-bump i ps (omega arith))

length-hand_out :
    (rs : List Remainder) (left : ℕ) (ps : List ℕ) → length (hand_out rs left ps) ≡ length ps
unfolding hand_out
length-hand_out [] left ps = refl
length-hand_out (r ∷ rs) zero ps = refl
length-hand_out (r ∷ rs) (suc left) ps =
    omega (arith, length-hand_out rs left (bump r.index ps), length-bump r.index ps)

abbrev InRange : ℕ → List Remainder → Type 0
InRange n = All (λ r. r.index < n)

sum-hand_out :
    (rs : List Remainder) (left : ℕ) (ps : List ℕ)
    → InRange (length ps) rs
    → left ≤ length rs
    → sum (hand_out rs left ps) ≡ sum ps + left
unfolding hand_out
sum-hand_out [] left ps h le = omega arith
sum-hand_out (r ∷ rs) zero ps h le = omega arith
sum-hand_out (r ∷ rs) (suc left) ps h le = omega (
  arith,
  sum-hand_out rs left (bump r.index ps) (rw (length-bump r.index ps) h.1) (omega arith),
  sum-bump r.index ps h.0,
)

insert_sorted-All :
    (P : Remainder → Type 0) (a : Remainder) (rs : List Remainder)
    → P a
    → All P rs
    → All P (insert_sorted a rs)
unfolding insert_sorted
insert_sorted-All P a [] p h = (p, tt)
insert_sorted-All P a (b ∷ bs) p h = elim (Bool-cases (sorts_before a b)) [
  | inl e ↦ rw e (p, h)
  | inr e ↦ rw e (h.0, insert_sorted-All P a bs p h.1)
]

sort_remainders-All :
    (P : Remainder → Type 0) (rs : List Remainder) → All P rs → All P (sort_remainders rs)
unfolding sort_remainders
sort_remainders-All P [] h = tt
sort_remainders-All P (a ∷ rs) h =
    insert_sorted-All P a (sort_remainders rs) h.0 (sort_remainders-All P rs h.1)

length-insert_sorted :
    (a : Remainder) (rs : List Remainder) → length (insert_sorted a rs) ≡ suc (length rs)
unfolding insert_sorted
length-insert_sorted a [] = refl
length-insert_sorted a (b ∷ bs) = ground (arith, length-insert_sorted a bs)

length-sort_remainders : (rs : List Remainder) → length (sort_remainders rs) ≡ length rs
unfolding sort_remainders
length-sort_remainders [] = refl
length-sort_remainders (a ∷ rs) =
    omega (arith, length-insert_sorted a (sort_remainders rs), length-sort_remainders rs)

cancel_mul : (s a b : ℕ) → 0 < s → s * a ≤ s * b → a ≤ b
cancel_mul s a b h le = grind arith

module _ (total s : ℕ) where
  length-remainders_from : (i : ℕ) (ws : List ℕ) → length (remainders_from total s i ws) ≡ length ws
  unfolding remainders_from
  length-remainders_from i [] = refl
  length-remainders_from i (w ∷ ws) = ap suc (length-remainders_from (i + 1) ws)

  remainders_from-InRange :
      (i n : ℕ) (ws : List ℕ) → i + length ws ≤ n → InRange n (remainders_from total s i ws)
  unfolding remainders_from
  remainders_from-InRange i n [] h = tt
  remainders_from-InRange i n (w ∷ ws) h =
      (omega arith, remainders_from-InRange (i + 1) n ws (omega arith))

  length-floor_shares : (ws : List ℕ) → length (floor_shares total s ws) ≡ length ws
  unfolding floor_shares
  length-floor_shares [] = refl
  length-floor_shares (w ∷ ws) = ap suc (length-floor_shares ws)

  div_bounds : (x : ℕ) → 0 < s → (s * (x / s) ≤ x) × (x + 1 ≤ s * (x / s) + s)
  div_bounds x h = grind arith

  -- What the divisions drop is less than one divisor for each weight.
  floor_shares-bounds :
      (ws : List ℕ)
      → 0 < s
      → (s * sum (floor_shares total s ws) ≤ total * sum ws)
        × (total * sum ws + length ws ≤ s * sum (floor_shares total s ws) + s * length ws)
  unfolding floor_shares
  floor_shares-bounds [] h = (omega arith, omega arith)
  floor_shares-bounds (w ∷ ws) h = (
    omega (arith, div_bounds (total * w) h, floor_shares-bounds ws h),
    omega (arith, div_bounds (total * w) h, floor_shares-bounds ws h),
  )

  -- So what is left to hand out is one unit at most for each weight.
  left_bounds :
      (ws : List ℕ)
      → 0 < s
      → s ≡ sum ws
      → (sum (floor_shares total s ws) ≤ total)
        × (total - sum (floor_shares total s ws) ≤ length ws)
  left_bounds ws h e =
      let q = sum (floor_shares total s ws) in
      let t : total * sum ws ≡ total * s = ap (λ (k : ℕ). total * k) (sym e) in
      let (lo, hi) = floor_shares-bounds ws h in
      (
        cancel_mul s q total h (omega arith),
        omega (arith, cancel_mul s total (q + length ws) h (omega arith)),
      )

-- The shares of `largest_remainder` add up to the total.
largest_remainder-sum :
    (total s : ℕ) (ws : List ℕ) → 0 < s → s ≡ sum ws → sum (largest_remainder total s ws) ≡ total
unfolding largest_remainder
largest_remainder-sum total s ws h e =
    let ps = floor_shares total s ws in
    let rs = remainders_from total s 0 ws in
    let (le, few) = left_bounds total s ws h e in
    omega (
      arith,
      sum-hand_out (sort_remainders rs) (total - sum ps) ps
          (sort_remainders-All (λ r. r.index < length ps) rs
            (remainders_from-InRange total s 0 (length ps) ws
              (omega (arith, length-floor_shares total s ws))))
          (omega (arith, length-sort_remainders rs, length-remainders_from total s 0 ws)),
    )

sum-even : (each : ℕ) (ws : List ℕ) → sum (map (λ (_ : ℕ). each) ws) ≡ length ws * each
sum-even each [] = omega arith
sum-even each (w ∷ ws) = omega (arith, sum-even each ws)

sum-add_first :
    (extra : ℕ) (ps : List ℕ) → 0 < length ps → sum (add_first extra ps) ≡ sum ps + extra
unfolding add_first
sum-add_first extra [] h = absurd (omega arith)
sum-add_first extra (p ∷ ps) h = omega arith

length-add_first : (extra : ℕ) (ps : List ℕ) → length (add_first extra ps) ≡ length ps
unfolding add_first
length-add_first extra [] = refl
length-add_first extra (p ∷ ps) = refl

div_share : (n total : ℕ) → 0 < n → n * (total / n) ≤ total
div_share n total h = grind arith

even_shares-sum :
    (total : ℕ) (ws : List ℕ)
    → 0 < length ws
    → (sum (even_shares total ws) ≡ total) × (length (even_shares total ws) ≡ length ws)
unfolding even_shares
even_shares-sum total ws h =
    let even = map (λ (_ : ℕ). total / length ws) ws in
    let same = length-map (λ (_ : ℕ). total / length ws) ws in
    (
      omega (
        arith,
        sum-add_first (total - sum even) even (omega (arith, same)),
        sum-even (total / length ws) ws,
        div_share (length ws) total h,
      ),
      omega (arith, length-add_first (total - sum even) even, same),
    )

length_pos : (ws : List ℕ) → ws ≢ [] → 0 < length ws
length_pos [] ne = absurd (ne refl)
length_pos (w ∷ ws) ne = omega arith

length-largest_remainder :
    (total s : ℕ) (ws : List ℕ) → length (largest_remainder total s ws) ≡ length ws
unfolding largest_remainder
length-largest_remainder total s ws =
    length-hand_out (sort_remainders (remainders_from total s 0 ws))
      (total - sum (floor_shares total s ws)) (floor_shares total s ws)
    ∙ length-floor_shares total s ws

-- For a total that is a safe integer and weights whose sum is one, `allocate` answers, with one share
-- for each weight, and the shares add up to the total exactly. (On no weights there is nothing to
-- share.)
pub allocate_conserves :
    (total : ℕ) (ws : List ℕ)
    → total ≤ max_safe_integer
    → sum ws ≤ max_safe_integer
    → ws ≢ []
    → (ps : List ℕ) × (allocate total ws ≡ ok ps) × (length ps ≡ length ws) × (sum ps ≡ total)
allocate_conserves total ws h fits ne =
    let is = allocate_lem total ws h fits in
    elim (Bool-cases (sum ws == 0)) [
      | inl e ↦ (
        even_shares total ws,
        ground (arith, is),
        (even_shares-sum total ws (length_pos ws ne)).1,
        (even_shares-sum total ws (length_pos ws ne)).0,
      )
      | inr e ↦ (
        largest_remainder total (sum ws) ws,
        ground (arith, is),
        length-largest_remainder total (sum ws) ws,
        largest_remainder-sum total (sum ws) ws (ground arith) refl,
      )
    ]
