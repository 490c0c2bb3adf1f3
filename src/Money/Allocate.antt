-- ===== src/Money/Allocate.antt =====
-- `allocate` of src/lib/money.ts: one checkout's fee spread over its dues by largest remainder.
-- The shares are computed in BigInt, so the native numbers are exact; the sum of the weights is a
-- JavaScript number, which rounds past 2^53 (`add_number`). `Array.sort` is an insertion
-- sort by the source's comparator, which is a total order on (rem, i): every sort gives the same.
pub mod Shares
pub mod Fair
use duevy_be.Base.{
  ◌≤◌, ◌≡◌, ◌&&◌, ◌||◌, leb, le→leb, refl, arith, ℕ, zero, suc, ◌+◌, ◌-◌, ◌*◌, ◌/◌, ◌%◌, Bool, true,
  false, ltb, ◌==◌, if◌then◌else◌, List, [], ◌∷◌, map, length, sum,
}
use duevy_be.Base.Results.{Result, ok, ◌>>=◌, ◌>>◌}
use duevy_be.Money.{assert_kobo, max_safe_integer}

-- A sum past 2^53 is rounded to a multiple of the least power of two that leaves it 53 digits, and to
-- the even one of two that are as near. `doublings` bounds the search: a number has no exponent past
-- 971, the source's sums stay below 2^1024, and each doubling is one exponent.
unfoldable pub unit_of : ℕ → ℕ → ℕ → ℕ
unit_of zero unit n = unit
unit_of (suc doublings) unit n =
    let rest = unit_of doublings (2 * unit) n in
    if leb n (max_safe_integer * unit) then unit else rest

unfoldable pub round_to : ℕ → ℕ → ℕ
round_to unit n =
    let q = n / unit in
    let twice = 2 * (n % unit) in
    if ltb twice unit || (twice == unit && (q % 2 == 0)) then q * unit else (q + 1) * unit

unfoldable pub round_number : ℕ → ℕ
round_number n = round_to (unit_of 971 1 n) n

-- `a + b` on numbers that are not negative.
unfoldable pub add_number : ℕ → ℕ → ℕ
add_number a b = if leb (a + b) max_safe_integer then a + b else round_number (a + b)

add_number-exact : (a b : ℕ) → a + b ≤ max_safe_integer → add_number a b ≡ a + b
unfolding add_number
add_number-exact a b h = rw (le→leb (a + b) max_safe_integer h) refl

-- `weights.reduce((a, b) => a + b, 0)`
unfoldable pub sum_numbers : ℕ → List ℕ → ℕ
sum_numbers acc [] = acc
sum_numbers acc (w ∷ ws) = sum_numbers (add_number acc w) ws

pub sum_numbers-exact :
    (acc : ℕ) (ws : List ℕ) → acc + sum ws ≤ max_safe_integer → sum_numbers acc ws ≡ acc + sum ws
unfolding sum_numbers
sum_numbers-exact acc [] h = omega arith
sum_numbers-exact acc (w ∷ ws) h =
    rw (add_number-exact acc w (omega (arith, h)))
      (omega (arith, sum_numbers-exact (acc + w) ws (omega (arith, h))))

pub record Remainder : Type 0 where
  pub index : ℕ
  pub rem : ℕ

-- `weights.map((w) => (T * BigInt(w)) / S)`
unfoldable pub floor_shares : ℕ → ℕ → List ℕ → List ℕ
floor_shares total s [] = []
floor_shares total s (w ∷ ws) = (total * w / s) ∷ floor_shares total s ws

-- `weights.map((w, i) => ({ i, rem: (T * BigInt(w)) % S }))`, from index `i` on.
unfoldable pub remainders_from : ℕ → ℕ → ℕ → List ℕ → List Remainder
remainders_from total s i [] = []
remainders_from total s i (w ∷ ws) =
    record { index = i; rem = total * w % s } ∷ remainders_from total s (i + 1) ws

-- The comparator is negative: `a` sorts before `b`.
unfoldable pub sorts_before : Remainder → Remainder → Bool
sorts_before a b = if a.rem == b.rem then ltb a.index b.index else ltb b.rem a.rem

unfoldable pub insert_sorted : Remainder → List Remainder → List Remainder
insert_sorted a [] = a ∷ []
insert_sorted a (b ∷ bs) =
    let rest = insert_sorted a bs in if sorts_before a b then a ∷ b ∷ bs else b ∷ rest

unfoldable pub sort_remainders : List Remainder → List Remainder
unfolding insert_sorted sorts_before
sort_remainders [] = []
sort_remainders (a ∷ as') = insert_sorted a (sort_remainders as')

-- `parts[i] += 1`
unfoldable pub bump : ℕ → List ℕ → List ℕ
bump i [] = []
bump zero (p ∷ ps) = (p + 1) ∷ ps
bump (suc i) (p ∷ ps) = p ∷ bump i ps

-- The loop over the sorted remainders, which stops when nothing is left.
unfoldable pub hand_out : List Remainder → ℕ → List ℕ → List ℕ
unfolding bump
hand_out [] left parts = parts
hand_out (r ∷ rs) zero parts = parts
hand_out (r ∷ rs) (suc left) parts = hand_out rs left (bump r.index parts)

-- All weights zero: even shares, with what the division leaves added to the first.
-- (On no weights both this and the other branch give the empty list, as the early return does.)
unfoldable pub add_first : ℕ → List ℕ → List ℕ
add_first extra [] = []
add_first extra (p ∷ ps) = (p + extra) ∷ ps

unfoldable pub even_shares : ℕ → List ℕ → List ℕ
unfolding add_first
even_shares total weights =
    let even = map (λ _. total / length weights) weights in add_first (total - sum even) even

unfoldable pub largest_remainder : ℕ → ℕ → List ℕ → List ℕ
unfolding floor_shares remainders_from sort_remainders hand_out
largest_remainder total s weights =
    let parts = floor_shares total s weights in
    hand_out (sort_remainders (remainders_from total s 0 weights)) (total - sum parts) parts

-- Past 2^53 the sum of the weights can be rounded down and the floors can exceed the total: nothing
-- is left then, and the loop stops at once, as it does on a negative `left`.
unfoldable pub allocate : ℕ → List ℕ → Result (List ℕ)
unfolding assert_kobo even_shares largest_remainder sum_numbers
allocate total weights = do
  assert_kobo total
  ok (
      if sum_numbers 0 weights == 0
      then even_shares total weights
      else largest_remainder total (sum_numbers 0 weights) weights)

-- Where the sum of the weights is a safe integer, it is exact.
pub allocate_lem :
    (total : ℕ) (weights : List ℕ)
    → total ≤ max_safe_integer
    → sum weights ≤ max_safe_integer
    → allocate total weights
      ≡ ok (
          if sum weights == 0
          then even_shares total weights
          else largest_remainder total (sum weights) weights)
unfolding allocate
allocate_lem total weights h fits = ground (arith, sum_numbers-exact 0 weights)
