-- ===== src/Ledger/Availability/Settle.antt =====
-- The loop of `getDueAvailability`, over the dues in order.
use duevy_be.Base.{
  ℕ, ◌+◌, ◌-◌, min, ◌≡◌, refl, ◌⊎◌, true, false, Option, List, [], ◌∷◌, All, sum_by, Bool-cases,
  leb, inl, inr, arith,
}
use duevy_be.Store.{Due}
use duevy_be.Ledger.{lead_held, due_before, insert_due, order_dues, settle}

pub sum_by-insert_due :
    (f : Due → ℕ) (lead : Option ℕ) (d : Due) (ds : List Due)
    → sum_by f (insert_due lead d ds) ≡ f d + sum_by f ds
unfolding insert_due
sum_by-insert_due f lead d [] = refl
sum_by-insert_due f lead d (e ∷ es) = elim (Bool-cases (due_before lead d e)) [
  | inl h ↦ rw h refl
  | inr h ↦ rw h (omega (arith, sum_by-insert_due f lead d es))
]

-- Sorting keeps every sum over the dues.
pub sum_by-order_dues :
    (f : Due → ℕ) (lead : Option ℕ) (ds : List Due) → sum_by f (order_dues lead ds) ≡ sum_by f ds
unfolding order_dues
sum_by-order_dues f lead [] = refl
sum_by-order_dues f lead (d ∷ ds) =
    omega (arith, sum_by-insert_due f lead d (order_dues lead ds), sum_by-order_dues f lead ds)

abbrev pub CoHeld : Option ℕ → Due → Type 0
CoHeld lead d = lead_held lead d ≡ false

-- Behind a co-rep's due stand only dues of co-reps.
abbrev pub LeadFirst : Option ℕ → List Due → Type 0
LeadFirst lead [] = Unit
LeadFirst lead (d ∷ ds) = ((lead_held lead d ≡ true) ⊎ All (CoHeld lead) ds) × LeadFirst lead ds

insert_due-All :
    (lead : Option ℕ) (d : Due) (ds : List Due)
    → CoHeld lead d
    → All (CoHeld lead) ds
    → All (CoHeld lead) (insert_due lead d ds)
unfolding insert_due
insert_due-All lead d [] h k = (h, tt)
insert_due-All lead d (e ∷ es) h k = elim (Bool-cases (due_before lead d e)) [
  | inl b ↦ rw b (h, k)
  | inr b ↦ rw b (k.0, insert_due-All lead d es h k.1)
]

-- What is inserted before a co-rep's due, or is one itself, has co-reps' dues behind it.
before_co :
    (lead : Option ℕ) (d e : Due) → due_before lead d e ≡ true → CoHeld lead d → CoHeld lead e
unfolding due_before
before_co lead d e b h = ground arith

not_before :
    (lead : Option ℕ) (d e : Due) → due_before lead d e ≡ false → CoHeld lead e → CoHeld lead d
unfolding due_before
not_before lead d e b h = ground arith

behind :
    (lead : Option ℕ) (e : Due) (es : List Due)
    → CoHeld lead e
    → (lead_held lead e ≡ true) ⊎ All (CoHeld lead) es
    → All (CoHeld lead) es
behind lead e es c (inl held) = absurd (ground arith)
behind lead e es c (inr all) = all

heads :
    (lead : Option ℕ) (d e : Due) (es : List Due)
    → due_before lead d e ≡ true
    → (lead_held lead e ≡ true) ⊎ All (CoHeld lead) es
    → (lead_held lead d ≡ true) ⊎ All (CoHeld lead) (e ∷ es)
heads lead d e es b h = elim (Bool-cases (lead_held lead d)) [
  | inl held ↦ inl held
  | inr co ↦ inr (before_co lead d e b co, behind lead e es (before_co lead d e b co) h)
]

stays :
    (lead : Option ℕ) (d e : Due) (es : List Due)
    → due_before lead d e ≡ false
    → (lead_held lead e ≡ true) ⊎ All (CoHeld lead) es
    → (lead_held lead e ≡ true) ⊎ All (CoHeld lead) (insert_due lead d es)
stays lead d e es b h = elim (Bool-cases (lead_held lead e)) [
  | inl held ↦ inl held
  | inr co ↦ inr (insert_due-All lead d es (not_before lead d e b co) (behind lead e es co h))
]

insert_due-LeadFirst :
    (lead : Option ℕ) (d : Due) (ds : List Due)
    → LeadFirst lead ds
    → LeadFirst lead (insert_due lead d ds)
unfolding insert_due
insert_due-LeadFirst lead d [] h = (inr tt, tt)
insert_due-LeadFirst lead d (e ∷ es) h = elim (Bool-cases (due_before lead d e)) [
  | inl b ↦ rw b (heads lead d e es b h.0, h)
  | inr b ↦ rw b (stays lead d e es b h.0, insert_due-LeadFirst lead d es h.1)
]

pub order_dues-LeadFirst : (lead : Option ℕ) (ds : List Due) → LeadFirst lead (order_dues lead ds)
unfolding order_dues
order_dues-LeadFirst lead [] = tt
order_dues-LeadFirst lead (d ∷ ds) =
    insert_due-LeadFirst lead d (order_dues lead ds) (order_dues-LeadFirst lead ds)

abbrev pub sum_avail : List (Due × ℕ) → ℕ
sum_avail rs = sum_by (λ r. r.1) rs

-- What the loop leaves, and what it has taken, is what the dues had.
pub settle_total :
    (own : Due → ℕ) (deficit : ℕ) (ds : List Due)
    → sum_by (λ r. r.1) (settle own deficit ds) + min deficit (sum_by own ds) ≡ sum_by own ds
unfolding settle
settle_total own deficit [] = omega arith
settle_total own deficit (d ∷ ds) =
    omega (arith, settle_total own (deficit - min (own d) deficit) ds)

abbrev pub Untouched : Option ℕ → (Due → ℕ) → Due × ℕ → Type 0
Untouched lead own r = lead_held lead r.0 ≡ false → r.1 ≡ own r.0

abbrev pub UsedUp : Option ℕ → Due × ℕ → Type 0
UsedUp lead r = lead_held lead r.0 ≡ true → r.1 ≡ 0

settle-zero :
    (lead : Option ℕ) (own : Due → ℕ) (deficit : ℕ) (ds : List Due)
    → deficit ≡ 0
    → All (Untouched lead own) (settle own deficit ds)
unfolding settle
settle-zero lead own deficit [] z = tt
settle-zero lead own deficit (d ∷ ds) z =
    (λ _. omega arith, settle-zero lead own (deficit - min (own d) deficit) ds (omega arith))

settle-co :
    (lead : Option ℕ) (own : Due → ℕ) (deficit : ℕ) (ds : List Due)
    → All (CoHeld lead) ds
    → All (UsedUp lead) (settle own deficit ds)
unfolding settle
settle-co lead own deficit [] h = tt
settle-co lead own deficit (d ∷ ds) h =
    (λ t. cc, settle-co lead own (deficit - min (own d) deficit) ds h.1)

-- Either every due of the lead is used up, or no due of a co-rep is touched.
pub settle-LeadFirst :
    (lead : Option ℕ) (own : Due → ℕ) (deficit : ℕ) (ds : List Due)
    → LeadFirst lead ds
    → All (UsedUp lead) (settle own deficit ds) ⊎ All (Untouched lead own) (settle own deficit ds)
unfolding settle
settle-LeadFirst lead own deficit [] h = inl tt
settle-LeadFirst lead own deficit (d ∷ ds) h = elim (Bool-cases (lead_held lead d)) [
  | inr co ↦
      inl (λ t. cc, settle-co lead own (deficit - min (own d) deficit) ds (behind lead d ds co h.0))
  | inl held ↦ elim (Bool-cases (leb (own d) deficit)) [
    | inr some_left ↦
        inr (λ c. cc, settle-zero lead own (deficit - min (own d) deficit) ds (ground arith))
    | inl none_left ↦ elim (settle-LeadFirst lead own (deficit - min (own d) deficit) ds h.1) [
      | inl used ↦ inl (λ _. ground arith, used)
      | inr kept ↦ inr (λ c. cc, kept)
    ]
  ]
]
