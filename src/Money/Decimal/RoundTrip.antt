-- ===== src/Money/Decimal/RoundTrip.antt =====
-- `koboToDecimal` and then `decimalToKobo` of src/lib/money.ts.
use duevy_be.Base.{
  ℕ, zero, suc, ◌+◌, ◌-◌, ◌*◌, ◌/◌, ◌%◌, ◌≤◌, ◌<◌, ◌≡◌, refl, true, false, [], ◌∷◌, ◌++◌, All,
  arith, Bool-cases, inl, inr, ltb, leb, ltb→lt, le→leb, ap, ◌∙◌, if◌then◌else◌,
}
use duevy_be.Base.Results.{ok}
use duevy_be.Money.{max_safe_integer}
use duevy_be.Money.Decimal.{
  Text, is_digit, is_space, print_digits, to_string, pad_start_2, kobo_to_decimal, trim_start,
  trim_end, keep_unless_blank, digits_prefix, after_digits, to_number, match_fraction, frac_kobo,
  frac_third, decimal_to_kobo, non_empty,
}

abbrev IsDigit : ℕ → Type 0
IsDigit c = is_digit c ≡ true

abbrev Visible : ℕ → Type 0
Visible c = is_space c ≡ false

digit : (d : ℕ) → d < 10 → IsDigit (48 + d)
digit d h = ground arith

IsDigit-Visible : (c : ℕ) → IsDigit c → Visible c
IsDigit-Visible c h = ground arith

All-snoc : (P : ℕ → Type 0) (xs : Text) (c : ℕ) → All P xs → P c → All P (xs ++ c ∷ [])
All-snoc P [] c h p = (p, tt)
All-snoc P (x ∷ xs) c h p = (h.0, All-snoc P xs c h.1 p)

All-append : (P : ℕ → Type 0) (xs ys : Text) → All P xs → All P ys → All P (xs ++ ys)
All-append P [] ys h p = p
All-append P (x ∷ xs) ys h p = (h.0, All-append P xs ys h.1 p)

All-Visible : (xs : Text) → All IsDigit xs → All Visible xs
All-Visible [] h = tt
All-Visible (x ∷ xs) h = (IsDigit-Visible x h.0, All-Visible xs h.1)

print_digits-All : (fuel n : ℕ) → All IsDigit (print_digits fuel n)
unfolding print_digits
print_digits-All zero n = (digit (n % 10) (omega arith), tt)
print_digits-All (suc fuel) n = elim (Bool-cases (ltb n 10)) [
  | inl e ↦ rw e (digit n (ltb→lt n 10 e), tt)
  | inr e ↦ rw e (
      All-snoc IsDigit (print_digits fuel (n / 10)) (48 + n % 10) (print_digits-All fuel (n / 10))
        (digit (n % 10) (omega arith)))
]

print_digits_small : (fuel n : ℕ) → n < 10 → print_digits fuel n ≡ (48 + n) ∷ []
unfolding print_digits
print_digits_small zero n h = ground arith
print_digits_small (suc fuel) n h = ground arith

to_number-snoc :
    (acc c : ℕ) (xs : Text) → to_number acc (xs ++ c ∷ []) ≡ to_number acc xs * 10 + (c - 48)
unfolding to_number
to_number-snoc acc c [] = refl
to_number-snoc acc c (x ∷ xs) = to_number-snoc (acc * 10 + (x - 48)) c xs

to_number-print_digits : (fuel n : ℕ) → n ≤ fuel → to_number 0 (print_digits fuel n) ≡ n
unfolding print_digits
to_number-print_digits zero n h = unfold to_number in ground arith
to_number-print_digits (suc fuel) n h = elim (Bool-cases (ltb n 10)) [
  | inl e ↦ rw e (unfold to_number in omega arith)
  | inr e ↦ rw e (
      rw (to_number-snoc 0 (48 + n % 10) (print_digits fuel (n / 10)))
        (rw (to_number-print_digits fuel (n / 10) (ground arith)) (omega arith)))
]

trim_start-Visible : (s : Text) → All Visible s → trim_start s ≡ s
unfolding trim_start
trim_start-Visible [] h = refl
trim_start-Visible (c ∷ s) h = ground arith

trim_end-Visible : (s : Text) → All Visible s → trim_end s ≡ s
unfolding trim_end
trim_end-Visible [] h = refl
trim_end-Visible (c ∷ []) h = ground arith
trim_end-Visible (c ∷ d ∷ s) h = ap (keep_unless_blank c) (trim_end-Visible (d ∷ s) h.1)

digits_prefix-append : (ds s : Text) → All IsDigit ds → digits_prefix (ds ++ b'.' ∷ s) ≡ ds
unfolding digits_prefix
digits_prefix-append [] s h = ground arith
digits_prefix-append (d ∷ ds) s h = ground (arith, digits_prefix-append ds s h.1)

after_digits-append : (ds s : Text) → All IsDigit ds → after_digits (ds ++ b'.' ∷ s) ≡ b'.' ∷ s
unfolding after_digits
after_digits-append [] s h = ground arith
after_digits-append (d ∷ ds) s h = ground (arith, after_digits-append ds s h.1)

print_digits_two :
    (fuel n : ℕ) → 10 ≤ n → n < 100 → print_digits (suc fuel) n ≡ (48 + n / 10) ∷ (48 + n % 10) ∷ []
unfolding print_digits
print_digits_two fuel n lo hi = ground (arith, print_digits_small fuel (n / 10) (omega arith))

-- Below 100, two digits in the end, and they spell the number.
pad_start_2-digits :
    (n : ℕ) → n < 100 → pad_start_2 (to_string n) ≡ (48 + n / 10) ∷ (48 + n % 10) ∷ []
unfolding pad_start_2 to_string
pad_start_2-digits zero h = refl
pad_start_2-digits (suc k) h = elim (Bool-cases (ltb (suc k) 10)) [
  | inl e ↦ ground (arith, print_digits_small (suc k) (suc k))
  | inr e ↦ ground (arith, print_digits_two k (suc k))
]

frac_parts :
    (n : ℕ)
    → n < 100
    → let f = (48 + n / 10) ∷ (48 + n % 10) ∷ [] in
      (frac_kobo f ≡ n) × (frac_third f ≡ 0) × (match_fraction (b'.' ∷ f) ≡ ok f)
unfolding match_fraction frac_kobo frac_third
frac_parts n h = (omega arith, refl, ground (arith, digit (n / 10), digit (n % 10)))

non_empty-snoc : (xs : Text) (c : ℕ) → non_empty (xs ++ c ∷ []) ≡ ok tt
unfolding non_empty
non_empty-snoc [] c = refl
non_empty-snoc (x ∷ xs) c = refl

print_digits_nonempty : (fuel n : ℕ) → non_empty (print_digits fuel n) ≡ ok tt
unfolding print_digits
print_digits_nonempty zero n = unfold non_empty in refl
print_digits_nonempty (suc fuel) n = elim (Bool-cases (ltb n 10)) [
  | inl e ↦ rw e (unfold non_empty in refl)
  | inr e ↦ rw e (non_empty-snoc (print_digits fuel (n / 10)) (48 + n % 10))
]

-- The parts of a text that parses, and the amount that they make.
decimal_to_kobo-parts :
    (value str whole rest frac : Text) (kobo : ℕ)
    → trim_end (trim_start value) ≡ str
    → digits_prefix str ≡ whole
    → after_digits str ≡ rest
    → non_empty whole ≡ ok tt
    → match_fraction rest ≡ ok frac
    → to_number 0 whole * 100 + frac_kobo frac + (if leb 5 (frac_third frac) then 1 else 0) ≡ kobo
    → kobo ≤ max_safe_integer
    → decimal_to_kobo value ≡ ok kobo
unfolding decimal_to_kobo
decimal_to_kobo-parts value str whole rest frac kobo a b c d e f h =
    rw (a, b, c, d, e, f, le→leb kobo max_safe_integer h)

to_string-All : (n : ℕ) → All IsDigit (to_string n)
unfolding to_string
to_string-All n = print_digits-All n n

to_string-nonempty : (n : ℕ) → non_empty (to_string n) ≡ ok tt
unfolding to_string
to_string-nonempty n = print_digits_nonempty n n

to_number-to_string : (n : ℕ) → to_number 0 (to_string n) ≡ n
unfolding to_string
to_number-to_string n = to_number-print_digits n n (omega arith)

kobo_to_decimal-parts :
    (kobo : ℕ)
    → kobo ≤ max_safe_integer
    → kobo_to_decimal kobo
      ≡ ok (to_string (kobo / 100) ++ b'.' ∷ (48 + kobo % 100 / 10) ∷ (48 + kobo % 100 % 10) ∷ [])
unfolding kobo_to_decimal
kobo_to_decimal-parts kobo h =
    rw (le→leb kobo max_safe_integer h, pad_start_2-digits (kobo % 100) (omega arith))

-- Every amount that `koboToDecimal` accepts, up to the largest safe integer, is written as a text
-- that `decimalToKobo` reads back as the same amount.
pub decimal_to_kobo-kobo_to_decimal :
    (kobo : ℕ)
    → kobo ≤ max_safe_integer
    → (s : Text) × (kobo_to_decimal kobo ≡ ok s) × (decimal_to_kobo s ≡ ok kobo)
decimal_to_kobo-kobo_to_decimal kobo h =
    let whole = to_string (kobo / 100) in
    let frac : Text = (48 + kobo % 100 / 10) ∷ (48 + kobo % 100 % 10) ∷ [] in
    let text = whole ++ b'.' ∷ frac in
    let digits = to_string-All (kobo / 100) in
    let (amount, third, fits) = frac_parts (kobo % 100) (omega arith) in
    let two : All IsDigit frac =
      (digit (kobo % 100 / 10) (omega arith), (digit (kobo % 100 % 10) (omega arith), tt)) in
    let seen =
      All-append Visible whole (b'.' ∷ frac) (All-Visible whole digits)
        (refl, All-Visible frac two) in
    (
      text,
      kobo_to_decimal-parts kobo h,
      decimal_to_kobo-parts text text whole (b'.' ∷ frac) frac kobo
          (ap trim_end (trim_start-Visible text seen) ∙ trim_end-Visible text seen)
          (digits_prefix-append whole frac digits) (after_digits-append whole frac digits)
          (to_string-nonempty (kobo / 100)) fits
          (rw third (omega (arith, to_number-to_string (kobo / 100), amount))) h,
    )
