-- ===== src/Money/Decimal.antt =====
-- The provider boundary of src/lib/money.ts: kobo to a decimal text and back. A text is the list of
-- its code points. `decimalToKobo` is modelled for texts; its case for a JSON number goes through
-- `toFixed`, which is not modelled.
pub mod RoundTrip
use duevy_be.Base.{
  ℕ, zero, suc, ◌+◌, ◌-◌, ◌*◌, ◌/◌, ◌%◌, Bool, true, false, ◌&&◌, ◌||◌, ltb, leb, ◌==◌,
  if◌then◌else◌, Option, none, some, List, [], ◌∷◌, ◌++◌,
}
use duevy_be.Base.Results.{Result, ok, err, range_error, ◌>>=◌, ◌>>◌, guard}
use duevy_be.Money.{max_safe_integer, assert_kobo}

abbrev pub Text : Type 0
Text = List ℕ

abbrev pub is_digit : ℕ → Bool
is_digit c = leb b'0' c && leb c b'9'

-- White space and line ends of ECMAScript, which `trim` strips.
abbrev pub is_space : ℕ → Bool
is_space c =
    (leb 9 c && leb c 13)
    || c == 32
    || c == 160
    || c == 5760
    || (leb 8192 c && leb c 8202)
    || c == 8232
    || c == 8233
    || c == 8239
    || c == 8287
    || c == 12288
    || c == 65279

-- A whole number as text; the fuel is the number itself, which its digits cannot exceed.
unfoldable pub print_digits : ℕ → ℕ → Text
print_digits zero n = (48 + n % 10) ∷ []
print_digits (suc fuel) n =
    let rest = print_digits fuel (n / 10) in
    if ltb n 10 then (48 + n) ∷ [] else rest ++ (48 + n % 10) ∷ []

unfoldable pub to_string : ℕ → Text
unfolding print_digits
to_string n = print_digits n n

-- `s.padStart(2, '0')`
unfoldable pub pad_start_2 : Text → Text
pad_start_2 [] = b'0' ∷ b'0' ∷ []
pad_start_2 (c ∷ []) = b'0' ∷ c ∷ []
pad_start_2 (c ∷ d ∷ s) = c ∷ d ∷ s

unfoldable pub kobo_to_decimal : ℕ → Result Text
unfolding assert_kobo to_string pad_start_2
kobo_to_decimal kobo = do
  assert_kobo kobo
  ok (to_string (kobo / 100) ++ b'.' ∷ pad_start_2 (to_string (kobo % 100)))

unfoldable pub trim_start : Text → Text
trim_start [] = []
trim_start (c ∷ s) = let rest = trim_start s in if is_space c then rest else c ∷ s

unfoldable pub keep_unless_blank : ℕ → Text → Text
keep_unless_blank c [] = if is_space c then [] else c ∷ []
keep_unless_blank c (d ∷ r) = c ∷ d ∷ r

unfoldable pub trim_end : Text → Text
unfolding keep_unless_blank
trim_end [] = []
trim_end (c ∷ s) = keep_unless_blank c (trim_end s)

unfoldable pub digits_prefix : Text → Text
digits_prefix [] = []
digits_prefix (c ∷ s) = let rest = digits_prefix s in if is_digit c then c ∷ rest else []

unfoldable pub after_digits : Text → Text
after_digits [] = []
after_digits (c ∷ s) = let rest = after_digits s in if is_digit c then rest else c ∷ s

-- `Number(digits)`: past the safe integers the source's double stays past them too.
unfoldable pub to_number : ℕ → Text → ℕ
to_number acc [] = acc
to_number acc (c ∷ s) = to_number (acc * 10 + (c - 48)) s

-- The optional group `(?:\.(\d+))?$`, once its digits are taken.
unfoldable pub whole_fraction : Text → Text → Result Text
whole_fraction [] rest = err range_error
whole_fraction (d ∷ ds) [] = ok (d ∷ ds)
whole_fraction (d ∷ ds) (e ∷ es) = err range_error

-- `match[2] ?? ''`
unfoldable pub match_fraction : Text → Result Text
unfolding digits_prefix after_digits whole_fraction
match_fraction [] = ok []
match_fraction (c ∷ s) =
    if c == b'.' then whole_fraction (digits_prefix s) (after_digits s) else err range_error

-- `.padEnd(3, '0')`, as its first two digits and its third.
unfoldable pub frac_kobo : Text → ℕ
frac_kobo [] = 0
frac_kobo (a ∷ []) = (a - 48) * 10
frac_kobo (a ∷ b ∷ s) = (a - 48) * 10 + (b - 48)

unfoldable pub frac_third : Text → ℕ
frac_third (a ∷ b ∷ c ∷ s) = c - 48
frac_third _ = 0

-- `\d+` wants a digit.
unfoldable pub non_empty : Text → Result (Unit {0})
non_empty [] = err range_error
non_empty (_ ∷ _) = ok tt

unfoldable pub decimal_to_kobo : Text → Result ℕ
unfolding trim_start trim_end digits_prefix after_digits match_fraction to_number frac_kobo
    frac_third non_empty
decimal_to_kobo value = do
  let str = trim_end (trim_start value)
  let whole = digits_prefix str
  non_empty whole
  frac ← match_fraction (after_digits str)
  let kobo = to_number 0 whole * 100 + frac_kobo frac + (if leb 5 (frac_third frac) then 1 else 0)
  guard (leb kobo max_safe_integer) range_error
  ok kobo
