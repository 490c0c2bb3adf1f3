-- ===== src/Poll/Slug.antt =====
-- `slugify` and `uniqueSlug` of src/routes/polls.ts, on lists of character codes.
use duevy_be.Base.{
  ℕ, ◌+◌, ◌≤◌, ◌≡◌, refl, zero, suc, Bool, true, false, ◌&&◌, ◌||◌, ◌==◌, leb, not, find?, length,
  take, if◌then◌else◌, none, some, List, [], ◌∷◌, arith, Bool-cases, inl, inr, length-take_le,
}

-- The codes of `-`, of digits and of letters.
abbrev pub dash : ℕ
dash = 45

abbrev is_upper : ℕ → Bool
is_upper c = leb 65 c && leb c 90

-- `toLowerCase` on the letters of ASCII; what it does to others does not matter, for they are replaced
-- by a dash.
abbrev lower : ℕ → ℕ
lower c = if is_upper c then c + 32 else c

abbrev pub is_plain : ℕ → Bool
is_plain c = (leb 97 c && leb c 122) || (leb 48 c && leb c 57)

-- `.replace(/[^a-z0-9]+/g, '-')`; the flag says that the character before was replaced.
unfoldable pub dashed : Bool → List ℕ → List ℕ
dashed after [] = []
dashed after (c ∷ cs) =
    let kept = lower c ∷ dashed false cs in
    let replaced = dashed true cs in
    if is_plain (lower c) then kept else (if after then replaced else dash ∷ replaced)

-- `.replace(/^-+|-+$/g, '')`, at the front and at the end.
unfoldable pub drop_dashes : List ℕ → List ℕ
drop_dashes [] = []
drop_dashes (c ∷ cs) = let rest = drop_dashes cs in if c == dash then rest else c ∷ cs

abbrev glue : ℕ → List ℕ → List ℕ
glue c [] = if c == dash then [] else c ∷ []
glue c (d ∷ ds) = c ∷ d ∷ ds

unfoldable pub drop_end_dashes : List ℕ → List ℕ
drop_end_dashes [] = []
drop_end_dashes (c ∷ cs) = glue c (drop_end_dashes cs)

-- `'poll'`
abbrev pub fallback : List ℕ
fallback = 112 ∷ 111 ∷ 108 ∷ 108 ∷ []

abbrev or_fallback : List ℕ → List ℕ
or_fallback [] = fallback
or_fallback (c ∷ cs) = c ∷ cs

unfoldable pub slugify : List ℕ → List ℕ
slugify title = or_fallback (take 60 (drop_end_dashes (drop_dashes (dashed false title))))

abbrev pub same_slug : List ℕ → List ℕ → Bool
same_slug [] [] = true
same_slug (a ∷ rest) (b ∷ others) = a == b && same_slug rest others
same_slug _ _ = false

-- The first of the name and five random variants that no poll has; else one made from the clock.
unfoldable pub unique_slug : (List ℕ → Bool) → List ℕ → List (List ℕ) → List ℕ → List ℕ
unique_slug in_use base variants last =
    elim (find? (λ s. not (in_use s)) (base ∷ take 5 variants)) [ none ↦ last | some s ↦ s ]

-- What a slug is made of.
abbrev pub is_slug_char : ℕ → Bool
is_slug_char c = is_plain c || (c == dash)

abbrev pub all_slug : List ℕ → Bool
all_slug [] = true
all_slug (c ∷ cs) = is_slug_char c && all_slug cs

dashed-all_slug : (after : Bool) (cs : List ℕ) → all_slug (dashed after cs) ≡ true
unfolding dashed
dashed-all_slug after [] = refl
dashed-all_slug after (c ∷ cs) = elim (Bool-cases (is_plain (lower c))) [
  | inl plain ↦ ground (arith, dashed-all_slug false cs)
  | inr other ↦ elim (Bool-cases after) [
    | inl again ↦ ground (arith, dashed-all_slug true cs)
    | inr first ↦ ground (arith, dashed-all_slug true cs)
  ]
]

drop_dashes-all_slug : (cs : List ℕ) → all_slug cs ≡ true → all_slug (drop_dashes cs) ≡ true
unfolding drop_dashes
drop_dashes-all_slug [] h = refl
drop_dashes-all_slug (c ∷ cs) h = ground (arith, drop_dashes-all_slug cs)

drop_end_dashes-all_slug : (cs : List ℕ) → all_slug cs ≡ true → all_slug (drop_end_dashes cs) ≡ true
unfolding drop_end_dashes
drop_end_dashes-all_slug [] h = refl
drop_end_dashes-all_slug (c ∷ cs) h =
    glued c (drop_end_dashes cs) (ground arith) (drop_end_dashes-all_slug cs (ground arith))
  where
    glued :
        (c : ℕ) (ds : List ℕ)
        → is_slug_char c ≡ true
        → all_slug ds ≡ true
        → all_slug (glue c ds) ≡ true
    glued c [] hc hd = ground arith
    glued c (d ∷ ds) hc hd = ground arith

take-all_slug : (n : ℕ) (cs : List ℕ) → all_slug cs ≡ true → all_slug (take n cs) ≡ true
take-all_slug zero cs h = refl
take-all_slug (suc n) [] h = refl
take-all_slug (suc n) (c ∷ cs) h = ground (arith, take-all_slug n cs)

-- A slug has 1 to 60 characters, each a small letter, a digit or a dash.
pub slugify_lem :
    (title : List ℕ)
    → (1 ≤ length (slugify title))
      × (length (slugify title) ≤ 60)
      × (all_slug (slugify title) ≡ true)
unfolding slugify
slugify_lem title =
    let whole = drop_end_dashes (drop_dashes (dashed false title)) in
    let fine =
      take-all_slug 60 whole
        (drop_end_dashes-all_slug _ (drop_dashes-all_slug _ (dashed-all_slug false title))) in
    bounded (take 60 whole) fine (length-take_le 60 whole)
  where
    bounded :
        (cs : List ℕ)
        → all_slug cs ≡ true
        → length cs ≤ 60
        → (1 ≤ length (or_fallback cs))
          × (length (or_fallback cs) ≤ 60)
          × (all_slug (or_fallback cs) ≡ true)
    bounded [] h n = (omega arith, omega arith, refl)
    bounded (c ∷ cs) h n = (omega arith, n, h)
