-- ===== src/Address/Decimal.antt =====
-- The decimal text of a number, its digits, and what reads it back.
use mathlib.Core.Option.{some-injective}
use mathlib.Core.List.{reverse, reverse-append, reverse-reverse}
use shimakaze.Common.{
  ℕ, zero, suc, ◌+◌, ◌-◌, ◌*◌, ◌/◌, ◌%◌, ◌^◌, ◌<◌, ◌≤◌, ltb, Bool, true, false, if◌then◌else◌, List,
  [], ◌∷◌, ◌++◌, append_assoc, some, All, All-append, subst, Bool-cases, inl, inr, ◌≡◌, ◌≢◌, refl,
  ap, ◌∙◌, sym, arith,
}
use native.Mathlib.Nat.{pow-suc}
use shimakaze.Address.{digits_value, from_chars, digits_from, to_string}

abbrev pub IsDigit : ℕ → Type 0
IsDigit c = (b'0' ≤ c) × (c ≤ b'9')

pub digits_from-IsDigit : (fuel n : ℕ) → All IsDigit (digits_from fuel n)
unfolding digits_from
digits_from-IsDigit zero n = tt
digits_from-IsDigit (suc fuel) n = (omega arith, go (ltb n 10) (digits_from-IsDigit fuel (n / 10)))
  where
    go :
        (b : Bool)
        → All IsDigit (digits_from fuel (n / 10))
        → All IsDigit (if b then [] else digits_from fuel (n / 10))
    go true h = tt
    go false h = h

-- The number of digits that come least first.
unfoldable value_of : List ℕ → ℕ
value_of [] = 0
value_of (c ∷ cs) = (c - b'0') + value_of cs * 10

value_of-digits_from : (fuel n : ℕ) → n < 10 ^ fuel → value_of (digits_from fuel n) ≡ n
unfolding value_of digits_from
value_of-digits_from zero n h = omega arith
value_of-digits_from (suc fuel) n h = elim (Bool-cases (ltb n 10)) [
  | inl last ↦ rw last (ground arith)
  | inr more ↦
      rw more
        (omega (arith, value_of-digits_from fuel (n / 10) (omega (arith, h, pow-suc 10 fuel))))
]

digits_value-append :
    (a : ℕ) (xs : List ℕ) (c b : ℕ)
    → digits_value a xs ≡ some b
    → All IsDigit xs
    → IsDigit c
    → digits_value a (xs ++ (c ∷ [])) ≡ some (b * 10 + (c - b'0'))
unfolding digits_value
digits_value-append a [] c b e h d = ground arith
digits_value-append a (x ∷ xs) c b e h d =
    ground (arith, h.0, digits_value-append (a * 10 + (x - b'0')) xs c b)

All-reverse : (xs : List ℕ) → All IsDigit xs → All IsDigit (reverse xs)
All-reverse [] h = tt
All-reverse (x ∷ xs) h =
    subst (All IsDigit) (sym (reverse-append (x ∷ []) xs))
      (All-append IsDigit (reverse xs) (x ∷ []) (All-reverse xs h.1) (h.0, tt))

digits_value-reverse :
    (xs : List ℕ) → All IsDigit xs → digits_value 0 (reverse xs) ≡ some (value_of xs)
unfolding value_of digits_value
digits_value-reverse [] h = refl
digits_value-reverse (x ∷ xs) h =
    ap (digits_value 0) (reverse-append (x ∷ []) xs)
    ∙ digits_value-append 0 (reverse xs) x (value_of xs) (digits_value-reverse xs h.1)
        (All-reverse xs h.1) h.0
    ∙ ap some (omega arith)

pub to_string-IsDigit : (n : ℕ) → All IsDigit (to_string n)
unfolding to_string
to_string-IsDigit n = All-reverse (digits_from 20 n) (digits_from-IsDigit 20 n)

digits_value-to_string : (n : ℕ) → n < 10 ^ 20 → digits_value 0 (to_string n) ≡ some n
unfolding to_string
digits_value-to_string n h =
    digits_value-reverse (digits_from 20 n) (digits_from-IsDigit 20 n)
    ∙ ap some (value_of-digits_from 20 n h)

-- The text of a number reads back as the number,
pub from_chars-to_string : (n : ℕ) → n < 10 ^ 20 → from_chars (to_string n) ≡ some n
unfolding from_chars to_string digits_from
from_chars-to_string n h =
    some_digit (reverse rest) (b'0' + n % 10) (reverse-append ((b'0' + n % 10) ∷ []) rest)
    ∙ digits_value-to_string n h
  where
    rest : List ℕ
    rest = if ltb n 10 then [] else digits_from 19 (n / 10)

    some_digit :
        (xs : List ℕ) (c : ℕ)
        → to_string n ≡ xs ++ (c ∷ [])
        → from_chars (to_string n) ≡ digits_value 0 (to_string n)
    some_digit [] c e = ap from_chars e ∙ ap (digits_value 0) (sym e)
    some_digit (x ∷ xs) c e = ap from_chars e ∙ ap (digits_value 0) (sym e)

-- so that two numbers with one text are equal.
pub to_string-injective : (m n : ℕ) → m < 10 ^ 20 → n < 10 ^ 20 → to_string m ≡ to_string n → m ≡ n
to_string-injective m n hm hn e =
    some-injective m n
      (sym (digits_value-to_string m hm) ∙ ap (digits_value 0) e ∙ digits_value-to_string n hn)

-- The first place of a byte splits a text in one way only.
pub split_unique :
    (c : ℕ) (xs xs' ys ys' : List ℕ)
    → All (λ x. x ≢ c) xs
    → All (λ x. x ≢ c) xs'
    → xs ++ (c ∷ ys) ≡ xs' ++ (c ∷ ys')
    → (xs ≡ xs') × (ys ≡ ys')
split_unique c [] [] ys ys' h h' e = (refl, cc)
split_unique c [] (x' ∷ xs') ys ys' h h' e = absurd (h'.0 (cc))
split_unique c (x ∷ xs) [] ys ys' h h' e = absurd (h.0 (cc))
split_unique c (x ∷ xs) (x' ∷ xs') ys ys' h h' e =
    let (same, rest) = split_unique c xs xs' ys ys' h.1 h'.1 (cc) in (cc, rest)

All-reverse_ne : (c : ℕ) (xs : List ℕ) → All (λ x. x ≢ c) xs → All (λ x. x ≢ c) (reverse xs)
All-reverse_ne c [] h = tt
All-reverse_ne c (x ∷ xs) h =
    subst (All (λ y. y ≢ c)) (sym (reverse-append (x ∷ []) xs))
      (All-append (λ y. y ≢ c) (reverse xs) (x ∷ []) (All-reverse_ne c xs h.1) (h.0, tt))

reverse-middle :
    (c : ℕ) (xs ys : List ℕ) → reverse (xs ++ (c ∷ ys)) ≡ reverse ys ++ (c ∷ reverse xs)
reverse-middle c xs ys =
    reverse-append xs (c ∷ ys)
    ∙ ap (λ t. t ++ reverse xs) (reverse-append (c ∷ []) ys)
    ∙ append_assoc (reverse ys) (c ∷ []) (reverse xs)

-- So does its last place.
pub split_unique_last :
    (c : ℕ) (xs xs' ys ys' : List ℕ)
    → All (λ x. x ≢ c) ys
    → All (λ x. x ≢ c) ys'
    → xs ++ (c ∷ ys) ≡ xs' ++ (c ∷ ys')
    → (xs ≡ xs') × (ys ≡ ys')
split_unique_last c xs xs' ys ys' h h' e =
    let (later, earlier) =
      split_unique c (reverse ys) (reverse ys') (reverse xs) (reverse xs') (All-reverse_ne c ys h)
        (All-reverse_ne c ys' h')
        (sym (reverse-middle c xs ys) ∙ ap reverse e ∙ reverse-middle c xs' ys') in
    (undo earlier, undo later)
  where
    undo : {ps qs : List ℕ} → reverse ps ≡ reverse qs → ps ≡ qs
    undo {ps} {qs} p = sym (reverse-reverse ps) ∙ ap reverse p ∙ reverse-reverse qs
