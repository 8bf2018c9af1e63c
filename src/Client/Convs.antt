-- ===== src/Client/Convs.antt =====
-- The laws of the conversations in `transports_`.
use mathlib.Core.Option.{some-injective, none-ne-some}
use shimakaze.Common.{
  ℕ, suc, ◌==◌, not, Bool, true, false, if◌then◌else◌, List, [], ◌∷◌, some, length, ◌≡◌, refl,
  subst, arith,
}
use shimakaze.Client.State.{contains, next_conv, erase}

-- No number twice.
abbrev pub NoRepeats : List ℕ → Type 0
NoRepeats [] = Unit {0}
NoRepeats (x ∷ xs) = (contains x xs ≡ false) × NoRepeats xs

pub next_conv-contains :
    (transports draws : List ℕ) {conv : ℕ}
    → next_conv transports draws ≡ some conv
    → contains conv transports ≡ false
unfolding next_conv
next_conv-contains transports [] {conv} e = absurd (none-ne-some conv e)
next_conv-contains transports (x ∷ xs) {conv} e =
    go (contains x transports) refl e (λ q. next_conv-contains transports xs q)
  where
    go :
        (b : Bool)
        → contains x transports ≡ b
        → (if not b then some x else next_conv transports xs) ≡ some conv
        → (next_conv transports xs ≡ some conv → contains conv transports ≡ false)
        → contains conv transports ≡ false
    go true h q ih = ih q
    go false h q ih = subst (λ c. contains c transports ≡ false) (some-injective x conv q) h

contains-erase : (n c : ℕ) (xs : List ℕ) → contains n xs ≡ false → contains n (erase c xs) ≡ false
unfolding contains erase
contains-erase n c [] h = refl
contains-erase n c (x ∷ xs) h = ground (arith, h, contains-erase n c xs)

pub NoRepeats-erase : (c : ℕ) (xs : List ℕ) → NoRepeats xs → NoRepeats (erase c xs)
unfolding erase
NoRepeats-erase c [] h = tt
NoRepeats-erase c (x ∷ xs) h = go (x == c) (NoRepeats-erase c xs h.1)
  where
    go : (b : Bool) → NoRepeats (erase c xs) → NoRepeats (if b then xs else x ∷ erase c xs)
    go true ih = h.1
    go false ih = (contains-erase x c xs h.0, ih)

pub length-erase :
    (c : ℕ) (xs : List ℕ) → contains c xs ≡ true → suc (length (erase c xs)) ≡ length xs
unfolding contains erase
length-erase c [] h = cc
length-erase c (x ∷ xs) h = ground (arith, h, length-erase c xs)
