-- ===== src/Server/Table.antt =====
-- The laws of the table of the sessions.
use mathlib.Core.Option.{some-injective, none-ne-some}
use shimakaze.Common.{
  ℕ, suc, Bool, true, false, if◌then◌else◌, List, [], ◌∷◌, none, some, All, length, Bool-cases, inl,
  inr, ◌≡◌, ◌≢◌, refl, ap, ◌∙◌, sym, subst, arith,
}
use shimakaze.Common.Text.{same, same→eq, same_refl}
use shimakaze.Server.Listener.{find, replace, erase}

pub same_ne : (j k : List ℕ) → j ≢ k → same j k ≡ false
same_ne j k h = elim (Bool-cases (same j k)) [ inl e ↦ absurd (h (same→eq j k e)) | inr e ↦ e ]

module _ {V : Type 0} where
  abbrev pub Distinct : List (List ℕ × V) → Type 0
  Distinct [] = Unit {0}
  Distinct ((k, v) ∷ rest) = (find k rest ≡ none) × Distinct rest

  pub find-All :
      (P : List ℕ × V → Type 0) (key : List ℕ) (m : List (List ℕ × V)) {v : V}
      → find key m ≡ some v
      → All P m
      → P (key, v)
  unfolding find
  find-All P key [] {v} e h = absurd (none-ne-some v e)
  find-All P key ((k, w) ∷ rest) {v} e h = elim (Bool-cases (same k key)) [
    | inl hit ↦
        subst (λ x. P (key, x))
          (some-injective w v (sym (ap (λ b. if b then some w else find key rest) hit) ∙ e))
          (subst (λ j. P (j, w)) (same→eq k key hit) h.0)
    | inr miss ↦
        find-All P key rest (sym (ap (λ b. if b then some w else find key rest) miss) ∙ e) h.1
  ]

  pub find-cons_ne :
      (key k : List ℕ) (w : V) (m : List (List ℕ × V)) → key ≢ k → find k ((key, w) ∷ m) ≡ find k m
  unfolding find
  find-cons_ne key k w m h = ap (λ b. if b then some w else find k m) (same_ne key k h)

  pub find-replace_ne :
      (key k : List ℕ) (w : V) (m : List (List ℕ × V))
      → key ≢ k
      → find k (replace key w m) ≡ find k m
  unfolding find replace
  find-replace_ne key k w [] h = refl
  find-replace_ne key k w ((j, v) ∷ rest) h =
      ground (arith, find-replace_ne key k w rest h, same→eq j key, same→eq j k, h)

  pub find-erase_ne :
      (key k : List ℕ) (m : List (List ℕ × V)) → key ≢ k → find k (erase key m) ≡ find k m
  unfolding find erase
  find-erase_ne key k [] h = refl
  find-erase_ne key k ((j, v) ∷ rest) h =
      ground (arith, find-erase_ne key k rest h, same→eq j key, same→eq j k, h)

  pub find-replace-none :
      (key k : List ℕ) (w : V) (m : List (List ℕ × V))
      → find k m ≡ none
      → find k (replace key w m) ≡ none
  unfolding find replace
  find-replace-none key k w [] h = refl
  find-replace-none key k w ((j, v) ∷ rest) h = ground (arith, h, find-replace-none key k w rest)

  pub find-erase-none :
      (key k : List ℕ) (m : List (List ℕ × V)) → find k m ≡ none → find k (erase key m) ≡ none
  unfolding find erase
  find-erase-none key k [] h = refl
  find-erase-none key k ((j, v) ∷ rest) h = ground (arith, h, find-erase-none key k rest)

  pub length-replace :
      (key : List ℕ) (w : V) (m : List (List ℕ × V)) → length (replace key w m) ≡ length m
  unfolding replace
  length-replace key w [] = refl
  length-replace key w ((j, v) ∷ rest) = ground (arith, length-replace key w rest)

  pub length-erase :
      (key : List ℕ) (m : List (List ℕ × V)) {v : V}
      → find key m ≡ some v
      → suc (length (erase key m)) ≡ length m
  unfolding find erase
  length-erase key [] {v} e = absurd (none-ne-some v e)
  length-erase key ((j, w) ∷ rest) {v} e = go (same j key) e (λ x. length-erase key rest)
    where
      go :
          (b : Bool)
          → (if b then some w else find key rest) ≡ some v
          → ((x : V) → find key rest ≡ some x → suc (length (erase key rest)) ≡ length rest)
          → suc (length (if b then rest else (j, w) ∷ erase key rest)) ≡ suc (length rest)
      go true p ih = refl
      go false p ih = ap suc (ih v p)

  pub Distinct-replace :
      (key : List ℕ) (w : V) (m : List (List ℕ × V)) → Distinct m → Distinct (replace key w m)
  unfolding replace
  Distinct-replace key w [] h = tt
  Distinct-replace key w ((j, v) ∷ rest) h = go (same j key) (Distinct-replace key w rest h.1)
    where
      go :
          (b : Bool)
          → Distinct (replace key w rest)
          → Distinct (if b then (j, w) ∷ rest else (j, v) ∷ replace key w rest)
      go true ih = h
      go false ih = (find-replace-none key j w rest h.0, ih)

  pub Distinct-erase : (key : List ℕ) (m : List (List ℕ × V)) → Distinct m → Distinct (erase key m)
  unfolding erase
  Distinct-erase key [] h = tt
  Distinct-erase key ((j, v) ∷ rest) h = go (same j key) (Distinct-erase key rest h.1)
    where
      go :
          (b : Bool)
          → Distinct (erase key rest)
          → Distinct (if b then rest else (j, v) ∷ erase key rest)
      go true ih = h.1
      go false ih = (find-erase-none key j rest h.0, ih)

  module _ (P : List ℕ × V → Type 0) where
    pub All-replace :
        (key : List ℕ) (w : V) (m : List (List ℕ × V))
        → P (key, w)
        → All P m
        → All P (replace key w m)
    unfolding replace
    All-replace key w [] p h = tt
    All-replace key w ((j, v) ∷ rest) p h = go (same j key) refl (All-replace key w rest p h.1)
      where
        go :
            (b : Bool)
            → same j key ≡ b
            → All P (replace key w rest)
            → All P (if b then (j, w) ∷ rest else (j, v) ∷ replace key w rest)
        go true e ih = (subst (λ k. P (k, w)) (sym (same→eq j key e)) p, h.1)
        go false e ih = (h.0, ih)

    pub All-erase : (key : List ℕ) (m : List (List ℕ × V)) → All P m → All P (erase key m)
    unfolding erase
    All-erase key [] h = tt
    All-erase key ((j, v) ∷ rest) h = go (same j key) (All-erase key rest h.1)
      where
        go :
            (b : Bool)
            → All P (erase key rest)
            → All P (if b then rest else (j, v) ∷ erase key rest)
        go true ih = h.1
        go false ih = (h.0, ih)

  -- A key that is found behind the first entry is another one.
  pub find-later :
      (k : List ℕ) (j : List ℕ) (v w : V) (rest : List (List ℕ × V))
      → find j rest ≡ none
      → find k rest ≡ some v
      → find k ((j, w) ∷ rest) ≡ some v
  unfolding find
  find-later k j v w rest h e = elim (Bool-cases (same j k)) [
    | inl hit ↦ absurd (none-ne-some v (sym h ∙ ap (λ x. find x rest) (same→eq j k hit) ∙ e))
    | inr miss ↦ ap (λ b. if b then some w else find k rest) miss ∙ e
  ]

  pub find-first : (k : List ℕ) (v : V) (rest : List (List ℕ × V)) → find k ((k, v) ∷ rest) ≡ some v
  unfolding find
  find-first k v rest = ap (λ b. if b then some v else find k rest) (same_refl k)

  pub erase-replace :
      (key : List ℕ) (w : V) (m : List (List ℕ × V)) → erase key (replace key w m) ≡ erase key m
  unfolding replace erase
  erase-replace key w [] = refl
  erase-replace key w ((j, v) ∷ rest) = elim (Bool-cases (same j key)) [
    | inl hit ↦ rw hit (rw hit refl)
    | inr miss ↦ rw miss (rw miss (ap (◌∷◌ (j, v)) (erase-replace key w rest)))
  ]
