-- ===== src/Client/Table.antt =====
-- The laws of the connections of a client, by their numbers.
use mathlib.Core.Option.{some-injective, none-ne-some}
use shimakaze.Common.{
  ℕ, ◌<◌, ◌==◌, ==_iff, Bool, true, false, if◌then◌else◌, List, [], ◌∷◌, none, some, All,
  Bool-cases, inl, inr, ◌≡◌, refl, ap, ap₂, ◌∙◌, sym, subst, arith,
}
use shimakaze.Client.State.{Connection, contains, erase, find, replace}
use shimakaze.Client.Convs.{NoRepeats}

module _ {A K : Type 0} where
  -- The conversations of the connections that are open.
  unfoldable pub open_convs : List (ℕ × Connection A K) → List ℕ
  open_convs [] = []
  open_convs ((n, c) ∷ rest) =
      let others = open_convs rest in if c.tunnel.closing then others else c.conv ∷ others

  abbrev pub Unique : List (ℕ × Connection A K) → Type 0
  Unique [] = Unit {0}
  Unique ((n, c) ∷ rest) = (find n rest ≡ none) × Unique rest

  pub find-fresh :
      (number : ℕ) (m : List (ℕ × Connection A K))
      → All (λ e. e.0 < number) m
      → find number m ≡ none
  unfolding find
  find-fresh number [] h = refl
  find-fresh number ((n, c) ∷ rest) h = ground (arith, h.0, find-fresh number rest h.1)

  find-replace-none :
      (number k : ℕ) (d : Connection A K) (m : List (ℕ × Connection A K))
      → find k m ≡ none
      → find k (replace number d m) ≡ none
  unfolding find replace
  find-replace-none number k d [] h = refl
  find-replace-none number k d ((n, c) ∷ rest) h =
      ground (arith, h, find-replace-none number k d rest)

  pub Unique-replace :
      (number : ℕ) (d : Connection A K) (m : List (ℕ × Connection A K))
      → Unique m
      → Unique (replace number d m)
  unfolding replace
  Unique-replace number d [] h = tt
  Unique-replace number d ((n, c) ∷ rest) h = go (n == number) (Unique-replace number d rest h.1)
    where
      go :
          (b : Bool)
          → Unique (replace number d rest)
          → Unique (if b then (n, d) ∷ rest else (n, c) ∷ replace number d rest)
      go true ih = h
      go false ih = (find-replace-none number n d rest h.0, ih)

  pub All-replace :
      (P : ℕ × Connection A K → Type 0) (number : ℕ) (d : Connection A K)
      (m : List (ℕ × Connection A K))
      → P (number, d)
      → All P m
      → All P (replace number d m)
  unfolding replace
  All-replace P number d [] p h = tt
  All-replace P number d ((n, c) ∷ rest) p h =
      go (n == number) refl (All-replace P number d rest p h.1)
    where
      go :
          (b : Bool)
          → (n == number) ≡ b
          → All P (replace number d rest)
          → All P (if b then (n, d) ∷ rest else (n, c) ∷ replace number d rest)
      go true e ih = (subst (λ k. P (k, d)) (sym ((==_iff n number).0 e)) p, h.1)
      go false e ih = (h.0, ih)

  pub find-All :
      (P : ℕ × Connection A K → Type 0) (number : ℕ) (m : List (ℕ × Connection A K))
      {c : Connection A K}
      → find number m ≡ some c
      → All P m
      → P (number, c)
  unfolding find
  find-All P number [] {c} e h = absurd (none-ne-some c e)
  find-All P number ((n, x) ∷ rest) {c} e h =
      go (n == number) refl e (λ q. find-All P number rest q h.1)
    where
      go :
          (b : Bool)
          → (n == number) ≡ b
          → (if b then some x else find number rest) ≡ some c
          → (find number rest ≡ some c → P (number, c))
          → P (number, c)
      go true hit q ih =
          subst (λ y. P (number, y)) (some-injective x c q)
            (subst (λ k. P (k, x)) ((==_iff n number).0 hit) h.0)
      go false miss q ih = ih q

  pub contains-open_convs :
      (number : ℕ) (m : List (ℕ × Connection A K)) {c : Connection A K}
      → find number m ≡ some c
      → c.tunnel.closing ≡ false
      → contains c.conv (open_convs m) ≡ true
  unfolding find contains open_convs
  contains-open_convs number [] {c} e o = absurd (none-ne-some c e)
  contains-open_convs number ((n, x) ∷ rest) {c} e o =
      go (n == number) e (λ q. contains-open_convs number rest q o)
    where
      go :
          (b : Bool)
          → (if b then some x else find number rest) ≡ some c
          → (find number rest ≡ some c → contains c.conv (open_convs rest) ≡ true)
          → contains c.conv (if x.tunnel.closing then open_convs rest else x.conv ∷ open_convs rest)
            ≡ true
      go true q ih =
          let is : x ≡ c = some-injective x c q in
          let here : x.conv ≡ c.conv = ap (λ y. y.conv) is in
          subst
            (λ b. contains c.conv (if b then open_convs rest else x.conv ∷ open_convs rest) ≡ true)
            (sym (ap (λ y. y.tunnel.closing) is ∙ o)) (ground (arith, here))
      go false q ih = ground (arith, ih q)

  pub open_convs-replace_same :
      (number : ℕ) (d : Connection A K) (m : List (ℕ × Connection A K)) {c : Connection A K}
      → find number m ≡ some c
      → d.conv ≡ c.conv
      → d.tunnel.closing ≡ c.tunnel.closing
      → open_convs (replace number d m) ≡ open_convs m
  unfolding find replace open_convs
  open_convs-replace_same number d [] e same closing = refl
  open_convs-replace_same number d ((n, x) ∷ rest) {c} e same closing =
      go (n == number) e (λ q. open_convs-replace_same number d rest q same closing)
    where
      go :
          (b : Bool)
          → (if b then some x else find number rest) ≡ some c
          → (find number rest ≡ some c → open_convs (replace number d rest) ≡ open_convs rest)
          → open_convs (if b then (n, d) ∷ rest else (n, x) ∷ replace number d rest)
            ≡ (if x.tunnel.closing then open_convs rest else x.conv ∷ open_convs rest)
      go true q ih =
          let is : x ≡ c = some-injective x c q in
          ap₂ (λ b v. if◌then◌else◌ {A = List ℕ} b (open_convs rest) (v ∷ open_convs rest))
            (closing ∙ ap (λ y. y.tunnel.closing) (sym is)) (same ∙ ap (λ y. y.conv) (sym is))
      go false q ih = ap (λ v. if◌then◌else◌ {A = List ℕ} x.tunnel.closing v (x.conv ∷ v)) (ih q)

  pub open_convs-replace_closed :
      (number : ℕ) (d : Connection A K) (m : List (ℕ × Connection A K)) {c : Connection A K}
      → find number m ≡ some c
      → NoRepeats (open_convs m)
      → c.tunnel.closing ≡ false
      → d.tunnel.closing ≡ true
      → open_convs (replace number d m) ≡ erase c.conv (open_convs m)
  unfolding find replace open_convs erase
  open_convs-replace_closed number d [] {c} e nr o cl = absurd (none-ne-some c e)
  open_convs-replace_closed number d ((n, x) ∷ rest) {c} e nr o cl =
      go (n == number) e (λ q r. open_convs-replace_closed number d rest q r o cl)
    where
      kept : List ℕ
      kept = open_convs rest

      -- Another connection is there before.
      passed :
          (b : Bool) (v : ℕ)
          → NoRepeats (if b then kept else v ∷ kept)
          → contains c.conv kept ≡ true
          → (NoRepeats kept → open_convs (replace number d rest) ≡ erase c.conv kept)
          → (if◌then◌else◌ {A = List ℕ} b
              (open_convs (replace number d rest))
              (v ∷ open_convs (replace number d rest)))
            ≡ erase c.conv (if b then kept else v ∷ kept)
      passed true v r among ih = ih r
      passed false v r among ih = elim (Bool-cases (v == c.conv)) [
        | inl one ↦ absurd (clash ((==_iff v c.conv).0 one))
        | inr two ↦
            ap (◌∷◌ v) (ih r.1)
            ∙ sym (ap (λ b. if◌then◌else◌ {A = List ℕ} b kept (v ∷ erase c.conv kept)) two)
      ]
        where
          clash : v ≡ c.conv → ⊥
          clash q = cc (r.0, among, ap (λ u. contains u kept) q)

      go :
          (b : Bool)
          → (if b then some x else find number rest) ≡ some c
          → (find number rest ≡ some c
              → NoRepeats kept
              → open_convs (replace number d rest) ≡ erase c.conv kept)
          → open_convs (if b then (n, d) ∷ rest else (n, x) ∷ replace number d rest)
            ≡ erase c.conv (if x.tunnel.closing then kept else x.conv ∷ kept)
      go true q ih =
          let is : x ≡ c = some-injective x c q in
          let here : x.conv ≡ c.conv = ap (λ y. y.conv) is in
          ap (λ b. if◌then◌else◌ {A = List ℕ} b kept (d.conv ∷ kept)) cl
          ∙ sym (
              ap (λ b. erase c.conv (if b then kept else x.conv ∷ kept))
                (ap (λ y. y.tunnel.closing) is ∙ o)
              ∙ ground (arith, here))
      go false q ih = passed x.tunnel.closing x.conv nr (contains-open_convs number rest q o) (ih q)
