-- ===== src/Endpoint.antt =====
-- The endpoints of the sockets, and `endpoint_key` of utils.cpp.
use shimakaze.Common.{
  ℕ, ◌^◌, ◌<◌, ◌==◌, ◌&&◌, Bool, true, false, Bool-cases, List, [], ◌∷◌, ◌++◌, append_assoc, All,
  ◌↔◌, ◌⊎◌, inl, inr, refl, ◌≡◌, ◌≢◌, ◌∙◌, sym, arith,
}
use shimakaze.Address.{to_string}
use shimakaze.Address.Decimal.{IsDigit, to_string-IsDigit, to_string-injective, split_unique_last}

-- An endpoint of asio: an address of the library, and a port.
pub record Endpoint (A : Type 0) : Type 0 where
  pub address : A
  pub port : ℕ

-- What the program calls of an address: its text, and `==`.
pub record Addresses (A : Type 0) : Type 0 where
  pub text : A → List ℕ
  pub same_address : A → A → Bool

-- Addresses with one text are the same, and `==` tells them apart from the others.
pub record IsAddresses {A : Type 0} (addresses : Addresses A) : Type 0 where
  pub text-injective : (a b : A) → addresses.text a ≡ addresses.text b → a ≡ b
  pub same_address_iff : (a b : A) → (addresses.same_address a b ≡ true) ↔ (a ≡ b)

-- Two endpoints differ in their address or in their port.
abbrev pub Differs : {A : Type 0} → Endpoint A → Endpoint A → Type 0
Differs e f = (e.address ≢ f.address) ⊎ (e.port ≢ f.port)

module _ {A : Type 0} (addresses : Addresses A) where
  abbrev pub same_endpoint : Endpoint A → Endpoint A → Bool
  same_endpoint e f = addresses.same_address e.address f.address && (e.port == f.port)

  unfoldable pub endpoint_key : Endpoint A → ℕ → List ℕ
  unfolding to_string
  endpoint_key e conv =
      addresses.text e.address ++ (b':' ∷ (to_string e.port ++ (b'#' ∷ to_string conv)))

-- A hash and a colon are no digits.
not_among_digits :
    (c : ℕ) (xs : List ℕ) → (c ≡ b'#') ⊎ (c ≡ b':') → All IsDigit xs → All (λ x. x ≢ c) xs
not_among_digits c [] h d = tt
not_among_digits c (x ∷ xs) h d = ((λ e. clash e h), not_among_digits c xs h d.1)
  where
    clash : x ≡ c → (c ≡ b'#') ⊎ (c ≡ b':') → ⊥
    clash e (inl p) = omega arith
    clash e (inr p) = omega arith

module _ {A : Type 0} (addresses : Addresses A) (laws : IsAddresses addresses) (e f : Endpoint A)
    (conv conv' : ℕ) (he : e.port < 2 ^ 16) (hf : f.port < 2 ^ 16)
    (same : endpoint_key addresses e conv ≡ endpoint_key addresses f conv') where
  front_of : Endpoint A → List ℕ
  front_of g = addresses.text g.address ++ (b':' ∷ to_string g.port)

  at_hash : (front_of e ≡ front_of f) × (to_string conv ≡ to_string conv')
  unfolding endpoint_key front_of
  at_hash =
      split_unique_last b'#' (front_of e) (front_of f) (to_string conv) (to_string conv')
        (not_among_digits b'#' (to_string conv) (inl refl) (to_string-IsDigit conv))
        (not_among_digits b'#' (to_string conv') (inl refl) (to_string-IsDigit conv'))
        (append_assoc (addresses.text e.address) (b':' ∷ to_string e.port) (b'#' ∷ to_string conv)
          ∙ same
          ∙ sym (
              append_assoc (addresses.text f.address) (b':' ∷ to_string f.port)
                (b'#' ∷ to_string conv')))

  -- One key is of one endpoint.
  pub endpoint_key-endpoint : (e.address ≡ f.address) × (e.port ≡ f.port)
  unfolding front_of
  endpoint_key-endpoint =
      let (texts, ports) =
        split_unique_last b':' (addresses.text e.address) (addresses.text f.address)
          (to_string e.port) (to_string f.port)
          (not_among_digits b':' (to_string e.port) (inr refl) (to_string-IsDigit e.port))
          (not_among_digits b':' (to_string f.port) (inr refl) (to_string-IsDigit f.port))
          at_hash.0 in
      (
        laws.text-injective e.address f.address texts,
        to_string-injective e.port f.port (omega arith) (omega arith) ports,
      )

  -- Where the library has what `IsAddresses` says, and the ports have 16 bits and the conversations 32: two keys are
  -- equal only for the same address, the same port and the same conversation.
  pub endpoint_key-injective :
      conv < 2 ^ 32 → conv' < 2 ^ 32 → (e.address ≡ f.address) × (e.port ≡ f.port) × (conv ≡ conv')
  endpoint_key-injective hc hc' =
      let (addresses_same, ports_same) = endpoint_key-endpoint in
      (
        addresses_same,
        ports_same,
        to_string-injective conv conv' (omega arith) (omega arith) at_hash.1,
      )

pub same_endpoint-Differs :
    {A : Type 0} (addresses : Addresses A)
    → IsAddresses addresses
    → (e f : Endpoint A) → Differs e f
    → same_endpoint addresses e f ≡ false
same_endpoint-Differs addresses laws e f differs = elim (Bool-cases (same_endpoint addresses e f)) [
  | inl one ↦ absurd (clash differs one)
  | inr two ↦ two
]
  where
    clash : Differs e f → same_endpoint addresses e f ≡ true → ⊥
    clash (inl d) s = d ((laws.same_address_iff e.address f.address).0 (ground (arith, s)))
    clash (inr d) s = d (ground (arith, s))
