-- ===== src/Client/RoundRobin.antt =====
-- What an accepted socket leaves alone.
use shimakaze.Common.{
  ℕ, ◌+◌, ◌%◌, ◌^◌, ◌&&◌, not, true, if◌then◌else◌, List, [], ◌∷◌, Option, none, some, Bool, length,
  get_or, length-set, get_or-set_ne, ◌≡◌, ◌≢◌, ◌⊎◌, inl, inr, refl, ap, ◌∙◌, sym, arith, either,
}
use shimakaze.Endpoint.{Endpoint}
use shimakaze.Tunnel.{Tunnel, Libraries, Moment, make_tunnel}
use shimakaze.Tunnel.Keeps.{Holds, bind-Holds}
use shimakaze.Client.State.{
  Connection, Client, next_conv, find, replace, on_close, update_connection, create_connection,
}
use shimakaze.Client.Accept.{
  reusable, slot_number, connection_of, ensure_session, open_on, open_in, handle_accept,
}

module _ {A K : Type 0} where
  find-replace_ne :
      (number k : ℕ) (c : Connection A K) (m : List (ℕ × Connection A K))
      → number ≢ k
      → find k (replace number c m) ≡ find k m
  unfolding find replace
  find-replace_ne number k c [] h = refl
  find-replace_ne number k c ((n, d) ∷ rest) h =
      ground (arith, h, find-replace_ne number k c rest h)

  find-cons_ne :
      (number k : ℕ) (c : Connection A K) (m : List (ℕ × Connection A K))
      → number ≢ k
      → find k ((number, c) ∷ m) ≡ find k m
  unfolding find
  find-cons_ne number k c m h = ground (arith, h)

module _ {A K : Type 0} (libs : Libraries K) (m : Moment) where
  -- The counter, the slots and the connections, but one connection.
  abbrev Beside : ℕ → Client A K → Client A K → Type 0
  Beside number s t =
      (t.rr ≡ s.rr)
      × (t.muxes ≡ s.muxes)
      × ((k : ℕ) → number ≢ k → find k t.connections ≡ find k s.connections)

  -- A connection that is made takes the next number, and the slot; another one is the slot's own.
  record InSlot (index : ℕ) (s : Client A K) (number : ℕ) (t : Client A K) : Type 0 where
    rr : t.rr ≡ s.rr
    slots : length t.muxes ≡ length s.muxes
    others : (i : ℕ) → index ≢ i → get_or t.muxes i none ≡ get_or s.muxes i none
    used : (number ≡ s.next_number) ⊎ (slot_number libs m s index ≡ some number)
    connections : (k : ℕ) → s.next_number ≢ k → find k t.connections ≡ find k s.connections

  update_connection-Beside :
      (number : ℕ) (c : Connection A K) (t : Tunnel K) (s : Client A K)
      → Beside number s (update_connection number c t s)
  unfolding update_connection on_close
  update_connection-Beside number c t s =
      either (Beside number s) (t.closing && not c.tunnel.closing) _ _
        (refl, refl, λ k h. find-replace_ne number k _ s.connections h)
        (refl, refl, λ k h. find-replace_ne number k _ s.connections h)

  open_in-Beside :
      (gone : Bool) (number : ℕ) (s : Client A K) (o : Option (Connection A K))
      → Beside number s (open_in libs m gone number s o)
  open_in-Beside gone number s none = (refl, refl, λ k h. refl)
  open_in-Beside gone number s (some c) = opened (open_on libs m gone c.tunnel)
    where
      opened :
          (o : Option (Tunnel K))
          → Beside number s
              (elim o as (λ x. Client A K) [ none ↦ s | some t ↦ update_connection number c t s ])
      opened none = (refl, refl, λ k h. refl)
      opened (some t) = update_connection-Beside number c t s

  create_connection-InSlot :
      (draws : List ℕ) (remote : Option (Endpoint A)) (draw : ℕ → List ℕ) (index : ℕ)
      (s : Client A K)
      → Holds
          (λ (r : ℕ × Client A K). InSlot index s r.0 r.1)
          (create_connection libs m draws remote draw index s)
  unfolding create_connection
  create_connection-InSlot draws remote draw index s =
      bind-Holds Made (next_conv s.transports draws) _ (λ conv.
        bind-Holds Made remote _ (λ endpoint.
          bind-Holds Made (make_tunnel libs m conv s.config.base true none draw) _ (λ t. record {
            rr = refl;
            slots = length-set s.muxes index (some s.next_number);
            others = λ i h. get_or-set_ne s.muxes index i (some s.next_number) none h;
            used = inl refl;
            connections = λ k h. find-cons_ne s.next_number k _ s.connections h;
          })))
    where
      Made : ℕ × Client A K → Type 0
      Made r = InSlot index s r.0 r.1

  ensure_session-InSlot :
      (draws : List ℕ) (remote : Option (Endpoint A)) (draw : ℕ → List ℕ) (index : ℕ)
      (s : Client A K)
      → Holds
          (λ (r : ℕ × Client A K). InSlot index s r.0 r.1)
          (ensure_session libs m draws remote draw index s)
  unfolding ensure_session
  ensure_session-InSlot draws remote draw index s = go (slot_number libs m s index) refl
    where
      Made : ℕ × Client A K → Type 0
      Made r = InSlot index s r.0 r.1

      created : Holds Made (create_connection libs m draws remote draw index s)
      created = create_connection-InSlot draws remote draw index s

      held :
          (number : ℕ)
          → slot_number libs m s index ≡ some number
          → (o : Option (Connection A K))
          → Holds Made
              (elim (elim o as (λ x. Option (ℕ × Connection A K)) [
                | none ↦ none
                | some c ↦ some (number, c)
              ])
                as (λ x. Option (ℕ × Client A K)) [
                  | none ↦ create_connection libs m draws remote draw index s
                  | some h ↦
                      if reusable libs m s h.1
                      then some (h.0, s)
                      else create_connection libs m draws remote draw index s
                ])
      held number there none = created
      held number there (some c) =
          either (Holds Made) (reusable libs m s c) (some (number, s)) _
            (record {
              rr = refl;
              slots = refl;
              others = λ i h. refl;
              used = inr there;
              connections = λ k h. refl;
            })
            created

      go :
          (o : Option ℕ)
          → slot_number libs m s index ≡ o
          → Holds Made (elim (connection_of libs m s o) as (λ x. Option (ℕ × Client A K)) [
            | none ↦ create_connection libs m draws remote draw index s
            | some h ↦
                if reusable libs m s h.1
                then some (h.0, s)
                else create_connection libs m draws remote draw index s
          ])
      go none q = created
      go (some number) q = held number q (find number s.connections)

  -- A socket goes to the slot of the counter, which moves one on: no other slot changes, and no connection but the one
  -- of that slot and a new one.
  pub record Served (s t : Client A K) : Type 0 where
    pub next : t.rr ≡ (s.rr + 1) % 2 ^ 64
    pub slots : length t.muxes ≡ length s.muxes
    pub others : (i : ℕ) → s.rr % length s.muxes ≢ i → get_or t.muxes i none ≡ get_or s.muxes i none
    pub connections :
        (k : ℕ)
        → s.next_number ≢ k
        → slot_number libs m s (s.rr % length s.muxes) ≢ some k
        → find k t.connections ≡ find k s.connections

  -- Each accepted socket, whatever exception is caught, also where its peer has left it, moves the counter `rr_` one
  -- on, modulo 2 ^ 64, and leaves the count of the slots and each slot but the counter's as they were. Each connection
  -- but the one of that slot and a new one is what it was, with its session and its streams.
  pub handle_accept-Served :
      (draws : List ℕ) (remote : Option (Endpoint A)) (draw : ℕ → List ℕ) (gone : Bool)
      (s : Client A K)
      → Served s (handle_accept libs m draws remote draw gone s)
  unfolding handle_accept
  handle_accept-Served draws remote draw gone s =
      go (ensure_session libs m draws remote draw index s')
        (ensure_session-InSlot draws remote draw index s')
    where
      index : ℕ
      index = s.rr % length s.muxes

      s' : Client A K
      s' = record s { rr = (s.rr + 1) % 2 ^ 64 }

      not_used :
          (number k : ℕ)
          → (number ≡ s.next_number) ⊎ (slot_number libs m s index ≡ some number)
          → s.next_number ≢ k
          → slot_number libs m s index ≢ some k
          → number ≢ k
      not_used number k (inl e) fresh slot q = fresh (sym e ∙ q)
      not_used number k (inr e) fresh slot q = slot (e ∙ ap some q)

      go :
          (o : Option (ℕ × Client A K))
          → Holds (λ (r : ℕ × Client A K). InSlot index s' r.0 r.1) o
          → Served s (elim o as (λ x. Client A K) [
            | none ↦ s'
            | some (number, s'') ↦ open_in libs m gone number s'' (find number s''.connections)
          ])
      go none k = record {
        next = refl;
        slots = refl;
        others = λ i h. refl;
        connections = λ i h q. refl;
      }
      go (some (number, s'')) k =
          let same = open_in-Beside gone number s'' (find number s''.connections) in
          record {
            next = same.0 ∙ k.rr;
            slots = ap length same.1 ∙ k.slots;
            others = λ i h. ap (λ slots. get_or slots i none) same.1 ∙ k.others i h;
            connections = λ i fresh slot.
                same.2 i (not_used number i k.used fresh slot) ∙ k.connections i fresh;
          }
