-- ===== src/Server/Sessions.antt =====
-- The sessions of a listener, and the counter of the open connections.
use shimakaze.Common.{
  ℕ, ◌+◌, ◌^◌, ◌<◌, ◌&&◌, not, Bool, true, false, if◌then◌else◌, List, [], ◌∷◌, some, All, length,
  ◌⊎◌, inl, inr, ◌≡◌, refl, ap, ◌∙◌, sym, subst, arith,
}
use shimakaze.Stats.Counters.{gauge, curr_estab, snmp_connection_close}
use shimakaze.Stats.Gauges.{snmp_connection_close-Closed, Closed}
use shimakaze.Endpoint.{Endpoint, Addresses, same_endpoint, endpoint_key}
use shimakaze.Tunnel.{Tunnel}
use shimakaze.Server.Listener.{
  SessionEntry, Listener, find, replace, Search, nobody, single, several, search, on_close,
  update_session,
}
use shimakaze.Server.Table.{
  Distinct, find-All, length-replace, length-erase, Distinct-replace, Distinct-erase, All-replace,
  All-erase, erase-replace, find-later, find-first,
}

module _ {A K : Type 0} (addresses : Addresses A) where
  -- A session that is open, under the key of its endpoint and its conversation.
  abbrev pub IsKeyed : List ℕ × SessionEntry A K → Type 0
  IsKeyed (key, e) =
      (key ≡ endpoint_key addresses e.remote_endpoint e.tunnel.conv)
      × (e.tunnel.closing ≡ false)
      × (e.remote_endpoint.port < 2 ^ 16)

  -- Each session is open and under its key, no key is there twice, and `CurrEstab` is their count and that of the
  -- `others`, which other listeners of the process have.
  pub record IsListener (others : ℕ) (l : Listener A K) : Type 0 where
    pub keyed : All IsKeyed l.sessions
    pub distinct : Distinct l.sessions
    pub sized : length l.stats ≡ 30
    pub counted : gauge curr_estab l.stats ≡ length l.sessions + others

  -- What a search that ends with a single session has found.
  pub search-single :
      (sender : Endpoint A) (target : Search (SessionEntry A K))
      (m : List (List ℕ × SessionEntry A K)) (key : List ℕ) (e : SessionEntry A K)
      → Distinct m
      → search addresses sender target m ≡ single key e
      → (target ≡ single key e)
        ⊎ ((find key m ≡ some e) × (same_endpoint addresses e.remote_endpoint sender ≡ true))
  unfolding search
  search-single sender target [] key e d p = inl p
  search-single sender nobody ((k, x) ∷ rest) key e d p =
      go (same_endpoint addresses x.remote_endpoint sender) refl p
        (λ target q. search-single sender target rest key e d.1 q)
    where
      Fits : Search (SessionEntry A K) → Type 0
      Fits nobody = Unit {0}
      Fits (single k' x') =
          (find k' ((k, x) ∷ rest) ≡ some x')
          × (same_endpoint addresses x'.remote_endpoint sender ≡ true)
      Fits several = Unit {0}

      go :
          (b : Bool)
          → same_endpoint addresses x.remote_endpoint sender ≡ b
          → search addresses sender (if b then single k x else nobody) rest ≡ single key e
          → ((target : Search (SessionEntry A K))
              → search addresses sender target rest ≡ single key e
              → (target ≡ single key e)
                ⊎ ((find key rest ≡ some e)
                    × (same_endpoint addresses e.remote_endpoint sender ≡ true)))
          → (nobody ≡ single key e)
            ⊎ ((find key ((k, x) ∷ rest) ≡ some e)
                × (same_endpoint addresses e.remote_endpoint sender ≡ true))
      go true s q ih = elim (ih (single k x) q) [
        | inl this ↦ inr (subst Fits this (find-first k x rest, s))
        | inr later ↦ inr (find-later key k e x rest d.0 later.0, later.1)
      ]
      go false s q ih = elim (ih nobody q) [
        | inl this ↦ inl this
        | inr later ↦ inr (find-later key k e x rest d.0 later.0, later.1)
      ]
  search-single sender (single k' x') ((k, x) ∷ rest) key e d p =
      go (same_endpoint addresses x.remote_endpoint sender) p
        (λ target q. search-single sender target rest key e d.1 q)
    where
      IsSeveral : Search (SessionEntry A K) → Type 0
      IsSeveral nobody = ⊥
      IsSeveral (single j y) = ⊥
      IsSeveral several = Unit {0}

      go :
          (b : Bool)
          → search addresses sender (if b then several else single k' x') rest ≡ single key e
          → ((target : Search (SessionEntry A K))
              → search addresses sender target rest ≡ single key e
              → (target ≡ single key e)
                ⊎ ((find key rest ≡ some e)
                    × (same_endpoint addresses e.remote_endpoint sender ≡ true)))
          → (single k' x' ≡ single key e)
            ⊎ ((find key ((k, x) ∷ rest) ≡ some e)
                × (same_endpoint addresses e.remote_endpoint sender ≡ true))
      go true q ih = elim (ih several q) [
        | inl this ↦ absurd (subst IsSeveral this tt)
        | inr later ↦ inr (find-later key k e x rest d.0 later.0, later.1)
      ]
      go false q ih = elim (ih (single k' x') q) [
        | inl this ↦ inl this
        | inr later ↦ inr (find-later key k e x rest d.0 later.0, later.1)
      ]
  search-single sender several ((k, x) ∷ rest) key e d p = inl p

  pub update_session-IsListener :
      (others : ℕ) (key : List ℕ) (e : SessionEntry A K) (t : Tunnel K) (l : Listener A K)
      → IsListener others l
      → find key l.sessions ≡ some e
      → t.conv ≡ e.tunnel.conv
      → IsListener others (update_session key e t l)
  unfolding update_session on_close
  update_session-IsListener others key e t l h there same_conv =
      subst (λ c. IsListener others (if t.closing && not c then on_close key e' l' else l'))
        (sym (this.1)) (go t.closing refl)
    where
      this : IsKeyed (key, e)
      this = find-All IsKeyed key l.sessions there h.keyed

      e' : SessionEntry A K
      e' = record e { tunnel = t }

      l' : Listener A K
      l' = record l { sessions = replace key e' l.sessions }

      closed_stats : Closed l.stats (snmp_connection_close l.stats)
      closed_stats = snmp_connection_close-Closed l.stats h.sized

      go :
          (b : Bool)
          → t.closing ≡ b
          → IsListener others (if b && true then on_close key e' l' else l')
      go true closing = record {
        keyed =
            subst (All IsKeyed) (sym (erase-replace key e' l.sessions))
              (All-erase IsKeyed key l.sessions h.keyed);
        distinct =
            Distinct-erase key (replace key e' l.sessions)
              (Distinct-replace key e' l.sessions h.distinct);
        sized = closed_stats.sized ∙ h.sized;
        counted =
            closed_stats.established
            ∙ omega (arith, h.counted, length-erase key l.sessions there)
            ∙ ap (λ m. length m + others) (sym (erase-replace key e' l.sessions));
      }
      go false closing = record {
        keyed =
            All-replace IsKeyed key e' l.sessions
              (
                this.0 ∙ ap (endpoint_key addresses e.remote_endpoint) (sym same_conv),
                closing,
                this.2,
              )
              h.keyed;
        distinct = Distinct-replace key e' l.sessions h.distinct;
        sized = h.sized;
        counted = h.counted ∙ ap (λ n. n + others) (sym (length-replace key e' l.sessions));
      }
