-- ===== src/Client/Connections.antt =====
-- The connections of a client, the conversations in `transports_`, and the counter of the open connections.
use shimakaze.Common.{
  ℕ, ◌<◌, not, ◌&&◌, Bool, true, false, if◌then◌else◌, some, All, length, ◌≡◌, ◌≢◌, refl, ap, ◌∙◌,
  sym, subst, arith,
}
use shimakaze.Stats.Counters.{
  SnmpField, index_of, gauge, curr_estab, snmp_add, snmp_connection_close,
}
use shimakaze.Stats.Gauges.{
  Closed, snmp_connection_close-Closed, length-snmp_add, gauge-snmp_add_ne,
}
use shimakaze.Transport.Keeps.{Keeps}
use shimakaze.Tunnel.{Tunnel}
use shimakaze.Client.State.{
  Connection, Client, contains, erase, find, replace, on_close, update_connection,
}
use shimakaze.Client.Convs.{NoRepeats, NoRepeats-erase, length-erase}
use shimakaze.Client.Table.{
  open_convs, Unique, Unique-replace, All-replace, find-All, contains-open_convs,
  open_convs-replace_same, open_convs-replace_closed,
}

module _ {A K : Type 0} where
  -- A connection is in step with its transport.
  abbrev pub IsInStep : ℕ × Connection A K → Type 0
  IsInStep (number, c) = (c.tunnel.conv ≡ c.conv) × (c.socket_open ≡ not c.tunnel.closing)

  -- `transports_` has the conversations of the open connections, none twice, and `CurrEstab` is their count. Each
  -- connection has the conversation of its transport, and an open socket as long as that is open.
  pub record IsClient (s : Client A K) : Type 0 where
    pub in_step : All IsInStep s.connections
    pub numbered : All (λ e. e.0 < s.next_number) s.connections
    pub unique : Unique s.connections
    pub convs : s.transports ≡ open_convs s.connections
    pub distinct : NoRepeats s.transports
    pub sized : length s.stats ≡ 30
    pub counted : gauge curr_estab s.stats ≡ length s.transports

  pub update_connection-IsClient :
      (number : ℕ) (c : Connection A K) (t : Tunnel K) (s : Client A K)
      → IsClient s
      → find number s.connections ≡ some c
      → Keeps c.tunnel t
      → IsClient (update_connection number c t s)
  unfolding update_connection on_close
  update_connection-IsClient number c t s h there keeps = go t.closing c.tunnel.closing refl refl
    where
      c' : Connection A K
      c' = record c { tunnel = t }

      ended : Connection A K
      ended = record c' { socket_open = false }

      this : IsInStep (number, c)
      this = find-All IsInStep number s.connections there h.in_step

      below : number < s.next_number
      below = find-All (λ e. e.0 < s.next_number) number s.connections there h.numbered

      same :
          t.closing ≡ c.tunnel.closing
          → IsClient (record s { connections = replace number c' s.connections })
      same q = record {
        in_step =
            All-replace IsInStep number c' s.connections (keeps.0 ∙ this.0, this.1 ∙ ap not (sym q))
              h.in_step;
        numbered = All-replace (λ e. e.0 < s.next_number) number c' s.connections below h.numbered;
        unique = Unique-replace number c' s.connections h.unique;
        convs = h.convs ∙ sym (open_convs-replace_same number c' s.connections there refl q);
        distinct = h.distinct;
        sized = h.sized;
        counted = h.counted;
      }

      closed_stats : Closed s.stats (snmp_connection_close s.stats)
      closed_stats = snmp_connection_close-Closed s.stats h.sized

      gone : t.closing ≡ true → c.tunnel.closing ≡ false → IsClient (on_close number c' s)
      gone q o =
          let among : contains c.conv s.transports ≡ true =
            ap (contains c.conv) h.convs ∙ contains-open_convs number s.connections there o in
          record {
            in_step =
                All-replace IsInStep number ended s.connections (keeps.0 ∙ this.0, ap not (sym q))
                  h.in_step;
            numbered =
                All-replace (λ e. e.0 < s.next_number) number ended s.connections below h.numbered;
            unique = Unique-replace number ended s.connections h.unique;
            convs =
                ap (erase c.conv) h.convs
                ∙ sym (
                    open_convs-replace_closed number ended s.connections there
                      (subst NoRepeats h.convs h.distinct) o q);
            distinct = NoRepeats-erase c.conv s.transports h.distinct;
            sized = closed_stats.sized ∙ h.sized;
            counted =
                closed_stats.established
                ∙ omega (arith, h.counted, length-erase c.conv s.transports among);
          }

      go :
          (b d : Bool)
          → t.closing ≡ b
          → c.tunnel.closing ≡ d
          → IsClient (
              if b && not d
              then on_close number c' s
              else record s { connections = replace number c' s.connections })
      go true true q o = same (q ∙ sym o)
      go true false q o = gone q o
      go false true q o = absurd (cc (keeps.1 o, q))
      go false false q o = same (q ∙ sym o)

  -- A counter other than `CurrEstab` is not the connections' concern.
  pub counted-IsClient :
      (f : SnmpField) (n : ℕ) (s : Client A K)
      → index_of f ≢ 5
      → IsClient s
      → IsClient (record s { stats = snmp_add f n s.stats })
  counted-IsClient f n s other h = record {
    in_step = h.in_step;
    numbered = h.numbered;
    unique = h.unique;
    convs = h.convs;
    distinct = h.distinct;
    sized = length-snmp_add f n s.stats ∙ h.sized;
    counted = gauge-snmp_add_ne f curr_estab n s.stats other ∙ h.counted;
  }
