-- ===== src/Client/Creation.antt =====
-- A connection that is made has a conversation of its own.
use shimakaze.Common.{
  ℕ, ◌+◌, ◌*◌, ◌^◌, ◌<◌, not, true, false, if◌then◌else◌, List, [], ◌∷◌, Option, none, some, All,
  length, set, ◌≡◌, ap, ◌∙◌, sym, arith,
}
use shimakaze.Common.Int.{at_least_zero, above}
use shimakaze.Stats.Counters.{snmp_connection_open}
use shimakaze.Stats.Gauges.{length-snmp_connection_open, curr_estab-snmp_connection_open}
use shimakaze.Endpoint.{Endpoint}
use shimakaze.Tunnel.{Tunnel, Libraries, Moment, make_tunnel}
use shimakaze.Tunnel.Keeps.{Holds, bind-Holds, bind-Holds_eq, IsNew, make_tunnel-IsNew}
use shimakaze.Client.State.{Connection, Client, contains, next_conv, create_connection}
use shimakaze.Client.Convs.{next_conv-contains}
use shimakaze.Client.Table.{open_convs, find-fresh}
use shimakaze.Client.Connections.{IsClient}

module _ {A K : Type 0} (libs : Libraries K) (m : Moment) where
  pub create_connection-IsClient :
      (draws : List ℕ) (remote : Option (Endpoint A)) (draw : ℕ → List ℕ) (index : ℕ)
      (s : Client A K)
      → IsClient s
      → length s.transports + 1 < 2 ^ 64
      → Holds
          (λ (r : ℕ × Client A K). IsClient r.1)
          (create_connection libs m draws remote draw index s)
  unfolding create_connection open_convs
  create_connection-IsClient draws remote draw index s h room =
      bind-Holds_eq Made (next_conv s.transports draws) _ (λ conv free.
        bind-Holds Made remote _ (λ endpoint.
          bind-Holds_eq Made (make_tunnel libs m conv s.config.base true none draw) _ (λ t made.
            added conv endpoint t (next_conv-contains s.transports draws free)
              (make_tunnel-IsNew libs m conv s.config.base true none draw made))))
    where
      Made : ℕ × Client A K → Type 0
      Made r = IsClient r.1

      added :
          (conv : ℕ) (endpoint : Endpoint A) (t : Tunnel K)
          → contains conv s.transports ≡ false
          → IsNew libs m conv t
          → IsClient (record s {
            connections =
                (
                  s.next_number,
                  record {
                    conv = conv;
                    remote_endpoint = endpoint;
                    tunnel = t;
                    expiry = m.nanos + at_least_zero s.config.autoexpire * 1_000_000_000;
                    socket_open = true;
                  },
                )
                ∷ s.connections;
            next_number = s.next_number + 1;
            transports = conv ∷ s.transports;
            muxes = set s.muxes index (some s.next_number);
            scavenge_timers =
                if above s.config.autoexpire 0
                then (
                  s.next_number,
                  at_least_zero s.config.autoexpire + at_least_zero s.config.scavengettl,
                )
                  ∷ s.scavenge_timers
                else s.scavenge_timers;
            stats = snmp_connection_open true s.stats;
          })
      added conv endpoint t free new = record {
        in_step = ((new.0, ap not (sym new.1)), h.in_step);
        numbered = (omega arith, more s.connections h.numbered);
        unique = (find-fresh s.next_number s.connections h.numbered, h.unique);
        convs =
            ap (◌∷◌ conv) h.convs
            ∙ sym (
                ap
                  (λ b.
                    if◌then◌else◌ {A = List ℕ} b (open_convs s.connections)
                      (conv ∷ open_convs s.connections))
                  new.1);
        distinct = (free, h.distinct);
        sized = length-snmp_connection_open true s.stats ∙ h.sized;
        counted =
            curr_estab-snmp_connection_open true s.stats h.sized (omega (arith, h.counted, room))
            ∙ omega (arith, h.counted);
      }
        where
          more :
              (cs : List (ℕ × Connection A K))
              → All (λ e. e.0 < s.next_number) cs
              → All (λ e. e.0 < s.next_number + 1) cs
          more [] a = tt
          more (x ∷ xs) a = (omega (arith, a.0), more xs a.1)
