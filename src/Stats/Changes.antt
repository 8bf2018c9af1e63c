-- ===== src/Stats/Changes.antt =====
-- What the counters of the connections hold after any opens and closes.
use shimakaze.Common.{
  ℕ, ◌+◌, ◌-◌, ◌^◌, ◌<◌, max, Bool, true, false, if◌then◌else◌, List, [], ◌∷◌, length, ◌≡◌, refl,
  ap, ap₂, ◌∙◌, arith,
}
use shimakaze.Stats.Counters.{
  active_opens, passive_opens, curr_estab, max_conn, Counters, gauge, snmp_connection_open,
  snmp_connection_close,
}
use shimakaze.Stats.Gauges.{Opened, snmp_connection_open-Opened, snmp_connection_close-Closed}

-- A connection that opens, by this side or the other, or one that closes.
pub data Change : Type 0 where
  opened : Bool → Change
  closed : Change

unfoldable pub take_changes : List Change → Counters → Counters
take_changes [] s = s
take_changes (opened active ∷ cs) s = take_changes cs (snmp_connection_open active s)
take_changes (closed ∷ cs) s = take_changes cs (snmp_connection_close s)

-- The connections opened by one side, those that are left, and the most there were at once.
unfoldable pub opened_by : Bool → List Change → ℕ
opened_by side [] = 0
opened_by side (opened true ∷ cs) = (if side then 1 else 0) + opened_by side cs
opened_by side (opened false ∷ cs) = (if side then 0 else 1) + opened_by side cs
opened_by side (closed ∷ cs) = opened_by side cs

unfoldable pub left_of : ℕ → List Change → ℕ
left_of n [] = n
left_of n (opened active ∷ cs) = left_of (n + 1) cs
left_of n (closed ∷ cs) = left_of (n - 1) cs

unfoldable pub peak_of : ℕ → ℕ → List Change → ℕ
peak_of top n [] = top
peak_of top n (opened active ∷ cs) = peak_of (max top (n + 1)) (n + 1) cs
peak_of top n (closed ∷ cs) = peak_of top (n - 1) cs

pub record Counted (cs : List Change) (s t : Counters) : Type 0 where
  pub actives : gauge active_opens t ≡ gauge active_opens s + opened_by true cs
  pub passives : gauge passive_opens t ≡ gauge passive_opens s + opened_by false cs
  pub current : gauge curr_estab t ≡ left_of (gauge curr_estab s) cs
  pub peak : gauge max_conn t ≡ peak_of (gauge max_conn s) (gauge curr_estab s) cs

-- From any 30 counters, over any sequence of connections that open and close with no wrap at 2 ^ 64:
-- `ActiveOpens` and `PassiveOpens` grow by the connections that each side opened, `CurrEstab` is what is
-- left when each opening adds one and each closing takes one off that is there, and `MaxConn` is the
-- highest it was, if that is above what it held.
pub take_changes-Counted :
    (cs : List Change) (s : Counters)
    → length s ≡ 30
    → gauge active_opens s + length cs < 2 ^ 64
    → gauge passive_opens s + length cs < 2 ^ 64
    → gauge curr_estab s + length cs < 2 ^ 64
    → Counted cs s (take_changes cs s)
unfolding take_changes opened_by left_of peak_of
take_changes-Counted [] s size a p c = record {
  actives = omega arith;
  passives = omega arith;
  current = refl;
  peak = refl;
}
take_changes-Counted (opened active ∷ cs) s size a p c =
    step active
      (snmp_connection_open-Opened active s size (omega arith) (omega arith) (omega arith))
      (take_changes-Counted cs (snmp_connection_open active s))
  where
    step :
        (b : Bool)
        → Opened b s (snmp_connection_open b s)
        → (length (snmp_connection_open b s) ≡ 30
            → gauge active_opens (snmp_connection_open b s) + length cs < 2 ^ 64
            → gauge passive_opens (snmp_connection_open b s) + length cs < 2 ^ 64
            → gauge curr_estab (snmp_connection_open b s) + length cs < 2 ^ 64
            → Counted cs (snmp_connection_open b s) (take_changes cs (snmp_connection_open b s)))
        → Counted (opened b ∷ cs) s (take_changes cs (snmp_connection_open b s))
    step true o ih =
        let c' =
          ih (o.sized ∙ size) (omega (arith, o.active_count)) (omega (arith, o.passive_count))
            (omega (arith, o.established)) in
        record {
          actives = omega (arith, c'.actives, o.active_count);
          passives = omega (arith, c'.passives, o.passive_count);
          current = c'.current ∙ ap (λ n. left_of n cs) o.established;
          peak = c'.peak ∙ ap₂ (λ m n. peak_of m n cs) o.highest o.established;
        }
    step false o ih =
        let c' =
          ih (o.sized ∙ size) (omega (arith, o.active_count)) (omega (arith, o.passive_count))
            (omega (arith, o.established)) in
        record {
          actives = omega (arith, c'.actives, o.active_count);
          passives = omega (arith, c'.passives, o.passive_count);
          current = c'.current ∙ ap (λ n. left_of n cs) o.established;
          peak = c'.peak ∙ ap₂ (λ m n. peak_of m n cs) o.highest o.established;
        }
take_changes-Counted (closed ∷ cs) s size a p c =
    let o = snmp_connection_close-Closed s size in
    let others = o.others in
    let c' =
      take_changes-Counted cs (snmp_connection_close s) (o.sized ∙ size)
        (omega (arith, others active_opens (omega arith), a))
        (omega (arith, others passive_opens (omega arith), p)) (omega (arith, o.established, c)) in
    record {
      actives = c'.actives ∙ ap (λ n. n + opened_by true cs) (others active_opens (omega arith));
      passives =
          c'.passives ∙ ap (λ n. n + opened_by false cs) (others passive_opens (omega arith));
      current = c'.current ∙ ap (λ n. left_of n cs) o.established;
      peak = c'.peak ∙ ap₂ (λ m n. peak_of m n cs) (others max_conn (omega arith)) o.established;
    }
