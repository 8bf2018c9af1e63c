-- ===== src/Stats/Gauges.antt =====
-- What a connection that opens or closes does to the counters.
use shimakaze.Common.{
  ℕ, ◌+◌, ◌-◌, ◌%◌, ◌^◌, ◌<◌, max, ltb, Bool, true, false, if◌then◌else◌, length, get_or-set_self,
  get_or-set_ne, length-set, ◌≡◌, ◌≢◌, refl, ap₂, ◌∙◌, arith,
}
use shimakaze.Stats.Counters.{
  SnmpField, active_opens, passive_opens, curr_estab, max_conn, index_of, Counters, gauge,
  snmp_store, snmp_add, snmp_connection_open, snmp_connection_close,
}

pub length-snmp_add : (f : SnmpField) (v : ℕ) (s : Counters) → length (snmp_add f v s) ≡ length s
unfolding snmp_add
length-snmp_add f v s = length-set s (index_of f) ((gauge f s + v) % 2 ^ 64)

pub gauge-snmp_add_ne :
    (f g : SnmpField) (v : ℕ) (s : Counters)
    → index_of f ≢ index_of g
    → gauge g (snmp_add f v s) ≡ gauge g s
unfolding snmp_add
gauge-snmp_add_ne f g v s h =
    get_or-set_ne s (index_of f) (index_of g) ((gauge f s + v) % 2 ^ 64) 0 h

gauge-snmp_add_self :
    (f : SnmpField) (v : ℕ) (s : Counters)
    → index_of f < length s
    → gauge f (snmp_add f v s) ≡ (gauge f s + v) % 2 ^ 64
unfolding snmp_add
gauge-snmp_add_self f v s h = get_or-set_self s (index_of f) ((gauge f s + v) % 2 ^ 64) 0 h

-- The last step of `snmp_connection_open`.
abbrev raised : ℕ → Counters → Counters
raised current s = if ltb (gauge max_conn s) current then snmp_store max_conn current s else s

length-raised : (n : ℕ) (s : Counters) → length (raised n s) ≡ length s
unfolding snmp_store
length-raised n s = go (ltb (gauge max_conn s) n)
  where
    go : (b : Bool) → length (if b then snmp_store max_conn n s else s) ≡ length s
    go true = length-set s 2 n
    go false = refl

gauge-raised_ne :
    (n : ℕ) (s : Counters) (f : SnmpField) → 2 ≢ index_of f → gauge f (raised n s) ≡ gauge f s
unfolding snmp_store
gauge-raised_ne n s f h = go (ltb (gauge max_conn s) n)
  where
    go : (b : Bool) → gauge f (if b then snmp_store max_conn n s else s) ≡ gauge f s
    go true = get_or-set_ne s 2 (index_of f) n 0 h
    go false = refl

gauge-raised :
    (n : ℕ) (s : Counters) → 2 < length s → gauge max_conn (raised n s) ≡ max (gauge max_conn s) n
unfolding snmp_store
gauge-raised n s h = go (ltb (gauge max_conn s) n) refl
  where
    go :
        (b : Bool)
        → ltb (gauge max_conn s) n ≡ b
        → gauge max_conn (if b then snmp_store max_conn n s else s) ≡ max (gauge max_conn s) n
    go true e = get_or-set_self s 2 n 0 h ∙ ground (arith, e)
    go false e = ground (arith, e)

abbrev opens_of : Bool → SnmpField
opens_of active = if active then active_opens else passive_opens

-- The two steps before it: the count of the opening side, and `CurrEstab`.
abbrev counted : Bool → Counters → Counters
counted active s = snmp_add (opens_of active) 1 s

abbrev established : Bool → Counters → Counters
established active s = snmp_add curr_estab 1 (counted active s)

abbrev current_of : Bool → Counters → ℕ
current_of active s = (gauge curr_estab (counted active s) + 1) % 2 ^ 64

gauge-counted_ne :
    (active : Bool) (s : Counters) (f : SnmpField)
    → 3 ≢ index_of f
    → 4 ≢ index_of f
    → gauge f (counted active s) ≡ gauge f s
gauge-counted_ne true s f h3 h4 = gauge-snmp_add_ne active_opens f 1 s h3
gauge-counted_ne false s f h3 h4 = gauge-snmp_add_ne passive_opens f 1 s h4

length-counted : (active : Bool) (s : Counters) → length (counted active s) ≡ length s
length-counted active s = length-snmp_add (opens_of active) 1 s

length-established : (active : Bool) (s : Counters) → length (established active s) ≡ length s
length-established active s =
    length-snmp_add curr_estab 1 (counted active s) ∙ length-counted active s

current_lem :
    (active : Bool) (s : Counters)
    → gauge curr_estab s + 1 < 2 ^ 64
    → current_of active s ≡ gauge curr_estab s + 1
current_lem active s c =
    omega (arith, gauge-counted_ne active s curr_estab (omega arith) (omega arith), c)

pub length-snmp_connection_open :
    (active : Bool) (s : Counters) → length (snmp_connection_open active s) ≡ length s
unfolding snmp_connection_open
length-snmp_connection_open active s =
    length-raised (current_of active s) (established active s) ∙ length-established active s

pub curr_estab-snmp_connection_open :
    (active : Bool) (s : Counters)
    → length s ≡ 30
    → gauge curr_estab s + 1 < 2 ^ 64
    → gauge curr_estab (snmp_connection_open active s) ≡ gauge curr_estab s + 1
unfolding snmp_connection_open
curr_estab-snmp_connection_open active s size c =
    gauge-raised_ne (current_of active s) (established active s) curr_estab (omega arith)
    ∙ gauge-snmp_add_self curr_estab 1 (counted active s)
        (omega (arith, size, length-counted active s))
    ∙ current_lem active s c

pub record Opened (active : Bool) (s t : Counters) : Type 0 where
  pub sized : length t ≡ length s
  pub active_count : gauge active_opens t ≡ gauge active_opens s + (if active then 1 else 0)
  pub passive_count : gauge passive_opens t ≡ gauge passive_opens s + (if active then 0 else 1)
  pub established : gauge curr_estab t ≡ gauge curr_estab s + 1
  pub highest : gauge max_conn t ≡ max (gauge max_conn s) (gauge curr_estab s + 1)

active_counted :
    (b : Bool) (s : Counters)
    → length s ≡ 30
    → gauge active_opens s + 1 < 2 ^ 64
    → gauge active_opens (counted b s) ≡ gauge active_opens s + (if b then 1 else 0)
active_counted true s size a =
    gauge-snmp_add_self active_opens 1 s (omega (arith, size)) ∙ omega (arith, a)
active_counted false s size a =
    gauge-snmp_add_ne passive_opens active_opens 1 s (omega arith) ∙ omega arith

passive_counted :
    (b : Bool) (s : Counters)
    → length s ≡ 30
    → gauge passive_opens s + 1 < 2 ^ 64
    → gauge passive_opens (counted b s) ≡ gauge passive_opens s + (if b then 0 else 1)
passive_counted true s size p =
    gauge-snmp_add_ne active_opens passive_opens 1 s (omega arith) ∙ omega arith
passive_counted false s size p =
    gauge-snmp_add_self passive_opens 1 s (omega (arith, size)) ∙ omega (arith, p)

pub snmp_connection_open-Opened :
    (active : Bool) (s : Counters)
    → length s ≡ 30
    → gauge active_opens s + 1 < 2 ^ 64
    → gauge passive_opens s + 1 < 2 ^ 64
    → gauge curr_estab s + 1 < 2 ^ 64
    → Opened active s (snmp_connection_open active s)
unfolding snmp_connection_open
snmp_connection_open-Opened active s size a p c = record {
  sized = length-snmp_connection_open active s;
  active_count = before active_opens (omega arith) (omega arith) ∙ active_counted active s size a;
  passive_count =
      before passive_opens (omega arith) (omega arith) ∙ passive_counted active s size p;
  established = curr_estab-snmp_connection_open active s size c;
  highest =
      gauge-raised (current_of active s) (established active s)
        (omega (arith, size, length-established active s))
      ∙ ap₂ max
          (gauge-snmp_add_ne curr_estab max_conn 1 (counted active s) (omega arith)
            ∙ gauge-counted_ne active s max_conn (omega arith) (omega arith))
          (current_lem active s c);
}
  where
    before :
        (f : SnmpField)
        → 2 ≢ index_of f
        → 5 ≢ index_of f
        → gauge f (snmp_connection_open active s) ≡ gauge f (counted active s)
    before f h2 h5 =
        gauge-raised_ne (current_of active s) (established active s) f h2
        ∙ gauge-snmp_add_ne curr_estab f 1 (counted active s) h5

pub record Closed (s t : Counters) : Type 0 where
  pub sized : length t ≡ length s
  pub others : (f : SnmpField) → 5 ≢ index_of f → gauge f t ≡ gauge f s
  pub established : gauge curr_estab t ≡ gauge curr_estab s - 1

pub snmp_connection_close-Closed :
    (s : Counters) → length s ≡ 30 → Closed s (snmp_connection_close s)
unfolding snmp_connection_close snmp_store
snmp_connection_close-Closed s size = go (ltb 0 (gauge curr_estab s)) refl
  where
    go :
        (b : Bool)
        → ltb 0 (gauge curr_estab s) ≡ b
        → Closed s (if b then snmp_store curr_estab (gauge curr_estab s - 1) s else s)
    go true e = record {
      sized = length-set s 5 (gauge curr_estab s - 1);
      others = λ f h. get_or-set_ne s 5 (index_of f) (gauge curr_estab s - 1) 0 h;
      established = get_or-set_self s 5 (gauge curr_estab s - 1) 0 (omega (arith, size));
    }
    go false e = record { sized = refl; others = λ f h. refl; established = ground (arith, e) }
