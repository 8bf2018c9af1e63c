-- ===== src/Stats/Counters.antt =====
-- The counters of stats.cpp: a number of 64 bits for each field. An atomic operation is one step.
use shimakaze.Common.{ℕ, ◌+◌, ◌-◌, ◌%◌, ◌^◌, ltb, Bool, if◌then◌else◌, List, get_or, set, replicate}

pub data SnmpField : Type 0 where
  bytes_sent : SnmpField
  bytes_received : SnmpField
  max_conn : SnmpField
  active_opens : SnmpField
  passive_opens : SnmpField
  curr_estab : SnmpField
  in_errs : SnmpField
  in_csum_errors : SnmpField
  kcp_in_errors : SnmpField
  in_pkts : SnmpField
  out_pkts : SnmpField
  in_segs : SnmpField
  out_segs : SnmpField
  in_bytes : SnmpField
  out_bytes : SnmpField
  retrans_segs : SnmpField
  fast_retrans_segs : SnmpField
  early_retrans_segs : SnmpField
  lost_segs : SnmpField
  repeat_segs : SnmpField
  fec_full_shard_set : SnmpField
  fec_parity_shards : SnmpField
  fec_errs : SnmpField
  fec_recovered : SnmpField
  fec_shard_set : SnmpField
  fec_shard_min : SnmpField
  ring_buffer_snd_queue : SnmpField
  ring_buffer_rcv_queue : SnmpField
  ring_buffer_snd_buffer : SnmpField
  oob_packets : SnmpField

abbrev pub index_of : SnmpField → ℕ
index_of bytes_sent = 0
index_of bytes_received = 1
index_of max_conn = 2
index_of active_opens = 3
index_of passive_opens = 4
index_of curr_estab = 5
index_of in_errs = 6
index_of in_csum_errors = 7
index_of kcp_in_errors = 8
index_of in_pkts = 9
index_of out_pkts = 10
index_of in_segs = 11
index_of out_segs = 12
index_of in_bytes = 13
index_of out_bytes = 14
index_of retrans_segs = 15
index_of fast_retrans_segs = 16
index_of early_retrans_segs = 17
index_of lost_segs = 18
index_of repeat_segs = 19
index_of fec_full_shard_set = 20
index_of fec_parity_shards = 21
index_of fec_errs = 22
index_of fec_recovered = 23
index_of fec_shard_set = 24
index_of fec_shard_min = 25
index_of ring_buffer_snd_queue = 26
index_of ring_buffer_rcv_queue = 27
index_of ring_buffer_snd_buffer = 28
index_of oob_packets = 29

abbrev pub Counters : Type 0
Counters = List ℕ

-- The counters when the program starts.
abbrev pub fresh_counters : Counters
fresh_counters = replicate 30 0

abbrev pub gauge : SnmpField → Counters → ℕ
gauge field s = get_or s (index_of field) 0

unfoldable pub snmp_store : SnmpField → ℕ → Counters → Counters
snmp_store field value s = set s (index_of field) value

unfoldable pub snmp_add : SnmpField → ℕ → Counters → Counters
snmp_add field value s = set s (index_of field) ((gauge field s + value) % 2 ^ 64)

unfoldable pub snmp_connection_open : Bool → Counters → Counters
unfolding snmp_store snmp_add
snmp_connection_open active s =
    let opened = snmp_add (if active then active_opens else passive_opens) 1 s in
    let current = (gauge curr_estab opened + 1) % 2 ^ 64 in
    let s' = snmp_add curr_estab 1 opened in
    if ltb (gauge max_conn s') current then snmp_store max_conn current s' else s'

unfoldable pub snmp_connection_close : Counters → Counters
unfolding snmp_store
snmp_connection_close s =
    if ltb 0 (gauge curr_estab s) then snmp_store curr_estab (gauge curr_estab s - 1) s else s
