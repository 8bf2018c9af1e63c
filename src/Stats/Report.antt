-- ===== src/Stats/Report.antt =====
-- The reports of stats.cpp: the JSON text and the records of the log file.
use shimakaze.Common.{
  ℕ, zero, suc, not, ◌&&◌, Bool, true, false, if◌then◌else◌, List, [], ◌∷◌, ◌++◌, append_assoc,
  append-nil, Option, none, some, map, length, take, drop, ◌≡◌, refl, ap, ◌∙◌, sym,
}
use shimakaze.Common.Int.{ℤ, above}
use shimakaze.Common.Text.{codes, same}
use shimakaze.Address.{to_string}
use shimakaze.Smux.State.{is_empty}
use shimakaze.Stats.Counters.{Counters}

abbrev pub field_names : List (List ℕ)
field_names =
    codes "BytesSent"
    ∷ codes "BytesReceived"
    ∷ codes "MaxConn"
    ∷ codes "ActiveOpens"
    ∷ codes "PassiveOpens"
    ∷ codes "CurrEstab"
    ∷ codes "InErrs"
    ∷ codes "InCsumErrors"
    ∷ codes "KCPInErrors"
    ∷ codes "InPkts"
    ∷ codes "OutPkts"
    ∷ codes "InSegs"
    ∷ codes "OutSegs"
    ∷ codes "InBytes"
    ∷ codes "OutBytes"
    ∷ codes "RetransSegs"
    ∷ codes "FastRetransSegs"
    ∷ codes "EarlyRetransSegs"
    ∷ codes "LostSegs"
    ∷ codes "RepeatSegs"
    ∷ codes "FECFullShards"
    ∷ codes "FECParityShards"
    ∷ codes "FECErrs"
    ∷ codes "FECRecovered"
    ∷ codes "FECShardSet"
    ∷ codes "FECShardMin"
    ∷ codes "RingBufferSndQueue"
    ∷ codes "RingBufferRcvQueue"
    ∷ codes "RingBufferSndBuffer"
    ∷ codes "OOBPackets"
    ∷ []

abbrev pub snmp_header : List (List ℕ)
snmp_header = field_names

unfoldable pub snmp_values : Counters → List (List ℕ)
unfolding to_string
snmp_values s = map to_string s

-- The loop of `snmp_json`, with `first` for its first round.
unfoldable pub json_fields : Bool → List (List ℕ) → List (List ℕ) → List ℕ
json_fields first [] values = []
json_fields first (name ∷ names) [] = []
json_fields first (name ∷ names) (value ∷ values) =
    (if first then [] else b',' ∷ [])
    ++ ((b'"' ∷ (name ++ (b'"' ∷ b':' ∷ value))) ++ json_fields false names values)

unfoldable pub snmp_json : Counters → List ℕ
unfolding json_fields snmp_values
snmp_json s = b'{' ∷ (json_fields true field_names (snmp_values s) ++ (b'}' ∷ []))

-- `find` and `replace` from the start on, with fuel for the bytes of the text.
unfoldable pub replace_loop : ℕ → List ℕ → List ℕ → List ℕ → List ℕ
replace_loop zero from to text = text
replace_loop (suc fuel) from to [] = []
replace_loop (suc fuel) from to (c ∷ cs) =
    let found = to ++ replace_loop fuel from to (drop (length from) (c ∷ cs)) in
    let passed = c ∷ replace_loop fuel from to cs in
    if same (take (length from) (c ∷ cs)) from then found else passed

unfoldable pub replace_all : List ℕ → List ℕ → List ℕ → List ℕ
unfolding replace_loop
replace_all text from to = replace_loop (length text) from to text

unfoldable pub go_time_path_to_strftime : List ℕ → List ℕ
unfolding replace_all
go_time_path_to_strftime path =
    let year = replace_all path (codes "2006") (codes "%Y") in
    let short_year = replace_all year (codes "06") (codes "%y") in
    let month = replace_all short_year (codes "01") (codes "%m") in
    let day = replace_all month (codes "02") (codes "%d") in
    let hour = replace_all day (codes "15") (codes "%H") in
    let minute = replace_all hour (codes "04") (codes "%M") in
    replace_all minute (codes "05") (codes "%S")

-- What a record reads of its surroundings: the local time put into a format, the seconds of the clock, what the
-- files hold, and which of them open.
pub record Moment : Type 0 where
  pub put_time : List ℕ → List ℕ
  pub unix_seconds : ℕ
  pub contents : List ℕ → Option (List ℕ)
  pub opens : List ℕ → Bool

abbrev pub size_or_none : Option (List ℕ) → List ℕ
size_or_none none = []
size_or_none (some text) = text

unfoldable pub columns : List (List ℕ) → List ℕ
columns [] = b'\n' ∷ []
columns (value ∷ values) = b',' ∷ (value ++ columns values)

abbrev pub header_line : List ℕ
header_line = codes "Unix" ++ columns field_names

abbrev pub record_line : ℕ → Counters → List ℕ
record_line seconds s = to_string seconds ++ columns (snmp_values s)

-- The file and what it holds then; `none` is the exception of a file that does not open.
unfoldable pub write_csv_record : Moment → List ℕ → Counters → Option (List ℕ × List ℕ)
unfolding go_time_path_to_strftime columns to_string snmp_values
write_csv_record m path s =
    let file = m.put_time (go_time_path_to_strftime path) in
    let old = size_or_none (m.contents file) in
    let header = if is_empty old then header_line else [] in
    if m.opens file then some (file, old ++ (header ++ record_line m.unix_seconds s)) else none

-- `start_snmp_logger` gives a logger.
unfoldable pub starts_logger : List ℕ → ℤ → Bool
starts_logger path interval_seconds = not (is_empty path) && above interval_seconds 0

-- A file that each of the records is appended to, with its clock and its counters.
unfoldable pub log_all :
    (List ℕ → List ℕ) → List ℕ → List (ℕ × Counters) → Option (List ℕ) → Option (List ℕ)
log_all put_time path [] old = old
log_all put_time path ((seconds, s) ∷ rs) old =
    elim (write_csv_record
      (record {
        put_time = put_time;
        unix_seconds = seconds;
        contents = λ file. old;
        opens = λ file. true;
      })
      path s) [
        | none ↦ log_all put_time path rs old
        | some written ↦ log_all put_time path rs (some written.1)
      ]

unfoldable pub lines : List (ℕ × Counters) → List ℕ
lines [] = []
lines ((seconds, s) ∷ rs) = record_line seconds s ++ lines rs

-- Records that go to one file, which opens each time: to a file that holds something they add a line each, in order.
log_all-lines :
    (put_time : List ℕ → List ℕ) (path : List ℕ) (rs : List (ℕ × Counters)) (old : List ℕ)
    → is_empty old ≡ false
    → log_all put_time path rs (some old) ≡ some (old ++ lines rs)
unfolding log_all lines write_csv_record
log_all-lines put_time path [] old h = ap some (sym (append-nil old))
log_all-lines put_time path ((seconds, s) ∷ rs) [] h = cc
log_all-lines put_time path ((seconds, s) ∷ rs) (b ∷ bs) h =
    log_all-lines put_time path rs (b ∷ (bs ++ record_line seconds s)) refl
    ∙ ap (λ t. some (b ∷ t)) (append_assoc bs (record_line seconds s) (lines rs))

-- The records of a log, one or more, that go to one file, which is not there and opens each time: the file
-- then holds the header line once, at its start, and a line for each record, in order.
pub log_all-header :
    (put_time : List ℕ → List ℕ) (path : List ℕ) (seconds : ℕ) (s : Counters)
    (rs : List (ℕ × Counters))
    → log_all put_time path ((seconds, s) ∷ rs) none
      ≡ some (header_line ++ lines ((seconds, s) ∷ rs))
unfolding log_all lines write_csv_record
log_all-header put_time path seconds s rs =
    log_all-lines put_time path rs (header_line ++ record_line seconds s) refl
    ∙ ap some (append_assoc header_line (record_line seconds s) (lines rs))
