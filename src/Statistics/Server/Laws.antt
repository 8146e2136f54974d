-- ===== src/Statistics/Server/Laws.antt =====
-- The counters count, each over its own period.
use da_bao.Base.{ℕ, ◌+◌, ◌*◌, ◌%◌, ◌^◌, ◌≡◌, arith, List, [], ◌∷◌}
use da_bao.Base.{Bool, true, false, if◌then◌else◌}
use da_bao.Base.Int.{to_u64}
use da_bao.Statistics.Server.{Statistics, Event, sent, requested, received, second, minute}
use da_bao.Statistics.Server.{
  db_delayed, cipher_delayed, on_event, run, mtu, reset_sec_stats, reset_min_stats,
}
use da_bao.Statistics.Server.{incre_send_pkts, incre_request_pkts, incre_receive_pkts}
use da_bao.Statistics.Server.{update_db_delay, update_cipher_delay, throughput_sec, throughput_min}

-- The sum of the weights of the events since the last that resets, on top of `n`.
abbrev pub since : (Event → Bool) → (Event → ℕ) → List Event → ℕ → ℕ
since resets weight [] n = n
since resets weight (e ∷ es) n = since resets weight es (if resets e then 0 else n + weight e)

abbrev pub ends_second : Event → Bool
ends_second second = true
ends_second _ = false

abbrev pub ends_minute : Event → Bool
ends_minute minute = true
ends_minute _ = false

abbrev pub is_sent : Event → ℕ
is_sent sent = 1
is_sent _ = 0

abbrev pub is_requested : Event → ℕ
is_requested requested = 1
is_requested _ = 0

abbrev pub is_received : Event → ℕ
is_received received = 1
is_received _ = 0

-- The delay that an event adds, as `uint64_t`.
abbrev pub db_delay_of : Event → ℕ
db_delay_of (db_delayed d) = to_u64 d
db_delay_of _ = 0

abbrev pub cipher_delay_of : Event → ℕ
cipher_delay_of (cipher_delayed d) = to_u64 d
cipher_delay_of _ = 0

-- The true sums that the counters of a state stand for.
pub record Sums : Type 0 where
  pub sends_sec : ℕ
  pub sends_min : ℕ
  pub requests_sec : ℕ
  pub requests_min : ℕ
  pub receives_sec : ℕ
  pub receives_min : ℕ
  pub db_delays : ℕ
  pub cipher_delays : ℕ

-- Every counter is its sum, in the width of its field.
pub record Counts (s : Statistics) (n : Sums) : Type 0 where
  pub send_sec : s.send_counter_sec ≡ n.sends_sec % 2 ^ 32
  pub send_min : s.send_counter_min ≡ n.sends_min % 2 ^ 32
  pub request_sec : s.request_counter_sec ≡ n.requests_sec % 2 ^ 32
  pub request_min : s.request_counter_min ≡ n.requests_min % 2 ^ 32
  pub receive_sec : s.receive_counter_sec ≡ n.receives_sec % 2 ^ 32
  pub receive_min : s.receive_counter_min ≡ n.receives_min % 2 ^ 32
  pub throughput : s.throughput_sec ≡ mtu * n.sends_sec % 2 ^ 64
  pub db : s.db_delay ≡ n.db_delays % 2 ^ 64
  pub cipher : s.cipher_delay ≡ n.cipher_delays % 2 ^ 64

abbrev pub sums_after : List Event → Sums → Sums
sums_after es n = record {
  sends_sec = since ends_second is_sent es n.sends_sec;
  sends_min = since ends_minute is_sent es n.sends_min;
  requests_sec = since ends_second is_requested es n.requests_sec;
  requests_min = since ends_minute is_requested es n.requests_min;
  receives_sec = since ends_second is_received es n.receives_sec;
  receives_min = since ends_minute is_received es n.receives_min;
  db_delays = since ends_second db_delay_of es n.db_delays;
  cipher_delays = since ends_second cipher_delay_of es n.cipher_delays;
}

on_event-Counts :
    (e : Event) {s : Statistics} {n : Sums}
    → Counts s n
    → Counts (on_event e s) (sums_after (e ∷ []) n)
unfolding on_event reset_sec_stats reset_min_stats throughput_sec throughput_min incre_send_pkts
    incre_request_pkts incre_receive_pkts update_db_delay update_cipher_delay
on_event-Counts sent c = omega arith
on_event-Counts requested c = omega arith
on_event-Counts received c = omega arith
on_event-Counts second c = omega arith
on_event-Counts minute c = omega arith
on_event-Counts (db_delayed d) c = omega arith
on_event-Counts (cipher_delayed d) c = omega arith

-- If the counters are the given sums modulo the widths of their fields, then after any sequence of
-- events each is its sum since the report that last reset it, modulo the width of its field.
pub run-Counts :
    (es : List Event) {s : Statistics} {n : Sums} → Counts s n → Counts (run es s) (sums_after es n)
unfolding run
run-Counts [] c = c
run-Counts (e ∷ es) c = run-Counts es (on_event-Counts e c)
