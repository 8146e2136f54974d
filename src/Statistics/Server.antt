-- ===== src/Statistics/Server.antt =====
-- server/statistics.c
pub mod Laws
use da_bao.Base.{ℕ, ◌+◌, ◌*◌, ◌/◌, Option, some, none, u32, u64, ◌==◌, if◌then◌else◌, ◌>>>◌}
use da_bao.Base.{List, [], ◌∷◌}
use da_bao.Base.Int.{ℤ, to_u64}

-- `MTU`
abbrev pub mtu : ℕ
mtu = 200

pub record Statistics : Type 0 where
  pub send_counter_sec : ℕ
  pub send_counter_min : ℕ
  pub request_counter_sec : ℕ
  pub request_counter_min : ℕ
  pub receive_counter_sec : ℕ
  pub receive_counter_min : ℕ
  pub throughput_sec : ℕ
  pub cipher_delay : ℕ
  pub db_delay : ℕ

pub reset_sec_stats : Statistics → Statistics
reset_sec_stats stats = record stats {
  send_counter_sec = 0;
  request_counter_sec = 0;
  receive_counter_sec = 0;
  throughput_sec = 0;
  db_delay = 0;
  cipher_delay = 0;
}

pub reset_min_stats : Statistics → Statistics
reset_min_stats stats = record stats {
  send_counter_min = 0;
  request_counter_min = 0;
  receive_counter_min = 0;
}

-- The numbers that `throughput_sec` prints; the delays only if a packet was received.
pub record SecReport : Type 0 where
  pub packets : ℕ
  pub requests : ℕ
  pub send : ℕ
  pub rev_tput : ℕ
  pub delays : Option (ℕ × ℕ)

pub sec_report : Statistics → SecReport
sec_report stats = record {
  packets = stats.receive_counter_sec;
  requests = stats.request_counter_sec;
  send = stats.send_counter_sec;
  rev_tput = stats.throughput_sec >>> 17;
  delays =
      if stats.receive_counter_sec == 0
      then none
      else some (
        stats.db_delay / stats.receive_counter_sec,
        stats.cipher_delay / stats.receive_counter_sec,
      );
}

-- One round of `throughput_sec` after its `sleep`, and one of `throughput_min`.
pub throughput_sec : Statistics → SecReport × Statistics
unfolding sec_report reset_sec_stats
throughput_sec stats = (sec_report stats, reset_sec_stats stats)

-- Send, request and receive packets of the minute.
pub throughput_min : Statistics → (ℕ × ℕ × ℕ) × Statistics
unfolding reset_min_stats
throughput_min stats = (
  (stats.send_counter_min, stats.request_counter_min, stats.receive_counter_min),
  reset_min_stats stats,
)

unfoldable pub incre_send_pkts : Statistics → Statistics
incre_send_pkts stats = record stats {
  send_counter_sec = u32 (stats.send_counter_sec + 1);
  send_counter_min = u32 (stats.send_counter_min + 1);
  throughput_sec = u64 (stats.throughput_sec + mtu);
}

unfoldable pub incre_request_pkts : Statistics → Statistics
incre_request_pkts stats = record stats {
  request_counter_sec = u32 (stats.request_counter_sec + 1);
  request_counter_min = u32 (stats.request_counter_min + 1);
}

unfoldable pub incre_receive_pkts : Statistics → Statistics
incre_receive_pkts stats = record stats {
  receive_counter_sec = u32 (stats.receive_counter_sec + 1);
  receive_counter_min = u32 (stats.receive_counter_min + 1);
}

-- An `int` is converted to `uint64_t` before it is added.
unfoldable pub update_db_delay : ℤ → Statistics → Statistics
update_db_delay delay stats = record stats { db_delay = u64 (stats.db_delay + to_u64 delay) }

unfoldable pub update_cipher_delay : ℤ → Statistics → Statistics
update_cipher_delay delay stats = record stats {
  cipher_delay = u64 (stats.cipher_delay + to_u64 delay);
}

-- What the threads of the server do to the statistics, one after the other.
pub data Event : Type 0 where
  sent requested received second minute : Event
  db_delayed cipher_delayed : ℤ → Event

pub on_event : Event → Statistics → Statistics
unfolding throughput_sec throughput_min
on_event sent stats = incre_send_pkts stats
on_event requested stats = incre_request_pkts stats
on_event received stats = incre_receive_pkts stats
on_event second stats = (throughput_sec stats).1
on_event minute stats = (throughput_min stats).1
on_event (db_delayed d) stats = update_db_delay d stats
on_event (cipher_delayed d) stats = update_cipher_delay d stats

pub run : List Event → Statistics → Statistics
unfolding on_event
run [] stats = stats
run (e ∷ es) stats = run es (on_event e stats)
