-- ===== src/Statistics/Client.antt =====
-- client/statistics.c; what it shares with the server's version has the same names.
pub mod Laws
use da_bao.Base.{ℕ, ◌+◌, ◌*◌, ◌/◌, Option, some, none, u32, u64, ◌==◌, if◌then◌else◌, ◌>>>◌}
use da_bao.Base.{List, [], ◌∷◌}
use da_bao.Base.Int.{ℤ, pos, to_u32, to_u64, ltb_ℤ, signed32}

-- `MTU` and `RTT_MAX`
abbrev pub mtu : ℕ
mtu = 200

abbrev pub rtt_max : ℕ
rtt_max = 1000000

pub record Statistics : Type 0 where
  pub send_counter_sec : ℕ
  pub send_counter_min : ℕ
  pub request_counter_sec : ℕ
  pub request_counter_min : ℕ
  pub receive_counter_sec : ℕ
  pub receive_counter_min : ℕ
  pub throughput_sec : ℕ
  pub rtt_sum : ℕ
  pub rtt_max_seen : ℕ

pub reset_sec_stats : Statistics → Statistics
reset_sec_stats stats = record stats {
  send_counter_sec = 0;
  request_counter_sec = 0;
  receive_counter_sec = 0;
  rtt_sum = 0;
  throughput_sec = 0;
  rtt_max_seen = 0;
}

pub reset_min_stats : Statistics → Statistics
reset_min_stats stats = record stats {
  send_counter_min = 0;
  request_counter_min = 0;
  receive_counter_min = 0;
}

-- The numbers that `throughput_sec` prints: mean and greatest round trip only if one was measured.
pub record SecReport : Type 0 where
  pub packets : ℕ
  pub requests : ℕ
  pub receives : ℕ
  pub rev_tput : ℕ
  pub round_trips : Option (ℕ × ℕ)

pub sec_report : Statistics → SecReport
sec_report stats = record {
  packets = stats.send_counter_sec;
  requests = stats.request_counter_sec;
  receives = stats.receive_counter_sec;
  rev_tput = stats.throughput_sec >>> 17;
  round_trips =
      if stats.receive_counter_sec == 0
      then none
      else some (stats.rtt_sum / stats.receive_counter_sec, stats.rtt_max_seen);
}

pub throughput_sec : Statistics → SecReport × Statistics
unfolding sec_report reset_sec_stats
throughput_sec stats = (sec_report stats, reset_sec_stats stats)

pub throughput_min : Statistics → (ℕ × ℕ × ℕ) × Statistics
unfolding reset_min_stats
throughput_min stats = (
  (stats.send_counter_min, stats.request_counter_min, stats.receive_counter_min),
  reset_min_stats stats,
)

unfoldable pub incre_send_pkts : Statistics → Statistics
incre_send_pkts stats = record stats {
  send_counter_sec = u32 (stats.send_counter_sec + 1);
  send_counter_min = u32 (stats.send_counter_min + 1);
  throughput_sec = u64 (stats.throughput_sec + mtu);
}

unfoldable pub incre_request_pkts : Statistics → Statistics
incre_request_pkts stats = record stats {
  request_counter_sec = u32 (stats.request_counter_sec + 1);
  request_counter_min = u32 (stats.request_counter_min + 1);
}

-- `RTT > stats.RTT_max` compares an `int` with a `uint32_t`, so both as `uint32_t`.
unfoldable pub incre_receive_pkts : ℤ → Statistics → Statistics
incre_receive_pkts rtt stats =
    if ltb_ℤ rtt (pos rtt_max)
    then record stats {
      receive_counter_sec = u32 (stats.receive_counter_sec + 1);
      receive_counter_min = u32 (stats.receive_counter_min + 1);
      rtt_sum = u64 (stats.rtt_sum + to_u64 rtt);
      rtt_max_seen =
          if ltb_ℤ (pos stats.rtt_max_seen) (pos (to_u32 rtt))
          then to_u32 rtt
          else stats.rtt_max_seen;
    }
    else stats
