-- ===== src/Tests/Settings.antt =====
-- The configuration messages, the statistics and a configuration file.
use da_bao.Base.{ℕ, ◌≡◌, refl, arith, [], ◌∷◌, ◌++◌, replicate, some, none}
use da_bao.Base.Int.{pos}
use da_bao.Serialize.Configs.{
  ClientInitConfigs, ClientUpdateConfigs, IsInitConfigs, IsUpdateConfigs, serialize_init_configs,
  deserialize_init_configs,
}
use da_bao.Serialize.Configs.Laws.{deserialize_init_configs-serialize_init_configs}
use da_bao.Statistics.Server as ServerStats
use da_bao.Statistics.Server.{sent, second, minute, received, run}
use da_bao.Statistics.Server.Laws.{Counts, Sums, sums_after, run-Counts}
use da_bao.Statistics.Client as ClientStats
use da_bao.ServerConfig.{ConfigFile, Locals, Configs, get_configs, success}
use da_bao.ServerConfig.Laws.{IsUsable, get_configs-IsUsable}

abbrev first_configs : ClientInitConfigs
first_configs = record {
  epoch = 1;
  connections = 70000;
  request_rate = 20;
  burst = 5;
  vburst = 1;
  server_ip = replicate 16 b'1';
  server_port = 8080;
}

first_configs-IsInitConfigs : IsInitConfigs first_configs
first_configs-IsInitConfigs = omega arith

deserialize_init_configs-serialize_init_configs_example :
    deserialize_init_configs (serialize_init_configs first_configs ++ (9 ∷ [])) ≡ first_configs
deserialize_init_configs-serialize_init_configs_example =
    deserialize_init_configs-serialize_init_configs first_configs (9 ∷ [])
      first_configs-IsInitConfigs

abbrev next_configs : ClientUpdateConfigs
next_configs = record { epoch = 2; connections = 65536; request_rate = 300; burst = 7 }

next_configs-IsUpdateConfigs : IsUpdateConfigs next_configs
next_configs-IsUpdateConfigs = omega arith

abbrev zero_stats : ServerStats.Statistics
zero_stats = record {
  send_counter_sec = 0;
  send_counter_min = 0;
  request_counter_sec = 0;
  request_counter_min = 0;
  receive_counter_sec = 0;
  receive_counter_min = 0;
  throughput_sec = 0;
  cipher_delay = 0;
  db_delay = 0;
}

abbrev zero_sums : Sums
zero_sums = record {
  sends_sec = 0;
  sends_min = 0;
  requests_sec = 0;
  requests_min = 0;
  receives_sec = 0;
  receives_min = 0;
  db_delays = 0;
  cipher_delays = 0;
}

zero-Counts : Counts zero_stats zero_sums
zero-Counts = omega arith

run-Counts_example :
    Counts
      (run (received ∷ sent ∷ second ∷ sent ∷ minute ∷ []) zero_stats)
      (sums_after (received ∷ sent ∷ second ∷ sent ∷ minute ∷ []) zero_sums)
run-Counts_example = run-Counts (received ∷ sent ∷ second ∷ sent ∷ minute ∷ []) zero-Counts

abbrev zero_round_trips : ClientStats.Statistics
zero_round_trips = record {
  send_counter_sec = 0;
  send_counter_min = 0;
  request_counter_sec = 0;
  request_counter_min = 0;
  receive_counter_sec = 0;
  receive_counter_min = 0;
  throughput_sec = 0;
  rtt_sum = 0;
  rtt_max_seen = 0;
}

-- Too many threads are asked for, and no group of packets.
abbrev pub greedy_file : ConfigFile ℕ
greedy_file = record {
  ports = pos 8080 ∷ [];
  delay_in_ms = some 3;
  threads_num = some (pos 64);
  packets_group = some (pos 0);
  device = some [];
  database_ip = some [];
  database_port = none;
}

abbrev pub old_configs : Configs ℕ
old_configs = record {
  ports = pos 0 ∷ [];
  ports_count = 0;
  delay_in_ms = 0;
  threads_num = pos 1;
  packets_group = pos 1;
  dev = [];
  database_ip = [];
  database_port = pos 6379;
}

abbrev pub new_configs : Configs ℕ
new_configs = record old_configs { ports = pos 8080 ∷ []; ports_count = 1; delay_in_ms = 3 }

abbrev pub no_locals : Locals ℕ
no_locals = record { delay_in_ms = 0; threads_num = pos 0; packets_group = pos 0 }

greedy_read : get_configs no_locals (some greedy_file) old_configs ≡ success new_configs
unfolding get_configs
greedy_read = refl

get_configs-IsUsable_example : IsUsable new_configs
get_configs-IsUsable_example =
    get_configs-IsUsable no_locals (some greedy_file) old_configs greedy_read
