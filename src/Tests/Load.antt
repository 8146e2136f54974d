-- ===== src/Tests/Load.antt =====
-- The client with three connections, and its settings.
use da_bao.Base.{
  ℕ, ◌+◌, ◌^◌, ◌*◌, ◌/◌, ◌≤◌, ◌<◌, ◌≡◌, refl, ap, arith, List, [], ◌∷◌, true, false, some, none,
  ◌==◌, ltb, not,
}
use native.Mathlib.Nat.{div-mul-le_self, mul-le-mul_right}
use da_bao.Base.Int.{ℤ, pos, ◌-ℤ◌, ◌+ℤ◌, ◌*ℤ◌, pos_part}
use da_bao.Epoll.{
  PacketTime, Table, zero_packet_time, close_connection, modify_epoll_event, delete_epoll_event,
}
use da_bao.Epoll.Times.{set_event_send_time, set_virtual_event_time}
use da_bao.Epoll.Bulk.{close_connections}
use da_bao.Epoll.Times.Laws.{time_of}
use da_bao.Client.Rate.{types, get_pkt_type_num}
use da_bao.Client.Rate.Laws.{requests, types_rounds}
use da_bao.Client.Events.{
  Client, transferred, Around, Event, error, writable, on_writable, on_events, on_wakeup,
  epoll_round,
}
use da_bao.Client.Events.Laws.{Ahead, Woken, epoll_round-Ahead}
use da_bao.Client.Load.{Attempt, update_connections}
use da_bao.Client.Load.Laws.{target}
use da_bao.Client.Update.{updated, update_cfg}
use da_bao.Client.Update.Laws.{update_cfg-target}
use da_bao.ClientConfig.{Settings, EpollConfigs, Doubles, get_configs, update_epoch}
use da_bao.ClientConfig.Laws.{IsRounded, no_interval}
use da_bao.Statistics.Client.{Statistics, incre_send_pkts, incre_request_pkts}

types_rounds_example : ((types 30 (2 * 100) 0).1 ≡ 0) × (requests (types 30 (2 * 100) 0).0 ≡ 2 * 30)
types_rounds_example = types_rounds 30 2 (omega arith)

abbrev busy : PacketTime
busy = record zero_packet_time { efd = 3; sending_flag = true }

abbrev two : Table
two = record {
  packets_time = busy ∷ busy ∷ [];
  connections = pos 2;
  active_connections = pos 2;
  dead_connections = pos 0;
  conns_map = 1 ∷ 0 ∷ [];
}

abbrev no_stats : Statistics
no_stats = record {
  send_counter_sec = 0;
  send_counter_min = 0;
  request_counter_sec = 0;
  request_counter_min = 0;
  receive_counter_sec = 0;
  receive_counter_min = 0;
  throughput_sec = 0;
  rtt_sum = 0;
  rtt_max_seen = 0;
}

abbrev client : Client
client = record {
  table = two;
  stats = no_stats;
  pkt_type_counter = 0;
  connections = pos 5;
  close_conns = pos 0;
}

abbrev around : Around
around = record { modified = true; added = false; now = time_of 50 7; later = time_of 50 9 }

abbrev after_request : Client
after_request = record client {
  table = record two {
    packets_time =
        record busy { virtual_time = time_of 50 0; last_send = time_of 50 9 } ∷ busy ∷ [];
  };
  stats = incre_request_pkts (incre_send_pkts no_stats);
  pkt_type_counter = 1;
}

one_request : on_writable transferred around 30 3 0 10 client ≡ some after_request
unfolding on_writable get_pkt_type_num modify_epoll_event set_event_send_time ◌*ℤ◌
one_request = refl

abbrev after_loss : Client
after_loss = record after_request {
  table = record after_request.table {
    packets_time =
        record busy { virtual_time = time_of 50 0; last_send = time_of 50 9 }
        ∷ record busy { efd = 0; connection_closed = true }
        ∷ [];
    connections = pos 1;
    active_connections = pos 1;
  };
  connections = pos 4;
}

abbrev round : List Event
round = writable transferred around 0 ∷ error 1 ∷ []

one_round : on_events 30 3 10 round client ≡ some after_loss
unfolding on_events on_writable get_pkt_type_num modify_epoll_event set_event_send_time
    delete_epoll_event ◌*ℤ◌ ◌-ℤ◌
one_round = refl

Ahead-three : Ahead (pos 3) client
unfolding ◌+ℤ◌
Ahead-three = refl

-- Two connections are to be closed, of which only one is found.
abbrev closing : Client
closing = record client { close_conns = pos 2 }

abbrev after_closing : Client
after_closing = record closing {
  table = record two {
    packets_time =
        record busy { connection_closed = true }
        ∷ record busy { efd = 0; connection_closed = true }
        ∷ [];
    connections = pos 1;
    active_connections = pos 0;
    dead_connections = pos 1;
  };
  connections = pos 2;
  close_conns = pos 0;
}

closing_round : epoll_round 30 3 10 (error 1 ∷ []) closing ≡ some after_closing
unfolding epoll_round close_connections close_connection delete_epoll_event ◌+ℤ◌ ◌-ℤ◌
closing_round = refl

epoll_round-Ahead_example : Woken (pos 3) 3 closing after_closing (on_wakeup 3 closing).table
epoll_round-Ahead_example =
    epoll_round-Ahead (pos 3) 30 3 10 (error 1 ∷ []) closing (omega arith) (tt, tt) Ahead-three
      closing_round

abbrev no_delay : ℤ → ℤ → ℤ
no_delay epoch groups = pos 0

abbrev no_attempts : ℕ → List Attempt
no_attempts n = []

-- Hundredths, cut off, in place of the numbers `double`.
abbrev pub percentages : Doubles ℕ
percentages = record {
  zero_double = 0;
  one_double = 100;
  above_one = λ x. ltb 100 x;
  below_zero = λ x. false;
  differs = λ x y. not (x == y);
  of_int = λ n. pos_part n * 100;
  divide = λ x y. x * 100 / y;
  multiply = λ x y. x * y / 100;
  to_int = λ x. pos (x / 100);
}

abbrev pub configs : EpollConfigs ℕ
configs = record {
  dest_ip = [];
  ports = pos 0 ∷ [];
  ports_count = pos 0;
  dev = [];
  request_rate = 0;
  epoch = pos 60;
  connections = pos 320;
  burst = pos 0;
  sid_start = pos 0;
  sid_end = pos 0;
  kill = pos 0;
  unit_delay = 0;
  interval = pos 10000;
}

abbrev pub settings : Settings ℕ
settings = record {
  epoch = some (pos 30);
  connections = some (pos 400);
  burst = some (pos 200);
  ports = pos 8080 ∷ [];
  request_rate = some 150;
  dest_ip = [];
  dev = [];
  sid_start = some (pos 1);
  sid_end = some (pos 9);
  unit_delay = none;
  kill = some (pos 0);
}

abbrev AtMost : ℕ → ℕ → ℕ → Type 0
AtMost x n d = x * d ≤ n * 100

below_hundred : (x n d : ℕ) → x * d ≤ n * 100 → n < d → x < 100
below_hundred x n d h lt = grind arith

scaled_le : (x n d b : ℕ) → x * d ≤ n * 100 → x * b * d ≤ n * b * 100
scaled_le x n d b h = omega (arith, mul-le-mul_right b h)

product_le :
    (x n d b : ℕ)
    → x * d ≤ n * 100
    → x * (b * 100) / 100 * (d * 2 ^ 52) ≤ n * b * (2 ^ 52 + 1) * 100
product_le x n d b h =
    let same : x * (b * 100) / 100 ≡ x * b = omega arith in
    rw same (omega (arith, scaled_le x n d b h))

percentages-IsRounded : IsRounded percentages AtMost
percentages-IsRounded = record {
  quotient = λ a b ha hb h. omega (arith, div-mul-le_self (a * 100 * 100) (b * 100));
  product = λ x n d b hb hn h. product_le x n d b h;
  truncated = λ x n d h lt. ap pos (omega (arith, below_hundred x n d h lt));
}

no_interval_example :
    ((get_configs percentages 0 (some settings) configs).1.interval ≡ pos 0)
    × (set_virtual_event_time no_delay 1
          (pos 400)
          (time_of 1 2)
          (pos 30)
          (pos_part (get_configs percentages 0 (some settings) configs).1.interval)
          two
        ≡ none)
no_interval_example =
    no_interval percentages AtMost percentages-IsRounded no_delay 0 settings configs 399 200 1
      (pos 400) (time_of 1 2) (pos 30) two refl refl (omega arith) (omega arith) (omega arith)

-- A file without the order to stop is followed as far as it is read.
abbrev cut : Settings ℕ
cut = record settings { connections = some (pos 300); kill = none }

abbrev one_port : EpollConfigs ℕ
one_port = record configs { ports_count = pos 1 }

abbrev cut_configs : EpollConfigs ℕ
cut_configs = record one_port {
  epoch = pos 30;
  burst = pos 0;
  connections = pos 300;
  interval = pos 0;
  request_rate = 100;
}

abbrev shrinking : Client
shrinking = record client { close_conns = pos 20 }

cut_update :
    update_cfg percentages no_delay false no_attempts 1 3
      (time_of 1 2)
      (time_of 1 3)
      (some cut)
      one_port
      client
    ≡ updated cut_configs shrinking
unfolding update_cfg update_epoch update_connections ◌+ℤ◌ ◌-ℤ◌ ◌*ℤ◌
cut_update = refl

update_cfg-target_example : target shrinking ≡ target client +ℤ (pos 300 -ℤ pos 320)
update_cfg-target_example =
    update_cfg-target percentages no_delay false no_attempts 1 3 (time_of 1 2) (time_of 1 3)
      (some cut) 1 one_port cut_configs client shrinking refl cut_update
