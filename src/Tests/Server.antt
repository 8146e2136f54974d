-- ===== src/Tests/Server.antt =====
-- The server: which worker a packet goes to, what is read, and what a worker does with it.
use da_bao.Base.{
  ℕ, ◌≡◌, refl, arith, List, [], ◌∷◌, ◌++◌, true, false, some, take, if◌then◌else◌, ◌==◌, ◌&&◌,
}
use da_bao.Base.Int.{pos, ◌+ℤ◌, ◌-ℤ◌}
use da_bao.Payload.{client_set_payload, init_payload}
use da_bao.Ring.{EpollPacket, zero_packet}
use da_bao.Statistics.Server.{Statistics, incre_receive_pkts}
use da_bao.Server.Receive.{
  Server, get_thread_index, dispatch, would_block, end_of_file, handed, process_epollin,
}
use da_bao.Server.Receive.Laws.{process_epollin_last}
use da_bao.Server.Database.{
  Redis, same_text, nil, text_of, process_database, user_device_db, device_state_db, user_key_db,
}
use da_bao.Server.Loop.{Event, on_events}
use da_bao.Server.Loop.Laws.{IsConfigured, Steps, on_events-Steps}
use da_bao.Server.Database.Laws.{same_text_refl, IsStore, known, process_database_lem}
use da_bao.Server.Process.{Delays}
use da_bao.Wire.{build_payload, client_message}
use da_bao.Tests.Wire.{request, identifier, eight}

abbrev stats : Statistics
stats = record {
  send_counter_sec = 0;
  send_counter_min = 0;
  request_counter_sec = 0;
  request_counter_min = 0;
  receive_counter_sec = 0;
  receive_counter_min = 37;
  throughput_sec = 0;
  cipher_delay = 0;
  db_delay = 0;
}

abbrev pub server : Server
server = record { usr_num = pos 4; stats = stats; packets_group = pos 10; threads_num = pos 3 }

abbrev one_more : Server
one_more = record server {
  stats = record stats { receive_counter_sec = 1; receive_counter_min = 38 };
}

two_reads :
    process_epollin ((1 ∷ 2 ∷ []) ∷ (3 ∷ 4 ∷ []) ∷ []) would_block (0 ∷ 0 ∷ 0 ∷ []) server
    ≡ handed 0 (3 ∷ 4 ∷ 0 ∷ []) one_more
unfolding process_epollin get_thread_index incre_receive_pkts
two_reads = refl

process_epollin_last_example :
    (take {A = ℕ} 2 (3 ∷ 4 ∷ 0 ∷ []) ≡ 3 ∷ 4 ∷ [])
    × (one_more.stats ≡ incre_receive_pkts server.stats)
process_epollin_last_example =
    process_epollin_last ((1 ∷ 2 ∷ []) ∷ []) (3 ∷ 4 ∷ []) (0 ∷ 0 ∷ 0 ∷ []) server two_reads

-- A store that never fails, as a function.
abbrev pub Store : Type 0
Store = List ℕ → ℕ → List ℕ

abbrev pub redis : Redis Store
redis = record {
  get = λ r key database. some (r key database);
  set = λ r key value database key' database'.
      if same_text key key' && (database == database') then value else r key' database';
}

redis-IsStore : IsStore redis (λ r. Unit {0})
redis-IsStore = record {
  set_ready = λ r key value database short ready. tt;
  get-set = λ r key value database short short' ready. ground (arith, same_text_refl key);
  get-set_other =
      λ r key value database key' database' short short' h fits fits' ready. ground arith;
}

abbrev pub empty_store : Store
empty_store key database = nil

process_database_lem_example :
    let r' = process_database redis request empty_store in
    (redis.get r' (text_of 7) device_state_db ≡ some (text_of 97))
    × (redis.get r' (text_of 7) user_device_db
        ≡ known (text_of 7) (redis.get empty_store (text_of 7) user_device_db))
    × (redis.get r' (text_of 300) user_key_db
        ≡ known (text_of 7) (redis.get empty_store (text_of 300) user_key_db))
unfolding build_payload client_set_payload init_payload
process_database_lem_example = process_database_lem redis redis-IsStore request empty_store tt

abbrev packet : EpollPacket
packet = record zero_packet { buf = client_message eight request identifier ++ identifier }

abbrev pub delays : Delays
delays = record { cipher_delay = pos 30; db_delay = pos 200 }

abbrev pub accepting : Event
accepting = record {
  ready = record { epollerr = false; epollhup = false; epollin = true; listener = true };
  accepted = true ∷ true ∷ [];
  chunks = [];
  end = would_block;
  buf = [];
}

abbrev pub arriving : Event
arriving = record accepting {
  ready = record { epollerr = false; epollhup = false; epollin = true; listener = false };
  chunks = (3 ∷ 4 ∷ []) ∷ [];
  buf = 0 ∷ 0 ∷ 0 ∷ [];
}

abbrev leaving : Event
leaving = record arriving { end = end_of_file }

abbrev later_server : Server
later_server = record server {
  usr_num = pos 5;
  stats = record stats { receive_counter_sec = 1; receive_counter_min = 38 };
}

three_events :
    on_events (accepting ∷ arriving ∷ leaving ∷ []) server
    ≡ some (later_server, (0, 3 ∷ 4 ∷ 0 ∷ []) ∷ [])
unfolding on_events ◌+ℤ◌ ◌-ℤ◌ incre_receive_pkts
three_events = refl

server-IsConfigured : IsConfigured server
server-IsConfigured = record {
  group = 10;
  threads = 3;
  group_lem = refl;
  threads_lem = refl;
  group_pos = omega arith;
  group_fits = omega arith;
  threads_pos = omega arith;
  threads_few = omega arith;
}

on_events-Steps_example : Steps server later_server ((0, 3 ∷ 4 ∷ 0 ∷ []) ∷ []) 2 1
unfolding dispatch
on_events-Steps_example =
    on_events-Steps (accepting ∷ arriving ∷ leaving ∷ []) server later_server
      ((0, 3 ∷ 4 ∷ 0 ∷ []) ∷ []) server-IsConfigured three_events
