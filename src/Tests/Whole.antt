-- ===== src/Tests/Whole.antt =====
-- The server started by `main`, and a request that it answers.
use da_bao.Base.{
  List, All, ◌<◌, length, ℕ, zero, suc, ◌≡◌, refl, arith, Bool, true, not, ◌==◌, [], ◌∷◌, some,
}
use da_bao.Base.Int.{pos}
use da_bao.Ring.{ring_buffer_init, ring_buffer_head, ring_buffer_avail}
use da_bao.Ring.Laws.{contents, init-IsValid, contents-init}
use da_bao.ServerConfig.{get_configs, update_epoch}
use da_bao.Statistics.Server.{incre_receive_pkts}
use da_bao.Wire.{client_message}
use da_bao.Server.Receive.{dispatch, get_thread_index}
use da_bao.Server.Loop.{on_event}
use da_bao.Server.Loop.Laws.{IsConfigured}
use da_bao.Server.Database.{process_database}
use da_bao.Server.Start.{init_threads, get_local_ip}
use da_bao.Server.Whole.{
  Whole, Turn, Source, packet_of, put, ring_of, epoll_turn, worker_turn, epoll, settings, turns,
}
use da_bao.Server.Whole.Queues.{of_thread}
use da_bao.Server.Whole.Laws.{Inv, answers}
use da_bao.Server.Whole.Drain.{is_worker, waiting, turns-drain}
use da_bao.Server.Whole.Answer.{arrival, IsIdle, replies_to, message_answered}
use da_bao.Server.Main.{Calls, no_stats, main}
use da_bao.Server.Main.Laws.{Ready, main-Ready, turns-main}
use da_bao.Tests.Server.{server, Store, redis, empty_store, delays, arriving}
use da_bao.Tests.Settings.{greedy_file, old_configs, new_configs, no_locals}
use da_bao.Tests.Wire.{request, request-IsPacket, identifier, eight, replicate-IsBytes}

abbrev source : Source
source = record { efd = 3; fd = 9; recv = 1000 }

abbrev idle_whole : Whole Store ℕ
idle_whole = record {
  conf = new_configs;
  server = server;
  rings = ring_buffer_init ∷ ring_buffer_init ∷ ring_buffer_init ∷ [];
  store = empty_store;
  replies = [];
  handed = [];
  taken = [];
}

init-IsIdle : IsIdle ring_buffer_init
unfolding ring_buffer_init ring_buffer_head
init-IsIdle = record {
  valid = init-IsValid;
  nothing = contents-init;
  slot_size = omega arith;
  slot_bytes = replicate-IsBytes 200 0 (omega arith);
}

rings-IsIdle : (i : ℕ) → IsIdle (ring_of idle_whole.rings i)
unfolding ring_of
rings-IsIdle zero = init-IsIdle
rings-IsIdle (suc zero) = init-IsIdle
rings-IsIdle (suc (suc zero)) = init-IsIdle
rings-IsIdle (suc (suc (suc i))) = init-IsIdle

server-IsConfigured : IsConfigured server
server-IsConfigured = record {
  group = 10;
  threads = 3;
  group_lem = refl;
  threads_lem = refl;
  group_pos = omega arith;
  group_fits = omega arith;
  threads_pos = omega arith;
  threads_few = omega arith;
}

message_answered_example :
    (thread : ℕ) × (w1 : Whole Store ℕ) × (w2 : Whole Store ℕ) × (epoll_turn
        (arrival (client_message eight request identifier) [])
        source
        idle_whole
      ≡ some w1)
    × (worker_turn redis eight thread delays true w1 ≡ some w2)
    × (w2.replies ≡ replies_to request source)
    × (w2.store ≡ process_database redis request empty_store)
    × (contents (ring_of w2.rings thread) ≡ [])
message_answered_example =
    message_answered redis eight request identifier request-IsPacket (omega arith)
      (replicate-IsBytes 16 9 (omega arith)) source idle_whole [] delays true server-IsConfigured
      refl rings-IsIdle

abbrev calls : Calls
calls = record {
  worker_rc = λ i. pos 0;
  port_rc = λ i. pos 0;
  update_rc = pos 0;
  interfaces = some [];
}

abbrev started : Whole Store ℕ
started = record idle_whole {
  server = record server {
    usr_num = pos 0;
    stats = no_stats;
    packets_group = pos 1;
    threads_num = pos 1;
  };
  rings = ring_buffer_init ∷ [];
}

starts :
    main 0 no_locals (some greedy_file) old_configs calls empty_store
    ≡ some (started, record { port = pos 8080; cpu = 1 } ∷ [])
unfolding main get_configs init_threads get_local_ip
starts = refl

main-Ready_example : Ready started
main-Ready_example =
    main-Ready 0 no_locals (some greedy_file) old_configs calls empty_store started
      (record { port = pos 8080; cpu = 1 } ∷ []) starts

abbrev differ : ℕ → ℕ → Bool
differ a b = not (a == b)

abbrev running : Whole Store ℕ
running = record started {
  conf = record new_configs { packets_group = pos 0 };
  server = record started.server { stats = incre_receive_pkts no_stats; packets_group = pos 0 };
  rings = put (3 ∷ 4 ∷ 0 ∷ []) source ring_buffer_init ∷ [];
  handed = (0, packet_of (3 ∷ 4 ∷ 0 ∷ []) source ring_buffer_init) ∷ [];
}

runs :
    turns redis eight differ (epoll arriving source ∷ settings (some greedy_file) ∷ []) started
    ≡ some running
unfolding turns on_event dispatch get_thread_index ring_buffer_avail update_epoch ring_buffer_init
    incre_receive_pkts
runs = refl

turns-main_example : Inv eight running
turns-main_example =
    turns-main redis eight differ 0 no_locals (some greedy_file) old_configs calls empty_store
      started running (record { port = pos 8080; cpu = 1 } ∷ [])
      (epoll arriving source ∷ settings (some greedy_file) ∷ []) starts runs

running-Inv : Inv eight running
running-Inv =
    turns-main redis eight differ 0 no_locals (some greedy_file) old_configs calls empty_store
      started running (record { port = pos 8080; cpu = 1 } ∷ [])
      (epoll arriving source ∷ settings (some greedy_file) ∷ []) starts runs

turns-drain_example :
    (ts : List (Turn ℕ)) × (w' : Whole Store ℕ) × (turns redis eight differ ts running ≡ some w')
    × All (λ t. is_worker t ≡ true) ts
    × (length ts ≡ waiting running.rings 1)
    × (w'.handed ≡ running.handed)
    × ((i : ℕ) → i < 1 → of_thread i w'.taken ≡ of_thread i running.handed)
    × (w'.replies ≡ answers eight w'.taken)
turns-drain_example = turns-drain redis eight differ delays true running running-Inv
