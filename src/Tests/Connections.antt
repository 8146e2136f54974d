-- ===== src/Tests/Connections.antt =====
-- Three connections of the epoll descriptor 3, one of them closed.
use da_bao.Base.{ℕ, ◌+◌, ◌*◌, ◌≤◌, ◌<◌, ◌≡◌, refl, arith, [], ◌∷◌, true, false, some, none}
use da_bao.Base.Int.{ℤ, pos, ◌-ℤ◌, ◌+ℤ◌, ◌*ℤ◌}
use da_bao.Utils.{init_id_map}
use da_bao.Utils.Laws.{count_of, init_id_map_lem}
use da_bao.Epoll.{Timeval, PacketTime, Table, zero_packet_time, restore_connection}
use da_bao.Epoll.Bulk.{close_connections, restore_connections}
use da_bao.Epoll.Bulk.Laws.{Closes, close_connections-Closes}
use da_bao.Epoll.Bulk.Restore.{Restores, restore_connections-Restores}
use da_bao.Epoll.Times.{set_virtual_event_time, can_send_pkt, set_event_send_time}
use da_bao.Epoll.Times.Laws.{time_of, epoch_passes}

abbrev sevens : ℕ → ℕ
sevens i = 7

seven_fits : (i : ℕ) → sevens i ≤ 32767
seven_fits i = omega arith

init_id_map_lem_example : count_of 12 (init_id_map sevens 32767 10 14) ≡ 1
init_id_map_lem_example = init_id_map_lem sevens 32767 seven_fits 10 14 12 (omega arith)

abbrev open_entry : PacketTime
open_entry = record zero_packet_time { efd = 3 }

abbrev closed_entry : PacketTime
closed_entry = record open_entry { connection_closed = true }

abbrev three : Table
three = record {
  packets_time = open_entry ∷ closed_entry ∷ open_entry ∷ [];
  connections = pos 3;
  active_connections = pos 2;
  dead_connections = pos 1;
  conns_map = 2 ∷ 0 ∷ 1 ∷ [];
}

close_connections-Closes_example : Closes 3 (0 ∷ 1 ∷ []) 1 three (close_connections 3 1 three)
close_connections-Closes_example = close_connections-Closes 3 1 three (omega arith)

abbrev no_delay : ℤ → ℤ → ℤ
no_delay epoch groups = pos 0

abbrev now : Timeval
now = time_of 100 20

abbrev restored : Table
restored = record three {
  packets_time =
      open_entry
      ∷ record open_entry {
        virtual_time = time_of 120 0;
        last_send = time_of 120 0;
        last_recv = time_of 120 0;
      }
      ∷ open_entry
      ∷ [];
  active_connections = pos 3;
  dead_connections = pos 0;
}

one_restored : restore_connections no_delay false 3 1 now (pos 60) 10000 three ≡ some (0, restored)
unfolding restore_connections restore_connection set_virtual_event_time ◌-ℤ◌ ◌*ℤ◌ ◌+ℤ◌
one_restored = refl

restore_connections-Restores_example : Restores 1 three 0 restored
restore_connections-Restores_example =
    restore_connections-Restores no_delay 3 now (pos 60) 10000 1 three one_restored

abbrev sending : Table
sending = record three {
  packets_time = record open_entry { sending_flag = true } ∷ closed_entry ∷ open_entry ∷ [];
}

sends : can_send_pkt now 0 (pos 60) three ≡ (true, sending)
unfolding can_send_pkt ◌-ℤ◌ ◌*ℤ◌ ◌+ℤ◌
sends = refl

abbrev sent : Table
sent = record three {
  packets_time =
      record open_entry { virtual_time = time_of 100 0; last_send = time_of 100 30 }
      ∷ closed_entry
      ∷ open_entry
      ∷ [];
}

abbrev sent_again : Table
sent_again = record three {
  packets_time =
      record open_entry {
        virtual_time = time_of 100 0;
        last_send = time_of 100 30;
        sending_flag = true;
      }
      ∷ closed_entry
      ∷ open_entry
      ∷ [];
}

sets_time : set_event_send_time now (time_of 100 30) 0 none 10000 three ≡ some sent
unfolding set_event_send_time ◌*ℤ◌
sets_time = refl

sends_again : can_send_pkt (time_of 160 5) 0 (pos 60) sent ≡ (true, sent_again)
unfolding can_send_pkt ◌-ℤ◌ ◌*ℤ◌ ◌+ℤ◌
sends_again = refl

epoch_passes_example : 100 * 1000000 + 20 + 60 * 1000000 < 160 * 1000000 + 5 + 10000
epoch_passes_example =
    epoch_passes 100 20 160 5 0 10000 60 (time_of 100 30) three (omega arith) (omega arith)
      (omega arith) sets_time sends_again
