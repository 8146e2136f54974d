-- ===== src/Tests/Client.antt =====
-- The start of the client at concrete inputs.
use da_bao.Base.{ℕ, List, [], ◌∷◌, length, true, some}
use da_bao.Base.Int.{pos}
use da_bao.Epoll.Times.{max_events}
use da_bao.Epoll.Bulk.{init_event_time}
use da_bao.Utils.{init_id_map}
use da_bao.ClientConfig.{get_configs}
use da_bao.Client.Main.{Setup, Calls}
use da_bao.Tests.Load.{percentages, settings, configs}

abbrev calls : Calls
calls = record {
  interfaces = some [];
  known = true;
  now = record { tv_sec = pos 50; tv_usec = pos 0 };
  rand = λ i. i;
  rand' = λ i. i;
  rand_max = 32767;
  port_rc = λ i. pos 0;
  sec_rc = pos 0;
  min_rc = pos 0;
  update_rc = pos 0;
  events_rc = pos 0;
}

abbrev inet_addr : List ℕ → ℕ
inet_addr ip = length ip

abbrev setup : Setup ℕ
setup = record {
  conf = (get_configs percentages 0 (some settings) configs).1;
  alias_ips = [];
  clients = [];
  server = record { sin_port = 36895; sin_addr = 0 } ∷ [];
  table = init_event_time (λ i. i) 32767 max_events (record { tv_sec = pos 50; tv_usec = pos 0 });
  id_map = init_id_map (λ i. i) 32767 1 9;
}
