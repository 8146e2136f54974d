-- ===== src/Tests/Start.antt =====
-- The start of both programs and their loops at concrete inputs.
use da_bao.Base.{
  ℕ, zero, suc, ◌<◌, ◌≡◌, refl, arith, true, false, List, [], ◌∷◌, some, none, All, length,
}
use da_bao.Base.Int.{pos, negsuc, ◌+ℤ◌, ◌-ℤ◌, ◌*ℤ◌}
use da_bao.Cluster.Text.{codes}
use da_bao.Epoll.{Timeval, zero_packet_time, Table, modify_epoll_event}
use da_bao.Epoll.Times.{can_send_pkt, get_time_diff}
use da_bao.Client.Start.{Interface, SockAddr, get_alias_ips, create_clients, Control, update_events}
use da_bao.Client.Start.Laws.{aliases, Named, get_alias_ips_lem}
use da_bao.Client.Start.Passes.{Passed, update_events-Passed}
use da_bao.Server.Start.{Address}

abbrev listed : List Address
listed =
    record { sfd = negsuc 0; bound = pos 0 }
    ∷ record { sfd = pos 5; bound = negsuc 0 }
    ∷ record { sfd = pos 6; bound = pos 0 }
    ∷ []

abbrev alias_interface : Interface
alias_interface = record {
  has_addr = true;
  inet = true;
  name = codes "eth0:1";
  host = some (codes "10.0.0.7");
}

abbrev other_interface : Interface
other_interface = record alias_interface { inet = false; host = some (codes "fe80::1") }

abbrev interfaces : List Interface
interfaces = other_interface ∷ alias_interface ∷ []

abbrev inet_addr : List ℕ → ℕ
inet_addr ip = length ip

named : All Named interfaces
named = ((codes "fe80::1", refl), ((codes "10.0.0.7", refl), tt))

get_alias_ips_lem_example :
    (length (aliases (codes "eth0") interfaces) < 300
      → (get_alias_ips (codes "eth0") (some interfaces) ≡ some (aliases (codes "eth0") interfaces))
        × ((clients : List SockAddr) × (create_clients inet_addr (aliases (codes "eth0") interfaces)
              ≡ some clients)
            × (length clients ≡ length (aliases (codes "eth0") interfaces))))
    × (300 < length (aliases (codes "eth0") interfaces)
        → get_alias_ips (codes "eth0") (some interfaces) ≡ none)
get_alias_ips_lem_example = get_alias_ips_lem inet_addr (codes "eth0") interfaces named

-- An open connection whose turn has come, an unused entry, and one that was asked already.
abbrev table : Table
table = record {
  packets_time =
      record zero_packet_time { efd = 4 }
      ∷ zero_packet_time
      ∷ record zero_packet_time { efd = 4; sending_flag = true }
      ∷ [];
  connections = pos 2;
  active_connections = pos 2;
  dead_connections = pos 0;
  conns_map = [];
}

abbrev later : ℕ → Timeval
later i = record { tv_sec = pos 60; tv_usec = pos i }

-- The first connection is not watched yet, the others are.
abbrev controls : ℕ → Control
controls zero = record { modified = false; added = true }
controls (suc f) = record { modified = true; added = false }

abbrev asked_once : Table
asked_once = record table { connections = pos 3; active_connections = pos 3 }

a_pass : update_events later controls (pos 10) 3 0 table ≡ some (asked_once, 0 ∷ [])
unfolding update_events can_send_pkt get_time_diff modify_epoll_event ◌+ℤ◌ ◌-ℤ◌ ◌*ℤ◌
a_pass = refl

update_events-Passed_example : Passed controls 0 table (asked_once, 0 ∷ [])
update_events-Passed_example =
    update_events-Passed later controls (pos 10) 3 0 table asked_once (0 ∷ []) (omega arith) a_pass
