-- ===== src/Epoll.antt =====
-- client/epoll.c: the table of connections, one entry for each descriptor, and their counts.
-- The arrays are as long as the lists that stand for them; a `timeval` is a pair of integers. The
-- counters are integers, as at most `MAX_EVENTS` connections keep them within an `int`. What a
-- system call returns and what a clock shows are arguments.
pub mod Times
pub mod Bulk
pub mod Laws
use da_bao.Base.{ℕ, Bool, true, false, List, get_or, set, ◌==◌, if◌then◌else◌, Option, some, none}
use da_bao.Base.Int.{ℤ, pos, ◌+ℤ◌, ◌-ℤ◌}

pub record Timeval : Type 0 where
  pub tv_sec : ℤ
  pub tv_usec : ℤ

-- `struct packet_time`; its two flags hold 0 or 1.
pub record PacketTime : Type 0 where
  pub efd : ℕ
  pub last_send : Timeval
  pub last_recv : Timeval
  pub virtual_time : Timeval
  pub sending_flag : Bool
  pub connection_closed : Bool

-- `packets_time` and `epoll_conns_stats`
pub record Table : Type 0 where
  pub packets_time : List PacketTime
  pub connections : ℤ
  pub active_connections : ℤ
  pub dead_connections : ℤ
  pub conns_map : List ℕ

abbrev pub zero_time : Timeval
zero_time = record { tv_sec = pos 0; tv_usec = pos 0 }

abbrev pub zero_packet_time : PacketTime
zero_packet_time = record {
  efd = 0;
  last_send = zero_time;
  last_recv = zero_time;
  virtual_time = zero_time;
  sending_flag = false;
  connection_closed = false;
}

abbrev pub entry : Table → ℕ → PacketTime
entry t fd = get_or t.packets_time fd zero_packet_time

abbrev pub with_entry : Table → ℕ → PacketTime → Table
with_entry t fd p = record t { packets_time = set t.packets_time fd p }

unfoldable pub set_event_time_efd : ℕ → ℕ → Table → Table
set_event_time_efd efd fd t =
    with_entry t fd
      (record (entry t fd) { efd = efd; connection_closed = false; sending_flag = false })

-- `added` is the success of `epoll_ctl`; `none` is the end of the program.
unfoldable pub add_epoll_event : Bool → ℕ → ℕ → Table → Option Table
unfolding set_event_time_efd
add_epoll_event added efd fd t =
    let t' = record (set_event_time_efd efd fd t) {
      connections = t.connections +ℤ pos 1;
      active_connections = t.active_connections +ℤ pos 1;
    } in
    if added then some t' else none

-- A descriptor that is not watched yet is added.
unfoldable pub modify_epoll_event : Bool → Bool → ℕ → ℕ → Table → Option Table
unfolding add_epoll_event
modify_epoll_event modified added efd fd t =
    if modified then some t else add_epoll_event added efd fd t

unfoldable pub delete_epoll_event : ℕ → Table → Table
delete_epoll_event fd t =
    record (with_entry t fd (record (entry t fd) { efd = 0; connection_closed = true })) {
      connections = t.connections -ℤ pos 1;
      active_connections = t.active_connections -ℤ pos 1;
    }

unfoldable pub reset_send_pkt : ℕ → Table → Table
reset_send_pkt fd t = with_entry t fd (record (entry t fd) { sending_flag = false })

-- Whether it returns 1, and the table.
unfoldable pub close_connection : ℕ → ℕ → Table → Bool × Table
close_connection efd fd t =
    if (entry t fd).efd == efd
    then (if (entry t fd).connection_closed then (false, t) else (
      true,
      record (with_entry t fd (record (entry t fd) { connection_closed = true })) {
        active_connections = t.active_connections -ℤ pos 1;
        dead_connections = t.dead_connections +ℤ pos 1;
      },
    ))
    else (false, t)

-- An open connection of `efd` reaches the end of the function without a `return`: `no_value` says
-- whether the caller then finds a 1.
unfoldable pub restore_connection : Bool → ℕ → ℕ → Table → Bool × Table
restore_connection no_value efd fd t =
    if (entry t fd).efd == efd
    then (if (entry t fd).connection_closed
        then (
          true,
          record (with_entry t fd (record (entry t fd) { connection_closed = false })) {
            active_connections = t.active_connections +ℤ pos 1;
            dead_connections = t.dead_connections -ℤ pos 1;
          },
        )
        else (no_value, t))
    else (false, t)
