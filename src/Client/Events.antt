-- ===== src/Client/Events.antt =====
-- The events of `epollLoop` in client/client.c, for one port. What the system calls return and what
-- the clock shows are arguments; `none` is the end of the program.
pub mod Laws
use da_bao.Base.{
  List, [], ◌∷◌, ℕ, zero, ◌+◌, Bool, true, false, ◌==◌, if◌then◌else◌, Option, some, none,
}
use da_bao.Base.Int.{ℤ, pos, ◌-ℤ◌, ltb_ℤ, pos_part}
use da_bao.Epoll.{Timeval, Table, delete_epoll_event, modify_epoll_event, reset_send_pkt}
use da_bao.Epoll.Times.{set_event_send_time, set_event_recv_time, get_rtt}
use da_bao.Epoll.Bulk.{close_connections}
use da_bao.Client.Rate.{get_pkt_type_num, request_pkt}
use da_bao.Statistics.Client.{Statistics, incre_send_pkts, incre_request_pkts, incre_receive_pkts}

-- The globals that an event changes; the two numbers are those of `params` for the port.
pub record Client : Type 0 where
  pub table : Table
  pub stats : Statistics
  pub pkt_type_counter : ℕ
  pub connections : ℤ
  pub close_conns : ℤ

-- What `read` or `write` returned: -1, 0 or a number of bytes. `harmless` is the errno with which
-- the code goes on: `EINTR` for a write; for a read it is a local that nothing sets.
pub data Count : Type 0 where
  failed : (harmless : Bool) → Count
  closed transferred : Count

-- `deleteEpollEvent` and `params->connections[port] -= 1`
unfoldable pub drop_connection : ℕ → Client → Client
drop_connection fd c = record c {
  table = delete_epoll_event fd c.table;
  connections = c.connections -ℤ pos 1;
}

-- `EPOLLERR` or `EPOLLHUP`
unfoldable pub on_error : ℕ → Client → Client
unfolding drop_connection
on_error fd c = drop_connection fd c

-- The answers of the system around a packet that is written.
pub record Around : Type 0 where
  pub modified : Bool
  pub added : Bool
  pub now : Timeval
  pub later : Timeval

-- What follows a packet of a type that was written.
unfoldable pub after_write : Around → ℕ → ℕ → ℕ → ℕ → Client → Option Client
after_write around efd fd interval type c = elim (type == request_pkt) [
  | true ↦ elim (modify_epoll_event around.modified around.added efd fd c.table) [
    | none ↦ none
    | some table ↦ elim (set_event_send_time around.now around.later fd none interval table) [
      | none ↦ none
      | some table' ↦
          some (record c { table = table'; stats = incre_request_pkts (incre_send_pkts c.stats) })
    ]
  ]
  | false ↦
      elim (set_event_send_time around.now around.later fd none interval
        (reset_send_pkt fd c.table)) [
          | none ↦ none
          | some table' ↦ some (record c { table = table'; stats = incre_send_pkts c.stats })
        ]
]

-- `EPOLLOUT`
unfoldable pub on_writable : Count → Around → ℕ → ℕ → ℕ → ℕ → Client → Option Client
unfolding drop_connection after_write
on_writable count around upper_bound efd fd interval c =
    let (type, counter) = get_pkt_type_num upper_bound c.pkt_type_counter in
    let c' = record c { pkt_type_counter = counter } in
    elim count [
      | failed true ↦ some c'
      | failed false ↦ some (drop_connection fd c')
      | closed ↦ some (drop_connection fd c')
      | transferred ↦ after_write around efd fd interval type c'
    ]

-- `EPOLLIN`
unfoldable pub on_readable : Count → Timeval → ℕ → Client → Option Client
unfolding drop_connection
on_readable (failed true) now fd c = some c
on_readable (failed false) now fd c = some (drop_connection fd c)
on_readable closed now fd c = some (drop_connection fd c)
on_readable transferred now fd c = elim (set_event_recv_time now fd none c.table) [
  | none ↦ none
  | some table ↦
      let table' = reset_send_pkt fd table in
      elim (get_rtt fd table') [
        | none ↦ none
        | some rtt ↦ some (record c { table = table'; stats = incre_receive_pkts rtt c.stats })
      ]
]

-- The start of a round of the loop: connections that `update_cfg` asked to close.
unfoldable pub on_wakeup : ℕ → Client → Client
on_wakeup efd c =
    if ltb_ℤ (pos 0) c.close_conns
    then record c {
      table = close_connections efd (pos_part c.close_conns) c.table;
      connections = c.connections -ℤ c.close_conns;
      close_conns = c.close_conns -ℤ c.close_conns;
    }
    else c

-- One entry of `events`.
pub data Event : Type 0 where
  error : (fd : ℕ) → Event
  writable : Count → Around → (fd : ℕ) → Event
  readable : Count → Timeval → (fd : ℕ) → Event
  other : Event

-- The tests of the loop, in their order.
unfoldable pub on_event : ℕ → ℕ → ℕ → Event → Client → Option Client
unfolding on_error on_writable on_readable
on_event upper_bound efd interval (error fd) c = some (on_error fd c)
on_event upper_bound efd interval (writable count around fd) c =
    on_writable count around upper_bound efd fd interval c
on_event upper_bound efd interval (readable count now fd) c = on_readable count now fd c
on_event upper_bound efd interval other c = some c

-- `for (i=0; i<nfds; i++)`
unfoldable pub on_events : ℕ → ℕ → ℕ → List Event → Client → Option Client
unfolding on_event
on_events upper_bound efd interval [] c = some c
on_events upper_bound efd interval (e ∷ es) c = elim (on_event upper_bound efd interval e c) [
  | none ↦ none
  | some c' ↦ on_events upper_bound efd interval es c'
]

-- A round of `while (1)`.
unfoldable pub epoll_round : ℕ → ℕ → ℕ → List Event → Client → Option Client
unfolding on_wakeup on_events
epoll_round upper_bound efd interval events c =
    on_events upper_bound efd interval events (on_wakeup efd c)
