-- ===== src/Client/Load.antt =====
-- How client/client.c changes the number of its connections while it runs, and how it spreads them
-- over its addresses.
pub mod Laws
use da_bao.Base.{
  ℕ, zero, suc, ◌+◌, ◌*◌, ◌/◌, ◌%◌, ◌-◌, Bool, true, false, List, [], ◌∷◌, ◌==◌, ltb, leb,
  if◌then◌else◌, Option, some, none,
}
use da_bao.Base.Int.{ℤ, pos, ◌+ℤ◌, ◌-ℤ◌, ltb_ℤ, pos_part}
use da_bao.Epoll.{Timeval, Table, set_event_time_efd}
use da_bao.Epoll.Times.{set_virtual_event_time, div_int}
use da_bao.ClientConfig.{max_ports}
use da_bao.Epoll.Bulk.{restore_connections, close_all_connections}
use da_bao.Client.Events.{Client}

-- `MAX_CONN_PER_PORT`
abbrev pub max_conn_per_port : ℕ
max_conn_per_port = 60000

-- `average` and `total` of `createEvents`, when there are addresses to divide by.
pub shares : ℕ → ℕ → ℕ × ℕ
shares connections ips =
    let average = connections / ips in
    if ltb max_conn_per_port average
    then (max_conn_per_port, ips * max_conn_per_port)
    else (average, connections)

-- What `socket`, `bind` and `connect` did for one connection.
pub data Attempt : Type 0 where
  refused : Attempt
  opened : (sockfd : ℕ) → Attempt

-- The loops of `addConnections` and `deleteConnections` over ports with `k` rounds left. The arrays of `params` have `MAXPORTS`
-- entries, which `Client` holds, and an access behind them is `none`.
unfoldable pub port_loop : (Client → Option Client) → ℕ → ℕ → Client → Option Client
port_loop round zero port c = some c
port_loop round (suc k) port c =
    if ltb port max_ports
    then elim (round c) [ none ↦ none | some c' ↦ port_loop round k (suc port) c' ]
    else none

-- The division by the number of ports, and the loop.
unfoldable pub each_port : ℤ → (ℕ → Client → Option Client) → ℕ → Client → Option Client
unfolding port_loop
each_port ports_count round conns c = elim (div_int (pos conns) ports_count) [
  | none ↦ none
  | some conns_per_port ↦ port_loop (round (pos_part conns_per_port)) (pos_part ports_count) 0 c
]

module _ (virtual_delay : ℤ → ℤ → ℤ) (epoch : ℤ) (interval : ℕ) where
  -- The two loops over addresses and connections, whose attempts are listed one after the other.
  pub create_loop : ℕ → ℕ → Timeval → List Attempt → Table → Option Table
  create_loop efd total time [] t = some t
  create_loop efd total time (refused ∷ attempts) t = create_loop efd total time attempts t
  create_loop efd total time (opened sockfd ∷ attempts) t =
      elim (set_virtual_event_time virtual_delay sockfd (pos total) time epoch interval
        (set_event_time_efd efd sockfd t)) [
          | none ↦ none
          | some t' ↦ create_loop efd total time attempts t'
        ]

  -- `attempts` gives what happens to the attempts that are made, by their number. Without an address
  -- the division by their number is `none`.
  unfoldable pub create_events : (ℕ → List Attempt) → ℕ → ℕ → ℕ → Timeval → Table → Option Table
  unfolding shares create_loop
  create_events attempts connections ips efd time t =
      let (average, total) = shares connections ips in
      if ips == 0 then none else create_loop efd total time (attempts (ips * average)) t

  module _ (ports_count : ℤ) (no_value : Bool) (attempts : ℕ → List Attempt) (ips efd : ℕ)
      (now time : Timeval) where
    -- A round of `addConnections`: it restores what it can, opens the rest anew, and counts all.
    unfoldable pub add_to_port : ℕ → Client → Option Client
    unfolding create_events
    add_to_port conns c =
        elim (restore_connections virtual_delay no_value efd conns now epoch interval c.table) [
          | none ↦ none
          | some (restore_left, table) ↦
              elim (create_events attempts restore_left ips efd time table) [
                | none ↦ none
                | some table' ↦
                    some (record c { table = table'; connections = c.connections +ℤ pos conns })
              ]
        ]

    -- A round of `deleteConnections`.
    unfoldable pub delete_from_port : ℕ → Client → Option Client
    delete_from_port conns c = some (record c { close_conns = c.close_conns +ℤ pos conns })

    unfoldable pub add_connections : ℕ → Client → Option Client
    unfolding each_port add_to_port
    add_connections conns c = each_port ports_count add_to_port conns c

    unfoldable pub delete_connections : ℕ → Client → Option Client
    unfolding each_port delete_from_port
    delete_connections conns c = each_port ports_count delete_from_port conns c

    unfoldable pub update_connections : ℤ → ℤ → Client → Option Client
    unfolding add_connections delete_connections
    update_connections prior_conns conns c =
        if ltb_ℤ prior_conns conns
        then add_connections (pos_part (conns -ℤ prior_conns)) c
        else (if ltb_ℤ conns prior_conns
            then delete_connections (pos_part (prior_conns -ℤ conns)) c
            else some c)
