-- ===== src/Client/Main.antt =====
-- `init` and `main` of client/client.c. What the system calls return is an argument; `none` is an
-- exit of the program, an assertion that fails or a write behind an array.
pub mod Laws
use da_bao.Base.{
  ℕ, zero, suc, ◌+◌, Bool, ◌&&◌, List, [], ◌∷◌, take, map, ltb, leb, Option, some, none,
  if◌then◌else◌,
}
use da_bao.Base.Int.{ℤ, pos, negsuc, ltb_ℤ, pos_part, is_zero, to_u32}
use da_bao.Base.Options.{◌>>=◌}
use da_bao.Epoll.{Timeval, Table}
use da_bao.Epoll.Times.{max_events, div_int}
use da_bao.Epoll.Bulk.{init_event_time}
use da_bao.Utils.{init_id_map}
use da_bao.ClientConfig.{Settings, EpollConfigs, Doubles, max_ports, init_configs, get_configs}
use da_bao.Client.Start.{Interface, SockAddr, get_alias_ips, create_clients, create_server}

-- `THREADNUM`
abbrev pub thread_num : ℕ
thread_num = 20

-- `struct epoll_thread`
pub record EpollThread : Type 0 where
  pub total : ℤ
  pub mask : ℕ
  pub port : ℕ

-- What is behind `conf`, `params`, `packets_time` and `map` after `init`.
pub record Setup (D : Type 0) : Type 0 where
  pub conf : EpollConfigs D
  pub alias_ips : List (List ℕ)
  pub clients : List SockAddr
  pub server : List SockAddr
  pub table : Table
  pub id_map : List ℕ

-- What `getifaddrs`, `gethostbyname`, the clock and `pthread_create` say, and what `rand` gives to
-- the two tables.
pub record Calls : Type 0 where
  pub interfaces : Option (List Interface)
  pub known : Bool
  pub now : Timeval
  pub rand : ℕ → ℕ
  pub rand' : ℕ → ℕ
  pub rand_max : ℕ
  pub port_rc : ℕ → ℤ
  pub sec_rc : ℤ
  pub min_rc : ℤ
  pub update_rc : ℤ
  pub events_rc : ℤ

-- `initIDMap`, whose range is not empty. A negative start is not modelled.
unfoldable pub id_map_of : (ℕ → ℕ) → ℕ → ℤ → ℤ → Option (List ℕ)
id_map_of rand rand_max (negsuc a) index_end = none
id_map_of rand rand_max (pos a) index_end =
    if ltb_ℤ (pos a) index_end
    then some (init_id_map rand rand_max a (pos_part index_end))
    else none

-- The loop of `main` over ports with `n` rounds left; `none` is also a division by zero.
unfoldable pub client_threads : (ℕ → ℤ) → ℤ → ℤ → ℕ → ℕ → Option (List EpollThread)
client_threads rc total ports zero n = some []
client_threads rc total ports (suc k) n = elim (div_int total ports) [
  | none ↦ none
  | some share ↦
      if ltb n thread_num && is_zero (rc n)
      then elim (client_threads rc total ports k (suc n)) [
        | none ↦ none
        | some threads ↦ some (record { total = share; mask = n + 1; port = n } ∷ threads)
      ]
      else none
]

-- `main` returns if there is no connection to make.
pub data Started (D : Type 0) : Type 0 where
  returned : Setup D → Started D
  started : Setup D → List EpollThread → Started D

unfoldable pub start_threads : {D : Type 0} → Calls → Setup D → Option (Started D)
unfolding client_threads
start_threads calls setup = do
  let conf = setup.conf
  let ports = pos_part conf.ports_count
  threads ← client_threads calls.port_rc conf.connections conf.ports_count ports 0
  let others =
      is_zero calls.sec_rc
      && (is_zero calls.min_rc && (is_zero calls.update_rc && is_zero calls.events_rc))
  if others then some (started setup threads) else none

module _ {D : Type 0} (doubles : Doubles D) (inet_addr : List ℕ → ℕ) where
  -- `init`, where `conf` is what `malloc` gives and `rate` what the local for the request rate
  -- holds. The result of `getConfigs` is not looked at. The table of keys is `des_key_init`.
  unfoldable pub init : D → Option (Settings D) → EpollConfigs D → Calls → Option (Setup D)
  unfolding init_configs id_map_of
  init rate cfg conf calls = do
    let conf' = (get_configs doubles rate cfg (init_configs doubles conf)).1
    alias_ips ← get_alias_ips conf'.dev calls.interfaces
    id_map ← id_map_of calls.rand' calls.rand_max conf'.sid_start conf'.sid_end
    clients ← create_clients inet_addr alias_ips
    server ← create_server inet_addr calls.known conf'.dest_ip conf'.ports_count conf'.ports
    some (record {
      conf = conf';
      alias_ips = alias_ips;
      clients = clients;
      server = server;
      table = init_event_time calls.rand calls.rand_max max_events calls.now;
      id_map = id_map;
    })

  -- The threads other than those of the ports are created last.
  unfoldable pub main : D → Option (Settings D) → EpollConfigs D → Calls → Option (Started D)
  unfolding init start_threads
  main rate cfg conf calls = do
    setup ← init rate cfg conf calls
    if is_zero setup.conf.connections then some (returned setup) else start_threads calls setup
