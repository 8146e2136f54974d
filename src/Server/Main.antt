-- ===== src/Server/Main.antt =====
-- `main` of server/server.c, up to its end, and the thread of a port up to its loop.
pub mod Laws
use da_bao.Base.{ℕ, zero, suc, ◌+◌, List, [], ◌∷◌, get_or, Option, some, none, if◌then◌else◌}
use da_bao.Base.Int.{ℤ, pos, is_zero}
use da_bao.Base.Options.{◌>>=◌}
use da_bao.Ring.{RingBuffer}
use da_bao.Statistics.Server.{Statistics}
use da_bao.ServerConfig.{
  Locals, ConfigFile, Configs, Outcome, success, failure, fault, init_configs, get_configs,
}
use da_bao.Server.Receive.{Server}
use da_bao.Server.Start.{Interface, LocalIp, exited, get_local_ip, init_threads, start_server}
use da_bao.Server.Whole.{Whole}

-- `EPOLL_CPU`
abbrev pub epoll_cpu : ℕ
epoll_cpu = 1

-- `struct thread_epoll_info`
pub record ThreadEpollInfo : Type 0 where
  pub port : ℤ
  pub cpu : ℕ

-- `stats` and `usr_num` as the program finds them.
abbrev pub no_stats : Statistics
no_stats = record {
  send_counter_sec = 0;
  send_counter_min = 0;
  request_counter_sec = 0;
  request_counter_min = 0;
  receive_counter_sec = 0;
  receive_counter_min = 0;
  throughput_sec = 0;
  cipher_delay = 0;
  db_delay = 0;
}

-- The loop over ports with `n` rounds left, by what `pthread_create` returns for each.
unfoldable pub ports_loop : (ℕ → ℤ) → List ℤ → ℕ → ℕ → Option (List ThreadEpollInfo)
ports_loop rc ports zero port = some []
ports_loop rc ports (suc n) port =
    if is_zero (rc port)
    then elim (ports_loop rc ports n (suc port)) [
      | none ↦ none
      | some infos ↦
          some (record { port = get_or ports port (pos 0); cpu = port + epoll_cpu } ∷ infos)
    ]
    else none

-- `printServerStarted`; `none` is the end of the program.
unfoldable pub print_server_started : LocalIp → Option (Unit {0})
print_server_started (LocalIp.success ip) = some tt
print_server_started LocalIp.failure = some tt
print_server_started exited = none

-- What is left of `getConfigs`, whose result is not looked at.
abbrev pub of_outcome : {D : Type 0} → Outcome D → Option (Configs D)
of_outcome (success conf) = some conf
of_outcome (failure conf) = some conf
of_outcome fault = none

-- What the system calls of `main` return: `pthread_create` for the workers, the ports and the thread
-- that updates the settings, and `getifaddrs`.
pub record Calls : Type 0 where
  pub worker_rc : ℕ → ℤ
  pub port_rc : ℕ → ℤ
  pub update_rc : ℤ
  pub interfaces : Option (List Interface)

module _ {R D : Type 0} where
  -- The server when `main` ends, and the threads that it starts for its ports. `conf` is what
  -- `malloc` gives, and `store` the database.
  unfoldable pub main :
      D
      → Locals D
      → Option (ConfigFile D)
      → Configs D
      → Calls
      → R
      → Option (Whole R D × List ThreadEpollInfo)
  unfolding init_configs ports_loop print_server_started
  main zero_double locals file conf calls store = do
    conf' ← of_outcome (get_configs locals file (init_configs zero_double conf))
    rings ← init_threads calls.worker_rc conf'.threads_num
    infos ← ports_loop calls.port_rc conf'.ports conf'.ports_count 0
    updating ← (if is_zero calls.update_rc then some (tt {0}) else none)
    printed ← print_server_started (get_local_ip conf'.dev calls.interfaces)
    some (
      record {
        conf = conf';
        server = record {
          usr_num = pos 0;
          stats = no_stats;
          packets_group = conf'.packets_group;
          threads_num = conf'.threads_num;
        };
        rings = rings;
        store = store;
        replies = [];
        handed = [];
        taken = [];
      },
      infos,
    )
