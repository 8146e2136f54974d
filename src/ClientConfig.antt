-- ===== src/ClientConfig.antt =====
-- client/client_config.c: the settings of the client, read at the start and every five seconds.
-- libconfig is a parameter: what it delivers is a `Settings`. So are the numbers `double` and what
-- is computed with them.
pub mod Laws
use da_bao.Base.{
  ℕ, zero, suc, ◌+◌, Bool, true, false, not, ◌==◌, ltb, List, [], ◌∷◌, length, take, drop, ◌++◌,
  if◌then◌else◌, Option, some, none,
}
use da_bao.Base.Int.{ℤ, pos, to_u32, ◌*ℤ◌, ◌+ℤ◌}
use da_bao.Epoll.Times.{int_of, div_int, s_to_us}
use mathlib.Core.Option

-- `MAXPORTS`, `INCRE`, `DECRE` and `EXIT_FAILURE`
abbrev pub max_ports : ℕ
max_ports = 1

abbrev pub incre : ℕ
incre = 1

abbrev pub decre : ℕ
decre = 2

abbrev pub exit_failure : ℕ
exit_failure = 1

-- `BASE_CONNS`
abbrev pub base_conns : ℕ
base_conns = 100000

-- A file that libconfig could parse; `none` is a lookup that fails.
pub record Settings (D : Type 0) : Type 0 where
  pub epoch : Option ℤ
  pub connections : Option ℤ
  pub burst : Option ℤ
  pub ports : List ℤ
  pub request_rate : Option D
  pub dest_ip : List ℕ
  pub dev : List ℕ
  pub sid_start : Option ℤ
  pub sid_end : Option ℤ
  pub unit_delay : Option D
  pub kill : Option ℤ

-- `struct epoll_configs`
pub record EpollConfigs (D : Type 0) : Type 0 where
  pub dest_ip : List ℕ
  pub ports : List ℤ
  pub ports_count : ℤ
  pub dev : List ℕ
  pub request_rate : D
  pub epoch : ℤ
  pub connections : ℤ
  pub burst : ℤ
  pub sid_start : ℤ
  pub sid_end : ℤ
  pub kill : ℤ
  pub unit_delay : D
  pub interval : ℤ

-- The `double`s: their constants, tests and operations, the conversion of an `int` and the cut to an
-- `int`.
pub record Doubles (D : Type 0) : Type 0 where
  pub zero_double : D
  pub one_double : D
  pub above_one : D → Bool
  pub below_zero : D → Bool
  pub differs : D → D → Bool
  pub of_int : ℤ → D
  pub divide : D → D → D
  pub multiply : D → D → D
  pub to_int : D → ℤ

module _ {D : Type 0} (doubles : Doubles D) where
  unfoldable pub valid_request_rate : D → D
  valid_request_rate rate =
      if doubles.above_one rate
      then doubles.one_double
      else if doubles.below_zero rate
      then doubles.zero_double
      else rate

  -- `initConfigs` initialises a structure that it allocates, and its caller never sees it.
  unfoldable pub init_configs : EpollConfigs D → EpollConfigs D
  init_configs conf = conf

  -- `(connections * 1.0) / (BASE_CONNS * 1.0) * burst`, stored in an `int`
  unfoldable pub scale : ℤ → ℤ → ℤ
  scale connections burst = doubles.to_int (
      doubles.multiply
        (doubles.divide (doubles.of_int connections) (doubles.of_int (pos base_conns)))
        (doubles.of_int burst))

  -- The lines that follow a change of the connections or of the burst.
  unfoldable pub with_interval : EpollConfigs D → EpollConfigs D
  unfolding scale
  with_interval conf =
      let burst = scale conf.connections conf.burst in
      record conf {
        burst = burst;
        interval = elim (div_int (int_of (pos s_to_us *ℤ conf.epoch)) conf.connections) [
          | none ↦ pos 10000
          | some each ↦ int_of (each *ℤ burst)
        ];
      }

  -- `getConfigs` of a file whose strings are there and fit, `rate` being what the local for the
  -- request rate holds if its lookup fails.
  unfoldable pub get_configs : D → Option (Settings D) → EpollConfigs D → ℕ × EpollConfigs D
  unfolding valid_request_rate with_interval
  get_configs rate none conf = (exit_failure, conf)
  get_configs rate (some cfg) conf =
      let ports = take max_ports cfg.ports in
      (
        0,
        record (with_interval (record conf {
          epoch = Option.get_or cfg.epoch conf.epoch;
          connections = Option.get_or cfg.connections conf.connections;
          burst = Option.get_or cfg.burst conf.burst;
        })) {
          ports = ports ++ drop (length ports) conf.ports;
          ports_count = conf.ports_count +ℤ pos (length ports);
          dest_ip = cfg.dest_ip;
          dev = cfg.dev;
          request_rate = valid_request_rate (Option.get_or cfg.request_rate rate);
          sid_start = Option.get_or cfg.sid_start conf.sid_start;
          sid_end = Option.get_or cfg.sid_end conf.sid_end;
          unit_delay = Option.get_or cfg.unit_delay conf.unit_delay;
        },
      )

  -- The flag and the settings after the connections were looked up.
  unfoldable pub update_connections_setting : ℤ → EpollConfigs D → ℕ × EpollConfigs D
  unfolding with_interval
  update_connections_setting connections conf =
      if to_u32 connections == to_u32 conf.connections then (0, conf) else (
        if ltb (to_u32 conf.connections) (to_u32 connections) then incre else decre,
        with_interval (record conf { connections = connections }),
      )

  -- `updateEpoch`: what was stored before a lookup fails stays.
  unfoldable pub update_epoch : Option (Settings D) → EpollConfigs D → ℕ × EpollConfigs D
  unfolding valid_request_rate update_connections_setting
  update_epoch none conf = (exit_failure, conf)
  update_epoch (some cfg) conf = elim cfg.epoch [
    | none ↦ (exit_failure, conf)
    | some epoch ↦ elim cfg.burst [
      | none ↦ (exit_failure, record conf { epoch = epoch })
      | some burst ↦ elim cfg.connections [
        | none ↦ (exit_failure, record conf { epoch = epoch; burst = burst })
        | some connections ↦
            let (flag, conf') =
              update_connections_setting connections
                (record conf { epoch = epoch; burst = burst }) in
            elim cfg.request_rate [
              | none ↦ (exit_failure, conf')
              | some rate ↦
                  let rate' = valid_request_rate rate in
                  let conf'' =
                    if doubles.differs rate' conf'.request_rate
                    then record conf' { request_rate = rate' }
                    else conf' in
                  elim cfg.kill [
                    | none ↦ (exit_failure, conf'')
                    | some kill ↦ (flag, record conf'' { kill = kill })
                  ]
            ]
      ]
    ]
  ]
