-- ===== src/Client/Update.antt =====
-- The thread of client/client.c that follows the settings, and the one of a port up to its events.
pub mod Laws
use da_bao.Base.{ℕ, Bool, true, false, List, ◌==◌, ◌||◌, if◌then◌else◌, Option, some, none}
use da_bao.Base.Int.{ℤ, pos, negsuc}
use da_bao.Epoll.{Timeval, Table}
use da_bao.Epoll.Bulk.{close_all_connections}
use da_bao.Client.Events.{Client}
use da_bao.Client.Load.{Attempt, create_events, update_connections}
use da_bao.ClientConfig.{Settings, EpollConfigs, Doubles, update_epoch, incre, decre}

-- `conf->kill == 1`
abbrev pub is_kill : ℤ → Bool
is_kill (pos n) = n == 1
is_kill (negsuc n) = false

-- What a pass of `update_cfg` ends with: the table of an exit, or the settings and the client.
pub data Pass (D : Type 0) : Type 0 where
  exited : Table → Pass D
  updated : EpollConfigs D → Client → Pass D
  fault : Pass D

abbrev pub of_client : {D : Type 0} → EpollConfigs D → Option Client → Pass D
of_client conf none = fault
of_client conf (some c) = updated conf c

module _ {D : Type 0} (doubles : Doubles D) (virtual_delay : ℤ → ℤ → ℤ) (no_value : Bool)
    (attempts : ℕ → List Attempt) (ips efd : ℕ) (now time : Timeval) where
  -- `updateConnections` with the settings that were read. A negative interval is not modelled; it
  -- needs negative settings.
  unfoldable pub with_configs : ℤ → EpollConfigs D → ℤ → Client → Option Client
  with_configs (pos interval) conf prior_conns c =
      update_connections virtual_delay conf.epoch interval conf.ports_count no_value attempts ips
        efd now time prior_conns conf.connections c
  with_configs (negsuc n) conf prior_conns c = none

  -- A pass of the loop of `update_cfg` over what the file then holds. `INCRE` is `EXIT_FAILURE`, so
  -- that a file that could not be read whole is followed as far as it was.
  unfoldable pub update_cfg : Option (Settings D) → EpollConfigs D → Client → Pass D
  unfolding with_configs
  update_cfg cfg conf c =
      let (flag, conf') = update_epoch doubles cfg conf in
      if is_kill conf'.kill
      then exited (close_all_connections c.table)
      else (if flag == incre || flag == decre
          then of_client conf' (with_configs conf'.interval conf' conf.connections c)
          else updated conf' c)

  -- `epoll_client` up to `epollLoop`
  unfoldable pub epoll_client : ℤ → ℕ → ℕ → Client → Option Client
  epoll_client epoch interval total c =
      elim (create_events virtual_delay epoch interval attempts total ips efd time c.table) [
        | none ↦ none
        | some table ↦ some (record c { connections = pos total; table = table })
      ]
