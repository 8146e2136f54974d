-- ===== src/Epoll/Bulk.antt =====
-- The operations of client/epoll.c on many connections.
pub mod Laws
pub mod Restore
use da_bao.Base.{
  ℕ, zero, suc, ◌+◌, Bool, true, false, List, [], ◌∷◌, length, drop, replicate, ◌==◌, leb,
  if◌then◌else◌, Option, some, none,
}
use da_bao.Base.Int.{ℤ, pos, is_zero}
use da_bao.Epoll.{
  Timeval, PacketTime, Table, entry, zero_time, delete_epoll_event, close_connection,
  restore_connection,
}
use da_bao.Epoll.Times.{max_events, set_virtual_event_time}
use da_bao.Utils.{shuffer, count_up}

-- The loop of `closeConnections`: the entries of `connsMap` from `index` on, and `closed_total`.
pub close_loop : ℕ → List ℕ → ℕ → Table → Table
close_loop efd fds zero t = t
close_loop efd [] (suc n) t = t
close_loop efd (fd ∷ fds) (suc n) t =
    let (closed, t') = close_connection efd fd t in
    close_loop efd fds (if closed then n else suc n) t'

-- It starts at index 1, also if that is past the end, and ends at `MAX_EVENTS`.
unfoldable pub close_connections : ℕ → ℕ → Table → Table
unfolding close_loop
close_connections efd num t = close_loop efd (drop 1 t.conns_map) num t

module _ (virtual_delay : ℤ → ℤ → ℤ) (no_value : Bool) where
  -- The loop of `restoreConnections`: what is left to restore, or `none` if a call fails.
  pub restore_loop : ℕ → List ℕ → ℕ → Timeval → ℤ → ℕ → Table → Option (ℕ × Table)
  restore_loop efd fds zero now epoch interval t = some (0, t)
  restore_loop efd [] (suc n) now epoch interval t =
      some (suc n, record t { dead_connections = pos 0 })
  restore_loop efd (fd ∷ fds) (suc n) now epoch interval t =
      let (restored, t') = restore_connection no_value efd fd t in
      elim (is_zero t.dead_connections) [
        | true ↦ some (suc n, record t { dead_connections = pos 0 })
        | false ↦ elim restored [
          | true ↦
              elim (set_virtual_event_time virtual_delay fd t'.connections now epoch interval t') [
                | none ↦ none
                | some t'' ↦ restore_loop efd fds n now epoch interval t''
              ]
          | false ↦ restore_loop efd fds (suc n) now epoch interval t'
        ]
      ]

  unfoldable pub restore_connections : ℕ → ℕ → Timeval → ℤ → ℕ → Table → Option (ℕ × Table)
  unfolding restore_loop
  restore_connections efd num now epoch interval t =
      restore_loop efd t.conns_map num now epoch interval t

-- The loop of `closeAllConnections` with `n` descriptors left, the next being `fd`.
pub close_all_loop : ℕ → ℕ → Table → Table
close_all_loop zero fd t = t
close_all_loop (suc n) fd t =
    close_all_loop n (suc fd) (if (entry t fd).efd == 0 then t else delete_epoll_event fd t)

unfoldable pub close_all_connections : Table → Table
unfolding close_all_loop
close_all_connections t = close_all_loop (length t.packets_time) 0 t

-- `initEventTime` for arrays of `size` entries: the microseconds are set to the seconds. The times
-- of the last packets keep their zeros.
unfoldable pub init_event_time : (ℕ → ℕ) → ℕ → ℕ → Timeval → Table
init_event_time rand rand_max size now = record {
  packets_time = replicate size (record {
    efd = 0;
    last_send = zero_time;
    last_recv = zero_time;
    virtual_time = record { tv_sec = now.tv_sec; tv_usec = now.tv_sec };
    sending_flag = false;
    connection_closed = true;
  });
  connections = pos 0;
  active_connections = pos 0;
  dead_connections = pos 0;
  conns_map = shuffer rand rand_max (count_up 0 size) size;
}
