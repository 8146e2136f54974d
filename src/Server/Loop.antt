-- ===== src/Server/Loop.antt =====
-- The loop of `server` in server/server.c over the events of `epoll_wait`, and the delay `nop`.
pub mod Laws
pub mod Nop
use da_bao.Base.{
  ℕ, zero, suc, Bool, List, [], ◌∷◌, ◌++◌, ◌==◌, leb, Option, some, none, if◌then◌else◌,
}
use da_bao.Base.Int.{ℤ, pos, ◌+ℤ◌, ◌-ℤ◌, ◌*ℤ◌, to_u32, signed32}
use da_bao.Base.Options.{◌>>=◌}
use da_bao.Epoll.{Timeval}
use da_bao.Server.Receive.{
  Server, Ready, Received, Action, dispatch, delete, accept, receive, delete_epoll_event,
  accept_epoll_events, End, process_epollin, deleted, handed, fault,
}

-- An entry of `events` with what the system calls of its handler return: whether each connection
-- that is accepted can be watched, and what the reads give.
pub record Event : Type 0 where
  pub ready : Ready
  pub accepted : List Bool
  pub chunks : List (List ℕ)
  pub end : End
  pub buf : List ℕ

-- A packet for a worker: its index, and the bytes.
abbrev pub Handed : Type 0
Handed = ℕ × List ℕ

abbrev pub of_received : Received → Option (Server × List Handed)
of_received (deleted s) = some (s, [])
of_received (handed thread buf s) = some (s, (thread, buf) ∷ [])
of_received fault = none

abbrev pub of_accepted : Option Server → Option (Server × List Handed)
of_accepted none = none
of_accepted (some s) = some (s, [])

-- The handler that an entry of `events` is given to.
unfoldable pub of_action : Action → Event → Server → Option (Server × List Handed)
unfolding delete_epoll_event accept_epoll_events process_epollin
of_action delete e s = some (delete_epoll_event s, [])
of_action accept e s = of_accepted (accept_epoll_events e.accepted s)
of_action receive e s = of_received (process_epollin e.chunks e.end e.buf s)

-- One round of the loop: the server, and the packet that is handed to a worker, if one is. `none` is
-- the end of the program.
unfoldable pub on_event : Event → Server → Option (Server × List Handed)
unfolding dispatch of_action
on_event e s = of_action (dispatch e.ready) e s

-- The rounds for the events of one or more calls of `epoll_wait`, in order.
unfoldable pub on_events : List Event → Server → Option (Server × List Handed)
unfolding on_event
on_events [] s = some (s, [])
on_events (e ∷ events) s = do
  first ← on_event e s
  rest ← on_events events (first.0)
  some (rest.0, first.1 ++ rest.1)

-- `getTimeDiff`, in microseconds and cut to an `int`.
unfoldable pub get_time_diff : Timeval → Timeval → ℤ
get_time_diff start end =
    signed32
      (to_u32 ((end.tv_sec -ℤ start.tv_sec) *ℤ pos 1000000 +ℤ (end.tv_usec -ℤ start.tv_usec)))

-- The loop of `nop` from reading `i` of the clock on, with at most `fuel` readings: the number of
-- the reading that ends it. The difference is compared as an unsigned number.
unfoldable pub nop_loop : ℕ → Timeval → (ℕ → Timeval) → ℕ → ℕ → Option ℕ
unfolding get_time_diff
nop_loop delay start clock zero i = none
nop_loop delay start clock (suc fuel) i =
    let rest = nop_loop delay start clock fuel (suc i) in
    if leb delay (to_u32 (get_time_diff start (clock i))) then some i else rest

unfoldable pub nop : ℕ → Timeval → (ℕ → Timeval) → ℕ → Option ℕ
unfolding nop_loop
nop delay_in_ms start clock fuel =
    if delay_in_ms == 0 then some 0 else nop_loop delay_in_ms start clock fuel 0
