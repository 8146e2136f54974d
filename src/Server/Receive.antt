-- ===== src/Server/Receive.antt =====
-- The epoll thread of server/server.c: connections that come and go, and packets that arrive. What
-- the system calls return is an argument.
pub mod Laws
use da_bao.Base.{
  ℕ, zero, suc, ◌+◌, ◌/◌, ◌%◌, Bool, true, false, List, [], ◌∷◌, ◌++◌, length, take, drop, ◌==◌,
  if◌then◌else◌, Option, some, none,
}
use da_bao.Base.Int.{ℤ, pos, to_u32, ◌+ℤ◌, ◌-ℤ◌}
use da_bao.Payload.{payload_size}
use da_bao.Ring.{EpollPacket}
use da_bao.Statistics.Server.{Statistics, incre_receive_pkts}

-- `usr_num`, `stats` and the two fields of `conf` that choose a worker.
pub record Server : Type 0 where
  pub usr_num : ℤ
  pub stats : Statistics
  pub packets_group : ℤ
  pub threads_num : ℤ

unfoldable pub incr_usr_num : Server → Server
incr_usr_num s = record s { usr_num = s.usr_num +ℤ pos 1 }

unfoldable pub decr_usr_num : Server → Server
decr_usr_num s = record s { usr_num = s.usr_num -ℤ pos 1 }

-- `added` is the success of `epoll_ctl`; `none` is the end of the program.
unfoldable pub add_epoll_event : Bool → Server → Option Server
unfolding incr_usr_num
add_epoll_event added s = if added then some (incr_usr_num s) else none

unfoldable pub delete_epoll_event : Server → Server
unfolding decr_usr_num
delete_epoll_event s = decr_usr_num s

-- `acceptEpollEvents`: for each connection that `accept` gives, whether it could be watched.
unfoldable pub accept_epoll_events : List Bool → Server → Option Server
unfolding add_epoll_event
accept_epoll_events [] s = some s
accept_epoll_events (added ∷ accepted) s = elim (add_epoll_event added s) [
  | none ↦ none
  | some s' ↦ accept_epoll_events accepted s'
]

-- `none` is a division by zero. The counter is unsigned, and so are the operands of `/` and `%`.
unfoldable pub get_thread_index : Server → Option ℕ
get_thread_index s =
    if to_u32 s.packets_group == 0
    then none
    else (if to_u32 s.threads_num == 0
        then none
        else some (s.stats.receive_counter_min / to_u32 s.packets_group % to_u32 s.threads_num))

-- How the reads of a connection end: nothing is left for now, the client has closed it, or an error.
pub data End : Type 0 where
  would_block end_of_file failed : End

-- The loop of `processEPOLLIN`: what successive calls of `read` store at the start of `buf`.
unfoldable pub read_loop : List (List ℕ) → List ℕ → List ℕ
read_loop [] buf = buf
read_loop (chunk ∷ chunks) buf = read_loop chunks (chunk ++ drop (length chunk) buf)

-- The packet that is stored for a worker; `old` is what its slot held and `recv` the time.
unfoldable pub fill_packet : List ℕ → ℕ → ℕ → ℕ → EpollPacket → EpollPacket
fill_packet buf fd efd recv old = record old {
  buf = take payload_size buf ++ drop payload_size old.buf;
  fd = fd;
  efd = efd;
  recv = recv;
}

pub data Received : Type 0 where
  deleted : Server → Received
  handed : (thread : ℕ) (buf : List ℕ) → Server → Received
  fault : Received

-- `processEPOLLIN` up to the hand-off, with what `buf` holds before anything is read.
unfoldable pub process_epollin : List (List ℕ) → End → List ℕ → Server → Received
unfolding read_loop get_thread_index delete_epoll_event
process_epollin chunks would_block buf s =
    let s' = record s { stats = incre_receive_pkts s.stats } in
    elim (get_thread_index s') [
      | none ↦ fault
      | some thread ↦ handed thread (read_loop chunks buf) s'
    ]
process_epollin chunks end_of_file buf s = deleted (delete_epoll_event s)
process_epollin chunks failed buf s = deleted (delete_epoll_event s)

-- One entry of `events` in `server`: which of the flags are set, and whether it is the listener.
pub record Ready : Type 0 where
  pub epollerr : Bool
  pub epollhup : Bool
  pub epollin : Bool
  pub listener : Bool

pub data Action : Type 0 where
  delete accept receive : Action

-- The tests of the loop; its last branch, for `EPOLLOUT`, is never reached.
unfoldable pub dispatch : Ready → Action
dispatch r =
    if r.epollerr
    then delete
    else if r.epollhup
    then delete
    else if r.epollin
    then if r.listener then accept else receive
    else delete
