-- ===== src/Server/Start.antt =====
-- The start of server/server.c: the sockets it listens on, its own address, and its workers. What
-- each system call returns is an argument; an exit of the program is `none`.
pub mod Laws
use da_bao.Base.{
  ℕ, zero, suc, ◌^◌, Bool, true, false, ◌&&◌, bit_or, List, [], ◌∷◌, Option, some, none, leb,
  if◌then◌else◌,
}
use da_bao.Base.Int.{ℤ, pos, negsuc, is_zero, to_u32}
use da_bao.Ring.{RingBuffer, ring_buffer_init}
use da_bao.Server.Database.{same_text}
use da_bao.Server.Receive.{Server, add_epoll_event}

-- -1
abbrev pub minus_one : ℤ
minus_one = negsuc 0

abbrev pub is_minus_one : ℤ → Bool
is_minus_one (pos n) = false
is_minus_one (negsuc n) = is_zero (pos n)

-- What `socket` and `bind` return for one address that `getaddrinfo` lists.
pub record Address : Type 0 where
  pub sfd : ℤ
  pub bound : ℤ

-- The loop of `create_and_bind`: the socket, or -1 when no address is left, and those it closed.
unfoldable pub bind_loop : List Address → ℤ × List ℤ
bind_loop [] = (minus_one, [])
bind_loop (rp ∷ result) =
    let rest = bind_loop result in
    if is_minus_one rp.sfd
    then rest
    else (if is_zero rp.bound then (rp.sfd, []) else (rest.0, rp.sfd ∷ rest.1))

unfoldable pub create_and_bind : ℤ → List Address → ℤ × List ℤ
unfolding bind_loop
create_and_bind s result = if is_zero s then bind_loop result else (minus_one, [])

-- `createServerFDs`, for each port what `getaddrinfo` gives; the sockets for `server_fds`.
unfoldable pub create_server_fds : List (ℤ × List Address) → Option (List ℤ)
unfolding create_and_bind
create_server_fds [] = some []
create_server_fds ((s, result) ∷ ports) =
    let fd = (create_and_bind s result).0 in
    if is_minus_one fd
    then none
    else elim (create_server_fds ports) [ none ↦ none | some server_fds ↦ some (fd ∷ server_fds) ]

-- `O_NONBLOCK`
abbrev pub o_nonblock : ℕ
o_nonblock = 2048

-- The result of `make_socket_non_blocking`, and the flags that it asks to be set, if it does.
unfoldable pub make_socket_non_blocking : ℤ → ℤ → ℤ × Option ℕ
make_socket_non_blocking flags s =
    if is_minus_one flags
    then (minus_one, none)
    else (if is_minus_one s
        then (minus_one, some (bit_or (to_u32 flags) o_nonblock))
        else (pos 0, some (bit_or (to_u32 flags) o_nonblock)))

-- `setServerSocket` and `setClientSocket`, with what both calls of `setsockopt` and the two of
-- `fcntl` return; the flags of the socket.
unfoldable pub set_socket : ℤ → ℤ → ℤ → ℤ → Option ℕ
unfolding make_socket_non_blocking
set_socket keepalive reuseaddr flags s =
    if is_zero keepalive && is_zero reuseaddr
    then (let made = make_socket_non_blocking flags s in
        if is_minus_one (made.0) then none else made.1)
    else none

-- One entry of `getifaddrs`: whether it has an address, its name, whether that is of `AF_INET`, and
-- the text that `getnameinfo` gives for it.
pub record Interface : Type 0 where
  pub has_addr : Bool
  pub name : List ℕ
  pub inet : Bool
  pub host : Option (List ℕ)

-- `SUCCESS` with the text for `IP`, `FAILURE`, or the end of the program.
pub data LocalIp : Type 0 where
  success : List ℕ → LocalIp
  failure exited : LocalIp

-- The loop of `getLocalIP`
unfoldable pub local_ip_loop : List ℕ → List Interface → LocalIp
unfolding same_text
local_ip_loop device [] = failure
local_ip_loop device (ifa ∷ ifaddr) =
    let rest = local_ip_loop device ifaddr in
    if ifa.has_addr
    then (if same_text ifa.name device && ifa.inet
        then elim ifa.host [ none ↦ exited | some host ↦ success host ]
        else rest)
    else rest

-- `none` is a `getifaddrs` that fails.
unfoldable pub get_local_ip : List ℕ → Option (List Interface) → LocalIp
unfolding local_ip_loop
get_local_ip device none = exited
get_local_ip device (some ifaddr) = local_ip_loop device ifaddr

-- `MIN_THREADS` and `MAX_THREADS`
abbrev pub min_threads : ℕ
min_threads = 1

abbrev pub max_threads : ℕ
max_threads = 20

-- The loop of `initThreads` with `n` rounds left: the rings of the workers, if `pthread_create`
-- succeeds for each of them.
unfoldable pub threads_loop : (ℕ → ℤ) → ℕ → ℕ → Option (List RingBuffer)
threads_loop rc zero thread = some []
threads_loop rc (suc n) thread =
    if is_zero (rc thread)
    then elim (threads_loop rc n (suc thread)) [
      | none ↦ none
      | some rings ↦ some (ring_buffer_init ∷ rings)
    ]
    else none

-- `none` is also the assertion that fails, and a write behind the arrays of the threads.
unfoldable pub init_threads : (ℕ → ℤ) → ℤ → Option (List RingBuffer)
unfolding threads_loop
init_threads rc (negsuc n) = none
init_threads rc (pos threads_num) =
    if leb min_threads threads_num && leb threads_num max_threads
    then threads_loop rc threads_num 0
    else none

-- The start of `server` up to its loop: the results of `create_and_bind`, `setServerSocket`,
-- `listen`, `epoll_create1` and `epoll_ctl`. The listening socket is counted as a user.
unfoldable pub start_server : ℤ → Option ℕ → ℤ → ℤ → Bool → Server → Option Server
unfolding add_epoll_event
start_server sfd flags listening efd added s = if is_minus_one sfd then none else elim flags [
  | none ↦ none
  | some _ ↦
      if is_minus_one listening
      then none
      else (if is_minus_one efd then none else add_epoll_event added s)
]
