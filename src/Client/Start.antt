-- ===== src/Client/Start.antt =====
-- The start of client/client.c: its own addresses, those of the server, and the thread that lets
-- connections send. What system calls return is an argument; an exit of the program and a write
-- behind an array are `none`.
pub mod Laws
pub mod Passes
use da_bao.Base.{
  ℕ, zero, suc, ◌+◌, ◌*◌, ◌/◌, ◌%◌, Bool, true, false, ◌&&◌, ◌==◌, ltb, leb, length, List, [], ◌∷◌,
  ◌++◌, map, get_or, Option, some, none, if◌then◌else◌,
}
use da_bao.Base.Int.{ℤ, pos, ◌+ℤ◌, ltb_ℤ, pos_part, to_u32}
use da_bao.ClientConfig.{max_ports}
use da_bao.Cluster.Text.{strstr}
use da_bao.Base.Options.{◌>>=◌}
use da_bao.Epoll.{Timeval, Table, entry, modify_epoll_event}
use da_bao.Epoll.Times.{can_send_pkt}

-- `MAXIPS`
abbrev pub max_ips : ℕ
max_ips = 300

-- An entry of `getifaddrs`: whether it has an address, whether that is of `AF_INET`, its name, and
-- the text that `getnameinfo` gives.
pub record Interface : Type 0 where
  pub has_addr : Bool
  pub inet : Bool
  pub name : List ℕ
  pub host : Option (List ℕ)

abbrev pub is_found : Option (List ℕ) → Bool
is_found none = false
is_found (some _) = true

-- Whether the loop goes on to the name of the interface.
unfoldable pub is_alias : List ℕ → Interface → Bool
unfolding strstr
is_alias dev ifa = ifa.has_addr && (ifa.inet && is_found (strstr ifa.name dev))

-- The loop of `getAliasIPs` from the addresses that it has stored on. The bound is tested after the
-- write.
unfoldable pub alias_loop : List ℕ → List Interface → List (List ℕ) → Option (List (List ℕ))
unfolding is_alias
alias_loop dev [] alias_ips = some alias_ips
alias_loop dev (ifa ∷ ifaddr) alias_ips =
    if is_alias dev ifa
    then elim ifa.host [
      | none ↦ none
      | some host ↦
          if ltb (length alias_ips) max_ips
          then alias_loop dev ifaddr (alias_ips ++ (host ∷ []))
          else none
    ]
    else alias_loop dev ifaddr alias_ips

-- `none` is also a `getifaddrs` that fails.
unfoldable pub get_alias_ips : List ℕ → Option (List Interface) → Option (List (List ℕ))
unfolding alias_loop
get_alias_ips dev none = none
get_alias_ips dev (some ifaddr) = alias_loop dev ifaddr []

-- `sin_port` and `sin_addr` of a `sockaddr_in`, in the order of the network.
pub record SockAddr : Type 0 where
  pub sin_port : ℕ
  pub sin_addr : ℕ

-- `htons`, on a little-endian machine.
abbrev pub htons : ℕ → ℕ
htons port = port % 256 * 256 + port / 256 % 256

module _ (inet_addr : List ℕ → ℕ) where
  -- `createClients`; `none` is the assertion that fails.
  unfoldable pub create_clients : List (List ℕ) → Option (List SockAddr)
  create_clients alias_ips =
      if ltb (length alias_ips) max_ips
      then some (map (λ ip. record { sin_port = htons 0; sin_addr = inet_addr ip }) alias_ips)
      else none

  -- The loop of `createServer` with `k` rounds left. `conf->ports` and `params->server` have
  -- `MAXPORTS` entries each, and an access behind them is `none`.
  unfoldable pub server_loop : List ℕ → List ℤ → ℕ → ℕ → Option (List SockAddr)
  server_loop dest_ip ports zero n = some []
  server_loop dest_ip ports (suc k) n =
      if ltb n max_ports
      then elim (server_loop dest_ip ports k (suc n)) [
        | none ↦ none
        | some server ↦ some (
            record {
              sin_port = htons (to_u32 (get_or ports n (pos 0)));
              sin_addr = inet_addr dest_ip;
            }
            ∷ server)
      ]
      else none

  -- `createServer` for a host that `gethostbyname` knows, or does not.
  unfoldable pub create_server : Bool → List ℕ → ℤ → List ℤ → Option (List SockAddr)
  unfolding server_loop
  create_server known dest_ip ports_count ports =
      if known then server_loop dest_ip ports (pos_part ports_count) 0 else none

-- `pauseSignal`: the counter, and whether the caller sleeps.
unfoldable pub pause_signal : ℤ → ℤ → ℤ × Bool
pause_signal counter thres =
    let counter' = counter +ℤ pos 1 in
    if ltb_ℤ counter' thres then (counter', false) else (pos 0, true)

-- What `epoll_ctl` says for a descriptor: whether `EPOLL_CTL_MOD` succeeds, and else whether
-- `EPOLL_CTL_ADD` does.
pub record Control : Type 0 where
  pub modified : Bool
  pub added : Bool

-- The body of the loop of `updateEvents` for one descriptor, with whether it is asked to send.
unfoldable pub test_event : Timeval → Control → ℤ → ℕ → Table → Option (Table × Bool)
unfolding can_send_pkt
test_event now control epoch fd t =
    let sent = can_send_pkt now fd epoch t in
    let events = modify_epoll_event control.modified control.added (entry t fd).efd fd sent.1 in
    if (entry t fd).efd == 0
    then some (t, false)
    else (if sent.0
        then elim events [ none ↦ none | some t' ↦ some (t', true) ]
        else some (sent.1, false))

-- One pass of `updateEvents` over `n` descriptors from `fd` on, by what the clock and `epoll_ctl`
-- say for each, while no other thread changes the table: the table, and the descriptors that are
-- asked to send.
unfoldable pub update_events :
    (ℕ → Timeval) → (ℕ → Control) → ℤ → ℕ → ℕ → Table → Option (Table × List ℕ)
unfolding test_event
update_events now control epoch zero fd t = some (t, [])
update_events now control epoch (suc n) fd t = do
  (t', asked) ← test_event (now fd) (control fd) epoch fd t
  (t'', fds) ← update_events now control epoch n (suc fd) t'
  some (t'', if asked then fd ∷ fds else fds)
