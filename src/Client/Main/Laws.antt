-- ===== src/Client/Main/Laws.antt =====
-- What the client has when its threads start.
use da_bao.Base.{ℕ, zero, suc, ◌≤◌, ◌<◌, ◌≡◌, true, false, ◌+◌, get_or, List, [], ◌∷◌, length}
use da_bao.Base.Int.{ℤ, pos, is_zero, pos_part, to_u32}
use da_bao.Epoll.Times.{quot_ℤ}
use da_bao.ClientConfig.{max_ports}
use da_bao.Client.Start.{SockAddr, htons, max_ips}
use da_bao.Client.Main.{EpollThread, Setup, Started, returned, started}

-- The addresses of the ports from `n` on.
abbrev pub addresses : (List ℕ → ℕ) → List ℕ → List ℤ → ℕ → ℕ → List SockAddr
addresses inet_addr dest_ip ports zero n = []
addresses inet_addr dest_ip ports (suc k) n =
    record { sin_port = htons (to_u32 (get_or ports n (pos 0))); sin_addr = inet_addr dest_ip }
    ∷ addresses inet_addr dest_ip ports k (suc n)

-- The addresses of the client and those of the ports, all within their arrays.
pub record Fits {D : Type 0} (inet_addr : List ℕ → ℕ) (setup : Setup D) : Type 0 where
  pub few : length setup.alias_ips < max_ips
  pub clients : length setup.clients ≡ length setup.alias_ips
  pub ports : pos_part setup.conf.ports_count ≤ max_ports
  pub servers :
      setup.server
      ≡ addresses inet_addr setup.conf.dest_ip setup.conf.ports (pos_part setup.conf.ports_count) 0

-- The threads of the ports from `n` on, each with the same share of the connections.
abbrev pub threads_of : ℤ → ℕ → ℕ → List EpollThread
threads_of share zero n = []
threads_of share (suc k) n =
    record { total = share; mask = n + 1; port = n } ∷ threads_of share k (suc n)

-- Each port of the settings has a thread of its own with an equal share of the connections.
pub record Launched {D : Type 0} (inet_addr : List ℕ → ℕ) (setup : Setup D)
    (threads : List EpollThread) : Type 0 where
  pub set : Fits inet_addr setup
  pub connected : is_zero setup.conf.connections ≡ false
  pub launched :
      threads
      ≡ threads_of
          (quot_ℤ setup.conf.connections (pos_part setup.conf.ports_count))
          (pos_part setup.conf.ports_count)
          0

-- A start that returns has no connection to make.
abbrev Launches : {D : Type 0} → (List ℕ → ℕ) → Started D → Type 0
Launches inet_addr (returned setup) = Fits inet_addr setup × (is_zero setup.conf.connections ≡ true)
Launches inet_addr (started setup threads) = Launched inet_addr setup threads
