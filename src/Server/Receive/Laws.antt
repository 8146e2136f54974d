-- ===== src/Server/Receive/Laws.antt =====
-- Which worker a packet goes to, which of the packets that wait is taken, and the count of users.
use da_bao.Base.{
  ℕ, ◌+◌, ◌/◌, ◌%◌, ◌^◌, ◌≤◌, ◌<◌, ◌≡◌, refl, ap, ◌∙◌, arith, List, [], ◌∷◌, ◌++◌, length, take,
  drop, some, none, take_sized,
}
use da_bao.Base.Int.{pos}
use da_bao.Statistics.Server.{incre_receive_pkts}
use da_bao.Base.Division.{div_unique, mod_suc, division}
use da_bao.Server.Receive.{
  Server, get_thread_index, read_loop, would_block, handed, process_epollin,
}

next_turn : (c g n : ℕ) → 0 < g → 0 < n → (c + g) / g % n ≡ (c / g % n + 1) % n
next_turn c g n hg hn =
    ap (λ q. q % n)
      (div_unique (c + g) g (c / g + 1) (grind (arith, division c g hg))
        (grind (arith, division c g hg)))
    ∙ mod_suc (c / g) n hn

get_thread_index_lem :
    (s : Server) (group threads : ℕ)
    → s.packets_group ≡ pos group
    → s.threads_num ≡ pos threads
    → 0 < group
    → group < 2 ^ 31
    → 0 < threads
    → threads ≤ 20
    → get_thread_index s ≡ some (s.stats.receive_counter_min / group % threads)
unfolding get_thread_index
get_thread_index_lem s group threads eg et g0 g1 t0 t1 = ground arith

-- The state when `n` packets more were received in the same minute.
abbrev pub after_packets : ℕ → Server → Server
after_packets n s = record s {
  stats = record s.stats { receive_counter_min = s.stats.receive_counter_min + n };
}

-- With a positive group below 2 ^ 31 and 1 to 20 threads there is a worker for every packet, and
-- after a whole group of packets more it is the turn of the next worker, the last being followed by
-- the first, while the counter does not wrap.
pub get_thread_index_turn :
    (s : Server) (group threads : ℕ)
    → s.packets_group ≡ pos group
    → s.threads_num ≡ pos threads
    → 0 < group
    → group < 2 ^ 31
    → 0 < threads
    → threads ≤ 20
    → (thread : ℕ) × (thread < threads)
      × (get_thread_index s ≡ some thread)
      × (get_thread_index (after_packets group s) ≡ some ((thread + 1) % threads))
get_thread_index_turn s group threads eg et g0 g1 t0 t1 = (
  s.stats.receive_counter_min / group % threads,
  below,
  get_thread_index_lem s group threads eg et g0 g1 t0 t1,
  get_thread_index_lem (after_packets group s) group threads eg et g0 g1 t0 t1
      ∙ ap some (next_turn s.stats.receive_counter_min group threads g0 t0),
)
  where
    below : s.stats.receive_counter_min / group % threads < threads
    below = ground arith

-- A group of zero packets, which `updateEpoch` may store, leaves no worker: a division by zero.
no_group : (s : Server) → s.packets_group ≡ pos 0 → get_thread_index s ≡ none
unfolding get_thread_index
no_group s e = ground arith

read_loop_last :
    (chunks : List (List ℕ)) (last buf : List ℕ)
    → read_loop (chunks ++ (last ∷ [])) buf ≡ last ++ drop (length last) (read_loop chunks buf)
unfolding read_loop
read_loop_last [] last buf = refl
read_loop_last (chunk ∷ chunks) last buf = read_loop_last chunks last _

-- Of the packets that wait on a connection only the last is handed on, with its bytes at the start
-- of the buffer, and they count as one packet received.
pub process_epollin_last :
    (chunks : List (List ℕ)) (last buf : List ℕ) (s : Server) {thread : ℕ} {buf' : List ℕ}
    {s' : Server}
    → process_epollin (chunks ++ (last ∷ [])) would_block buf s ≡ handed thread buf' s'
    → (take (length last) buf' ≡ last) × (s'.stats ≡ incre_receive_pkts s.stats)
unfolding process_epollin
process_epollin_last chunks last buf s e = ground (
  arith,
  read_loop_last chunks last buf,
  take_sized last (drop (length last) (read_loop chunks buf)) (length last) refl,
)
