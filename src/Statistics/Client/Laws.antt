-- ===== src/Statistics/Client/Laws.antt =====
-- The round trips that are measured within a second.
use da_bao.Base.{
  ℕ, ◌+◌, ◌^◌, ◌<◌, ◌≡◌, refl, arith, List, [], ◌∷◌, All, length, if◌then◌else◌, ltb, ap, ◌∙◌,
}
use da_bao.Base.Int.{pos}
use da_bao.Statistics.Client.{Statistics, rtt_max, incre_receive_pkts}

-- The statistics after the round trips of a list.
abbrev pub measure : List ℕ → Statistics → Statistics
measure [] stats = stats
measure (rtt ∷ rtts) stats = measure rtts (incre_receive_pkts (pos rtt) stats)

abbrev pub sum : List ℕ → ℕ
sum [] = 0
sum (x ∷ xs) = x + sum xs

abbrev pub greatest : List ℕ → ℕ → ℕ
greatest [] m = m
greatest (x ∷ xs) m = greatest xs (if ltb m x then x else m)

measured_once :
    (r : ℕ) (stats : Statistics)
    → r < rtt_max
    → stats.receive_counter_sec + 1 < 2 ^ 32
    → stats.rtt_sum + r < 2 ^ 64
    → let next = incre_receive_pkts (pos r) stats in
      (next.receive_counter_sec ≡ stats.receive_counter_sec + 1)
      × (next.rtt_sum ≡ stats.rtt_sum + r)
      × (next.rtt_max_seen ≡ (if ltb stats.rtt_max_seen r then r else stats.rtt_max_seen))
unfolding incre_receive_pkts
measured_once r stats h f g = ground arith

-- Round trips below RTT_MAX are all counted and summed and their greatest is kept, while count and
-- sum fit their fields.
pub measure_lem :
    (rtts : List ℕ) (stats : Statistics)
    → All (λ r. r < rtt_max) rtts
    → stats.receive_counter_sec + length rtts < 2 ^ 32
    → stats.rtt_sum + sum rtts < 2 ^ 64
    → ((measure rtts stats).receive_counter_sec ≡ stats.receive_counter_sec + length rtts)
      × ((measure rtts stats).rtt_sum ≡ stats.rtt_sum + sum rtts)
      × ((measure rtts stats).rtt_max_seen ≡ greatest rtts stats.rtt_max_seen)
measure_lem [] stats h f g = (omega arith, omega arith, refl)
measure_lem (r ∷ rtts) stats h f g =
    let rest = measure_lem rtts next h.1 (omega (arith, one.0)) (omega (arith, one.1)) in
    (omega (arith, rest.0, one.0), omega (arith, rest.1, one.1), rest.2 ∙ ap (greatest rtts) one.2)
  where
    next : Statistics
    next = incre_receive_pkts (pos r) stats

    one :
        (next.receive_counter_sec ≡ stats.receive_counter_sec + 1)
        × (next.rtt_sum ≡ stats.rtt_sum + r)
        × (next.rtt_max_seen ≡ (if ltb stats.rtt_max_seen r then r else stats.rtt_max_seen))
    one = measured_once r stats h.0 (omega arith) (omega arith)
