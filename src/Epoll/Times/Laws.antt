-- ===== src/Epoll/Times/Laws.antt =====
-- A connection sends at most one packet at a time, and not sooner than an epoch after the last.
use da_bao.Base.{
  ℕ, ◌+◌, ◌-◌, ◌*◌, ◌/◌, ◌^◌, ◌≤◌, ◌<◌, ◌≡◌, sym, ap, ◌∙◌, arith, true, false, length,
  get_or-set_self, some, none,
}
use da_bao.Base.Int.{ℤ, pos, sub_ℕ, ◌+ℤ◌, ◌-ℤ◌, ◌*ℤ◌, ltb_ℤ}
use da_bao.Epoll.{Timeval, Table, entry, zero_packet_time}
use da_bao.Epoll.Times.{get_time_diff, set_event_send_time, can_send_pkt, quot_ℤ, s_to_us}

-- A connection of the table that may send may not send again in the state that this leaves,
-- whatever the clock and the epoch.
pub can_send_pkt_once :
    (now later : Timeval) (fd : ℕ) (epoch next_epoch : ℤ) (t : Table) {t' : Table}
    → fd < length t.packets_time
    → can_send_pkt now fd epoch t ≡ (true, t')
    → can_send_pkt later fd next_epoch t' ≡ (false, t')
unfolding can_send_pkt
can_send_pkt_once now later fd epoch next_epoch t h e = grind (arith, get_or-set_self)

abbrev pub time_of : ℕ → ℕ → Timeval
time_of s u = record { tv_sec = pos s; tv_usec = pos u }

-- The difference of two times is exact, in microseconds, while it is within an `int`.
pub get_time_diff_lem :
    (s u s' u' : ℕ)
    → s * 1000000 + u < s' * 1000000 + u' + 2 ^ 31
    → s' * 1000000 + u' < s * 1000000 + u + 2 ^ 31
    → get_time_diff (time_of s u) (time_of s' u') ≡ sub_ℕ (s' * 1000000 + u') (s * 1000000 + u)
unfolding get_time_diff ◌+ℤ◌ ◌-ℤ◌ ◌*ℤ◌
get_time_diff_lem s u s' u' lo hi = ground arith

sent_entry :
    (now later : Timeval) (fd interval : ℕ) (t : Table) {t1 : Table}
    → fd < length t.packets_time
    → set_event_send_time now later fd none interval t ≡ some t1
    → (0 < interval)
      × ((entry t1 fd).virtual_time
          ≡ record { tv_sec = now.tv_sec; tv_usec = quot_ℤ now.tv_usec interval *ℤ pos interval })
unfolding set_event_send_time
sent_entry now later fd interval t h e = ground (
  arith,
  get_or-set_self t.packets_time fd
      (record (entry t fd) {
        virtual_time = record {
          tv_sec = now.tv_sec;
          tv_usec = quot_ℤ now.tv_usec interval *ℤ pos interval;
        };
        last_send = later;
      })
      zero_packet_time h,
)

may_send :
    (at : Timeval) (fd : ℕ) (epoch : ℤ) (t : Table) {t' : Table}
    → can_send_pkt at fd epoch t ≡ (true, t')
    → ltb_ℤ (quot_ℤ (get_time_diff (entry t fd).virtual_time at) s_to_us) epoch ≡ false
unfolding can_send_pkt
may_send at fd epoch t e = ground arith

rounded :
    (u interval : ℕ)
    → 0 < interval
    → (u / interval * interval ≤ u) × (u < u / interval * interval + interval)
rounded u interval h = ground arith

mul_pos : (a b : ℕ) → pos a *ℤ pos b ≡ pos (a * b)
unfolding ◌*ℤ◌
mul_pos a b = ground arith

-- An elapsed time, in seconds, that is not below the epoch.
epoch_over :
    (d epoch : ℕ) → ltb_ℤ (quot_ℤ (pos d) s_to_us) (pos epoch) ≡ false → epoch * 1000000 ≤ d
epoch_over d epoch e = ground arith

-- If a packet was sent at one time and the connection may send again at another, an epoch lies
-- between them up to less than the interval, if the clock is not set back, the difference fits an
-- int and the connection is in the table.
pub epoch_passes :
    (s u s' u' fd interval epoch : ℕ) (later : Timeval) (t : Table) {t1 t2 : Table}
    → fd < length t.packets_time
    → s * 1000000 + u ≤ s' * 1000000 + u'
    → s' * 1000000 + u' + interval < s * 1000000 + u + 2 ^ 31
    → set_event_send_time (time_of s u) later fd none interval t ≡ some t1
    → can_send_pkt (time_of s' u') fd (pos epoch) t1 ≡ (true, t2)
    → s * 1000000 + u + epoch * 1000000 < s' * 1000000 + u' + interval
epoch_passes s u s' u' fd interval epoch later t {t1} h order fits e e' = omega (
  arith,
  epoch_over _ epoch
      (sym (ap (λ x. ltb_ℤ (quot_ℤ x s_to_us) (pos epoch)) exact) ∙ may_send _ fd (pos epoch) _ e'),
  near,
)
  where
    v : ℕ
    v = u / interval * interval

    near : (v ≤ u) × (u < v + interval)
    near = rounded u interval (sent_entry (time_of s u) later fd interval t h e).0

    virtual : (entry t1 fd).virtual_time ≡ time_of s v
    virtual =
        (sent_entry (time_of s u) later fd interval t h e).1
        ∙ ap (λ x. record { tv_sec = pos s; tv_usec = x }) (mul_pos (u / interval) interval)

    exact :
        get_time_diff (entry t1 fd).virtual_time (time_of s' u')
        ≡ pos (s' * 1000000 + u' - (s * 1000000 + v))
    exact =
        ap (λ x. get_time_diff x (time_of s' u')) virtual
        ∙ get_time_diff_lem s v s' u' (omega (arith, near)) (omega (arith, near))
        ∙ ground (arith, near)
