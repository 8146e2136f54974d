-- ===== src/Epoll/Times.antt =====
-- The times of a connection: when it may send, and how long an answer took.
pub mod Laws
use da_bao.Base.{
  ℕ, ◌+◌, ◌*◌, ◌/◌, ◌-◌, ◌%◌, Bool, true, false, ◌==◌, ltb, leb, if◌then◌else◌, Option, some, none,
  zero, suc, ◌||◌, ◌&&◌, not,
}
use da_bao.Base.Int.{ℤ, pos, negsuc, sub_ℕ, ◌+ℤ◌, ◌-ℤ◌, ◌*ℤ◌, ltb_ℤ, to_u32, signed32}
use da_bao.Epoll.{Timeval, PacketTime, Table, entry, with_entry}

-- `MAX_EVENTS`, `S_TO_US` and `GROUP_SIZE`
abbrev pub max_events : ℕ
max_events = 4000000

abbrev pub s_to_us : ℕ
s_to_us = 1000000

abbrev pub group_size : ℕ
group_size = 10000

-- The division of C rounds to zero; the remainder has the sign of the dividend.
abbrev pub quot_ℤ : ℤ → ℕ → ℤ
quot_ℤ (pos a) b = pos (a / b)
quot_ℤ (negsuc a) b = sub_ℕ 0 (suc a / b)

abbrev pub rem_ℤ : ℤ → ℕ → ℤ
rem_ℤ (pos a) b = pos (a % b)
rem_ℤ (negsuc a) b = sub_ℕ 0 (suc a % b)

-- A difference of `long`s that is cut to an `int`.
unfoldable pub get_time_diff : Timeval → Timeval → ℤ
get_time_diff start end =
    signed32
      (to_u32 ((end.tv_sec -ℤ start.tv_sec) *ℤ pos s_to_us +ℤ (end.tv_usec -ℤ start.tv_usec)))

-- `none` is an `assert` that fails or a division by zero. `now` and `later` are what the clock
-- shows at the two calls of `gettimeofday`.
unfoldable pub set_event_send_time :
    Timeval → Timeval → ℕ → Option Timeval → ℕ → Table → Option Table
set_event_send_time now later fd none interval t =
    if ltb fd max_events && not (interval == 0)
    then some (
        with_entry t fd (record (entry t fd) {
          virtual_time = record {
            tv_sec = now.tv_sec;
            tv_usec = quot_ℤ now.tv_usec interval *ℤ pos interval;
          };
          last_send = later;
        }))
    else none
set_event_send_time now later fd (some time) interval t =
    if ltb fd max_events
    then some (with_entry t fd (record (entry t fd) { virtual_time = time; last_send = time }))
    else none

unfoldable pub set_event_recv_time : Timeval → ℕ → Option Timeval → Table → Option Table
set_event_recv_time now fd none t =
    if ltb fd max_events
    then some (with_entry t fd (record (entry t fd) { last_recv = now }))
    else none
set_event_recv_time now fd (some time) t =
    if ltb fd max_events
    then some (with_entry t fd (record (entry t fd) { last_recv = time }))
    else none

unfoldable pub get_rtt : ℕ → Table → Option ℤ
unfolding get_time_diff
get_rtt fd t =
    if ltb fd max_events
    then some (get_time_diff (entry t fd).last_send (entry t fd).last_recv)
    else none

unfoldable pub can_send_pkt : Timeval → ℕ → ℤ → Table → Bool × Table
unfolding get_time_diff
can_send_pkt now fd epoch t =
    let p = entry t fd in
    if p.sending_flag || p.connection_closed
    then (false, t)
    else (if ltb_ℤ (quot_ℤ (get_time_diff p.virtual_time now) s_to_us) epoch
        then (false, t)
        else (true, with_entry t fd (record p { sending_flag = true })))

-- An `int` result, which wraps.
abbrev pub int_of : ℤ → ℤ
int_of x = signed32 (to_u32 x)

-- A division of two `int`s; `none` for the divisor 0.
abbrev pub div_int : ℤ → ℤ → Option ℤ
div_int a (pos zero) = none
div_int a (pos (suc b)) = some (quot_ℤ a (suc b))
div_int a (negsuc b) = some (pos 0 -ℤ quot_ℤ a (suc b))

-- `virtual_delay` stands for `epoch - groups * unit_delay`, which is computed with `float`s and cut
-- to an `int`, for a number of groups.
module _ (virtual_delay : ℤ → ℤ → ℤ) where
  unfoldable pub virtual_time_of : ℕ → ℤ → Timeval → ℤ → ℕ → Option Timeval
  virtual_time_of fd total time epoch interval =
      elim (div_int (int_of (epoch *ℤ pos s_to_us)) total) [
        | none ↦ none
        | some average ↦ elim (div_int (int_of (pos fd *ℤ average)) (pos interval)) [
          | none ↦ none
          | some rounds ↦
              let usec_offset = int_of (rounds *ℤ pos interval) in
              some (record {
                tv_sec =
                    time.tv_sec
                    +ℤ quot_ℤ usec_offset s_to_us
                    -ℤ virtual_delay epoch (quot_ℤ total group_size);
                tv_usec = rem_ℤ usec_offset s_to_us;
              })
        ]
      ]

  -- `setVirtualEventTime`
  unfoldable pub set_virtual_event_time : ℕ → ℤ → Timeval → ℤ → ℕ → Table → Option Table
  unfolding virtual_time_of set_event_send_time set_event_recv_time
  set_virtual_event_time fd total time epoch interval t =
      elim (virtual_time_of fd total time epoch interval) [
        | none ↦ none
        | some virtual_time ↦
            elim (set_event_send_time time time fd (some virtual_time) interval t) [
              | none ↦ none
              | some t' ↦ set_event_recv_time time fd (some virtual_time) t'
            ]
      ]
