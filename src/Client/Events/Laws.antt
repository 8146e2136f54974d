-- ===== src/Client/Events/Laws.antt =====
-- What the events do to the counts of connections, to the statistics and to the flag of a connection.
use da_bao.Base.{
  ℕ, ◌-◌, ◌≤◌, ◌⊎◌, inl, inr, Bool-cases, sym, drop, ◌<◌, ◌≡◌, refl, ap, ap₂, ◌∙◌, arith, true,
  false, List, [], ◌∷◌, length, get_or-set_self, length-set, All, Option, some, none, if◌then◌else◌,
  ◌==◌,
}
use mathlib.Core.Path.{subst}
use mathlib.Core.Option.{some-injective}
use da_bao.Base.Int.{ℤ, pos, negsuc, ◌+ℤ◌, ◌-ℤ◌, sub_left, sub_zero, ltb_ℤ, pos_part}
use da_bao.Epoll.Laws.{is_open}
use da_bao.Epoll.Bulk.Laws.{close_connections-Closes}
use da_bao.Epoll.{Timeval, Table, entry, delete_epoll_event, modify_epoll_event, reset_send_pkt}
use da_bao.Epoll.Times.{set_event_send_time, set_event_recv_time, get_rtt}
use da_bao.Client.Rate.{get_pkt_type_num, request_pkt}
use da_bao.Client.Events.{
  Client, Count, failed, closed, transferred, Around, drop_connection, on_error, after_write,
  on_writable, on_readable, Event, error, writable, readable, other, on_event, on_events, on_wakeup,
  epoll_round,
}

-- No packet is written on a descriptor that is not watched yet.
abbrev pub Watched : Event → Type 0
Watched (writable count around fd) = around.modified ≡ true
Watched _ = Unit

-- The connections of `params` are the active ones of the table and `d` more.
abbrev pub Ahead : ℤ → Client → Type 0
Ahead d c = c.connections ≡ c.table.active_connections +ℤ d

send_time_counts :
    (now later : Timeval) (fd interval : ℕ) (t : Table) {t' : Table}
    → set_event_send_time now later fd none interval t ≡ some t'
    → t'.active_connections ≡ t.active_connections
unfolding set_event_send_time
send_time_counts now later fd interval t e = ground arith

drop-Ahead : (d : ℤ) (fd : ℕ) (c : Client) → Ahead d c → Ahead d (drop_connection fd c)
unfolding drop_connection delete_epoll_event
drop-Ahead d fd c h = ap (λ x. x -ℤ pos 1) h ∙ sub_left c.table.active_connections d

after_write-Ahead :
    (d : ℤ) (around : Around) (efd fd interval type : ℕ) (c : Client) {c' : Client}
    → around.modified ≡ true
    → Ahead d c
    → after_write around efd fd interval type c ≡ some c'
    → Ahead d c'
unfolding after_write modify_epoll_event set_event_send_time reset_send_pkt
after_write-Ahead d around efd fd interval type c m h e = ground (arith, drop-Ahead d fd c)

readable-Ahead :
    (d : ℤ) (count : Count) (now : Timeval) (fd : ℕ) (c : Client) {c' : Client}
    → Ahead d c
    → on_readable count now fd c ≡ some c'
    → Ahead d c'
unfolding on_readable set_event_recv_time reset_send_pkt get_rtt
readable-Ahead d (failed true) now fd c h e = ground (arith, drop-Ahead d fd c)
readable-Ahead d (failed false) now fd c h e = ground (arith, drop-Ahead d fd c)
readable-Ahead d closed now fd c h e = ground (arith, drop-Ahead d fd c)
readable-Ahead d transferred now fd c h e = ground (arith, drop-Ahead d fd c)

writable-Ahead :
    (d : ℤ) (count : Count) (around : Around) (upper_bound efd fd interval : ℕ) (c : Client)
    {c' : Client}
    → around.modified ≡ true
    → Ahead d c
    → on_writable count around upper_bound efd fd interval c ≡ some c'
    → Ahead d c'
unfolding on_writable
writable-Ahead d (failed true) around upper_bound efd fd interval c m h e = ground arith
writable-Ahead d (failed false) around upper_bound efd fd interval c m h e =
    subst (Ahead d) (some-injective _ _ e) (
      drop-Ahead d fd
        (record c { pkt_type_counter = (get_pkt_type_num upper_bound c.pkt_type_counter).1 }) h)
writable-Ahead d closed around upper_bound efd fd interval c m h e =
    subst (Ahead d) (some-injective _ _ e) (
      drop-Ahead d fd
        (record c { pkt_type_counter = (get_pkt_type_num upper_bound c.pkt_type_counter).1 }) h)
writable-Ahead d transferred around upper_bound efd fd interval c m h e =
    after_write-Ahead d around efd fd interval _ _ m h e

event-Ahead :
    (d : ℤ) (upper_bound efd interval : ℕ) (event : Event) (c : Client) {c' : Client}
    → Watched event
    → Ahead d c
    → on_event upper_bound efd interval event c ≡ some c'
    → Ahead d c'
unfolding on_event on_error
event-Ahead d upper_bound efd interval (error fd) c w h e =
    subst (Ahead d) (some-injective _ _ e) (drop-Ahead d fd c h)
event-Ahead d upper_bound efd interval (writable count around fd) c w h e =
    writable-Ahead d count around upper_bound efd fd interval c w h e
event-Ahead d upper_bound efd interval (readable count now fd) c w h e =
    readable-Ahead d count now fd c h e
event-Ahead d upper_bound efd interval other c w h e = subst (Ahead d) (some-injective _ _ e) h

-- In the loop over the events of a round, if it ends, the number by which the connections of params
-- are ahead stays the same, if packets are written only on descriptors that are watched.
on_events-Ahead :
    (d : ℤ) (upper_bound efd interval : ℕ) (events : List Event) (c : Client) {c' : Client}
    → All Watched events
    → Ahead d c
    → on_events upper_bound efd interval events c ≡ some c'
    → Ahead d c'
unfolding on_events
on_events-Ahead d upper_bound efd interval [] c w h e = subst (Ahead d) (some-injective _ _ e) h
on_events-Ahead d upper_bound efd interval (event ∷ events) c {c'} w h e =
    after (on_event upper_bound efd interval event c) refl e
      (λ next. on_events-Ahead d upper_bound efd interval events next w.1)
  where
    after :
        (o : Option Client)
        → on_event upper_bound efd interval event c ≡ o
        → (elim o [ none ↦ none | some next ↦ on_events upper_bound efd interval events next ])
          ≡ some c'
        → ((next : Client)
            → Ahead d next
            → on_events upper_bound efd interval events next ≡ some c'
            → Ahead d c')
        → Ahead d c'
    after none h1 h2 again = cc
    after (some next) h1 h2 again =
        again next (event-Ahead d upper_bound efd interval event c w.0 h h1) h2

-- How many connections the round is asked to close.
abbrev pub asked : Client → ℕ
asked c = pos_part c.close_conns

-- What the wake-up does: it closes `closed` of them, all that it was asked for or all that it finds.
pub record Woken (d : ℤ) (efd : ℕ) (c c' : Client) (t : Table) : Type 0 where
  pub closed : ℕ
  pub at_most : closed ≤ asked c
  pub complete :
      (closed ≡ asked c) ⊎ All (λ fd. is_open efd t fd ≡ false) (drop 1 c.table.conns_map)
  pub ahead : Ahead (d -ℤ pos (asked c - closed)) c'

fewer_closed :
    (active d : ℤ) (n k : ℕ)
    → k ≤ n
    → (active +ℤ d) -ℤ pos n ≡ (active -ℤ pos k) +ℤ (d -ℤ pos (n - k))
unfolding ◌+ℤ◌ ◌-ℤ◌
fewer_closed (pos a) (pos d) n k h = ground arith
fewer_closed (pos a) (negsuc d) n k h = ground arith
fewer_closed (negsuc a) (pos d) n k h = ground arith
fewer_closed (negsuc a) (negsuc d) n k h = ground arith

none_asked : (n : ℤ) → ltb_ℤ (pos 0) n ≡ false → pos_part n ≡ 0
none_asked (pos n) h = ground arith
none_asked (negsuc n) h = refl

all_asked : (n : ℤ) → ltb_ℤ (pos 0) n ≡ true → n ≡ pos (pos_part n)
all_asked (pos n) h = refl
all_asked (negsuc n) h = ground arith

none_more : (d : ℤ) (k : ℕ) → k ≡ 0 → d ≡ d -ℤ pos (k - 0)
none_more d k e = sub_zero d ∙ ap (λ j. d -ℤ pos j) (omega arith)

on_wakeup-Woken :
    (d : ℤ) (efd : ℕ) (c : Client)
    → 0 < efd
    → Ahead d c
    → Woken d efd c (on_wakeup efd c) (on_wakeup efd c).table
unfolding on_wakeup
on_wakeup-Woken d efd c h a = elim (Bool-cases (ltb_ℤ (pos 0) c.close_conns)) [
  | inl some_asked ↦ rw some_asked (
      let closes = close_connections-Closes efd (asked c) c.table h in
      record {
        closed = closes.closed;
        at_most = closes.at_most;
        complete = closes.complete;
        ahead =
            ap₂ ◌-ℤ◌ a (all_asked c.close_conns some_asked)
            ∙ fewer_closed c.table.active_connections d (asked c) closes.closed closes.at_most
            ∙ ap (λ x. x +ℤ (d -ℤ pos (asked c - closes.closed))) (sym closes.active);
      })
  | inr none_left ↦ rw none_left record {
    closed = 0;
    at_most = omega arith;
    complete = inl (sym (none_asked c.close_conns none_left));
    ahead =
        a
        ∙ ap (λ x. c.table.active_connections +ℤ x)
            (none_more d (asked c) (none_asked c.close_conns none_left));
  }
]

-- In a round of epollLoop with a positive epoll descriptor in which packets are written only on
-- descriptors that are watched and which does not end the program, whatever its events are and
-- whatever the system calls return, the wake-up closes as many connections as it was asked to, or
-- fewer and then none of those that the shuffled table lists behind its first entry is left open,
-- and the number by which the connections that params counts are ahead of the active ones of the
-- table falls by those that were asked for and not closed.
pub epoll_round-Ahead :
    (d : ℤ) (upper_bound efd interval : ℕ) (events : List Event) (c : Client) {c' : Client}
    → 0 < efd
    → All Watched events
    → Ahead d c
    → epoll_round upper_bound efd interval events c ≡ some c'
    → Woken d efd c c' (on_wakeup efd c).table
unfolding epoll_round
epoll_round-Ahead d upper_bound efd interval events c h w a e =
    let woken = on_wakeup-Woken d efd c h a in
    record {
      closed = woken.closed;
      at_most = woken.at_most;
      complete = woken.complete;
      ahead =
          on_events-Ahead (d -ℤ pos (asked c - woken.closed)) upper_bound efd interval events
            (on_wakeup efd c) w woken.ahead e;
    }

-- After a packet is written on a watched descriptor of the table, the connection's flag is as the
-- sender set it if the packet was a request, and cleared if it was a heartbeat, if the program goes
-- on.
pub on_writable_flag :
    (around : Around) (upper_bound efd fd interval : ℕ) (c : Client) {c' : Client}
    → fd < length c.table.packets_time
    → around.modified ≡ true
    → on_writable transferred around upper_bound efd fd interval c ≡ some c'
    → (entry c'.table fd).sending_flag ≡ (
        if (get_pkt_type_num upper_bound c.pkt_type_counter).0 == request_pkt
        then (entry c.table fd).sending_flag
        else false)
unfolding on_writable after_write modify_epoll_event set_event_send_time reset_send_pkt
on_writable_flag around upper_bound efd fd interval c h m e =
    grind (arith, get_or-set_self, length-set)

-- An answer that is read leaves the connection free for the next packet.
pub on_readable_flag :
    (now : Timeval) (fd : ℕ) (c : Client) {c' : Client}
    → fd < length c.table.packets_time
    → on_readable transferred now fd c ≡ some c'
    → (entry c'.table fd).sending_flag ≡ false
unfolding on_readable reset_send_pkt set_event_recv_time get_rtt
on_readable_flag now fd c h e = grind (arith, get_or-set_self, length-set)
