-- ===== src/Server/Loop/Laws.antt =====
-- The count of users and the workers that packets go to, over any events.
use mathlib.Core.Option.{some-injective}
use mathlib.Core.Path.{subst}
use da_bao.Base.{
  ℕ, suc, ◌+◌, ◌^◌, ◌≤◌, ◌<◌, ◌≡◌, refl, ap, sym, ◌∙◌, arith, Bool, true, false, List, [], ◌∷◌,
  ◌++◌, Option, some, none, All, All-append,
}
use da_bao.Base.Int.{ℤ, pos, negsuc, ◌+ℤ◌, ◌-ℤ◌, pos_part, neg_part}
use da_bao.Base.Options.{◌>>=◌}
use da_bao.Statistics.Server.{incre_receive_pkts}
use da_bao.Server.Receive.{
  Server, Action, dispatch, delete, accept, receive, add_epoll_event, incr_usr_num,
  delete_epoll_event, decr_usr_num, accept_epoll_events, End, would_block, end_of_file, failed,
  process_epollin, get_thread_index, read_loop,
}
use da_bao.Server.Receive.Laws.{get_thread_index_turn}
use da_bao.Server.Loop.{Event, Handed, of_received, of_accepted, of_action, on_event, on_events}

-- How many users an event adds, and how many it takes away.
abbrev pub count_of : List Bool → ℕ
count_of [] = 0
count_of (b ∷ bs) = suc (count_of bs)

abbrev pub joins_by : Action → List Bool → ℕ
joins_by delete accepted = 0
joins_by accept accepted = count_of accepted
joins_by receive accepted = 0

abbrev pub leaves_by : Action → End → ℕ
leaves_by delete end = 1
leaves_by accept end = 0
leaves_by receive would_block = 0
leaves_by receive end_of_file = 1
leaves_by receive failed = 1

abbrev pub joins : List Event → ℕ
joins [] = 0
joins (e ∷ events) = joins_by (dispatch e.ready) e.accepted + joins events

abbrev pub leaves : List Event → ℕ
leaves [] = 0
leaves (e ∷ events) = leaves_by (dispatch e.ready) e.end + leaves events

-- A change of a count by what came and what went.
abbrev pub Moved : ℤ → ℤ → ℕ → ℕ → Type 0
Moved n n' came went = pos_part n' + neg_part n + went ≡ pos_part n + neg_part n' + came

Moved-trans :
    (a b c : ℤ) (came went came' went' : ℕ)
    → Moved a b came went
    → Moved b c came' went'
    → Moved a c (came + came') (went + went')
Moved-trans a b c came went came' went' h h' = omega arith

add-Moved : (n : ℤ) → Moved n (n +ℤ pos 1) 1 0
unfolding ◌+ℤ◌
add-Moved (pos n) = ground arith
add-Moved (negsuc n) = ground arith

sub-Moved : (n : ℤ) → Moved n (n -ℤ pos 1) 0 1
unfolding ◌-ℤ◌
sub-Moved (pos n) = ground arith
sub-Moved (negsuc n) = ground arith

accept-Moved :
    (accepted : List Bool) (s s' : Server)
    → accept_epoll_events accepted s ≡ some s'
    → Moved s.usr_num s'.usr_num (count_of accepted) 0
unfolding accept_epoll_events add_epoll_event incr_usr_num
accept-Moved [] s s' e = ground arith
accept-Moved (true ∷ accepted) s s' e =
    omega (arith, add-Moved s.usr_num, accept-Moved accepted (incr_usr_num s) s' e)
accept-Moved (false ∷ accepted) s s' e = cc

-- A worker's index below the number of workers.
abbrev pub HasWorker : ℤ → Handed → Type 0
HasWorker threads packet = packet.0 < pos_part threads

-- What an event does to the count, to where packets go, and to the settings.
pub record Steps (s s' : Server) (out : List Handed) (came went : ℕ) : Type 0 where
  pub moved : Moved s.usr_num s'.usr_num came went
  pub workers : All (HasWorker s.threads_num) out
  pub same_threads : s'.threads_num ≡ s.threads_num
  pub same_group : s'.packets_group ≡ s.packets_group

-- Settings with which a worker can be chosen.
pub record IsConfigured (s : Server) : Type 0 where
  pub group : ℕ
  pub threads : ℕ
  pub group_lem : s.packets_group ≡ pos group
  pub threads_lem : s.threads_num ≡ pos threads
  pub group_pos : 0 < group
  pub group_fits : group < 2 ^ 31
  pub threads_pos : 0 < threads
  pub threads_few : threads ≤ 20

accept_settings :
    (accepted : List Bool) (s s' : Server)
    → accept_epoll_events accepted s ≡ some s'
    → (s'.threads_num ≡ s.threads_num) × (s'.packets_group ≡ s.packets_group)
unfolding accept_epoll_events add_epoll_event incr_usr_num
accept_settings [] s s' e =
    let same : s ≡ s' = some-injective s s' e in
    (sym (ap (λ (t : Server). t.threads_num) same), sym (ap (λ (t : Server). t.packets_group) same))
accept_settings (true ∷ accepted) s s' e = accept_settings accepted (incr_usr_num s) s' e
accept_settings (false ∷ accepted) s s' e = cc

delete-Steps : (s : Server) → Steps s (delete_epoll_event s) [] 0 1
unfolding delete_epoll_event decr_usr_num
delete-Steps s = record {
  moved = sub-Moved s.usr_num;
  workers = tt;
  same_threads = refl;
  same_group = refl;
}

-- The same of a round that may end the program.
abbrev pub StepsTo : Server → ℕ → ℕ → Option (Server × List Handed) → Type 0
StepsTo s came went none = Unit
StepsTo s came went (some (s', out)) = Steps s s' out came went

-- A packet that was read whole goes to the worker that is chosen.
pub would_block_lem :
    (chunks : List (List ℕ)) (buf : List ℕ) (s : Server) (thread : ℕ)
    → get_thread_index (record s { stats = incre_receive_pkts s.stats }) ≡ some thread
    → of_received (process_epollin chunks would_block buf s)
      ≡ some (record s { stats = incre_receive_pkts s.stats }, (thread, read_loop chunks buf) ∷ [])
unfolding process_epollin
would_block_lem chunks buf s thread e = rw (e, of_received, process_epollin) refl

received-StepsTo :
    (chunks : List (List ℕ)) (end : End) (buf : List ℕ) (s : Server)
    → IsConfigured s
    → StepsTo s 0 (leaves_by receive end) (of_received (process_epollin chunks end buf s))
unfolding process_epollin
received-StepsTo chunks would_block buf s set =
    let s' = record s { stats = incre_receive_pkts s.stats } in
    let (thread, lt, e, _) =
      get_thread_index_turn s' set.group set.threads set.group_lem set.threads_lem set.group_pos
        set.group_fits set.threads_pos set.threads_few in
    subst (StepsTo s 0 0) (sym (would_block_lem chunks buf s thread e)) record {
      moved = omega arith;
      workers = (rw set.threads_lem lt, tt);
      same_threads = refl;
      same_group = refl;
    }
received-StepsTo chunks end_of_file buf s set = delete-Steps s
received-StepsTo chunks failed buf s set = delete-Steps s

accepted-StepsTo :
    (s : Server) (count : ℕ) (o : Option Server)
    → ((s' : Server)
        → o ≡ some s'
        → Moved s.usr_num s'.usr_num count 0
          × (s'.threads_num ≡ s.threads_num)
          × (s'.packets_group ≡ s.packets_group))
    → StepsTo s count 0 (of_accepted o)
accepted-StepsTo s count none h = tt
accepted-StepsTo s count (some s') h =
    let (moved, threads, group) = h s' refl in
    record { moved = moved; workers = tt; same_threads = threads; same_group = group }

of_action-StepsTo :
    (a : Action) (e : Event) (s : Server)
    → IsConfigured s
    → StepsTo s (joins_by a e.accepted) (leaves_by a e.end) (of_action a e s)
unfolding of_action
of_action-StepsTo delete e s set = delete-Steps s
of_action-StepsTo accept e s set =
    accepted-StepsTo s (count_of e.accepted) (accept_epoll_events e.accepted s) (λ s' h.
      let (threads, group) = accept_settings e.accepted s s' h in
      (accept-Moved e.accepted s s' h, threads, group))
of_action-StepsTo receive e s set = received-StepsTo e.chunks e.end e.buf s set

Steps-trans :
    (s s' s'' : Server) (out out' : List Handed) (came went came' went' : ℕ)
    → Steps s s' out came went
    → Steps s' s'' out' came' went'
    → Steps s s'' (out ++ out') (came + came') (went + went')
Steps-trans s s' s'' out out' came went came' went' h h' = record {
  moved = Moved-trans s.usr_num s'.usr_num s''.usr_num came went came' went' h.moved h'.moved;
  workers = All-append _ out out' h.workers (rw h.same_threads at h'.workers);
  same_threads = h'.same_threads ∙ h.same_threads;
  same_group = h'.same_group ∙ h.same_group;
}

set-IsConfigured :
    (s s' : Server) (out : List Handed) (came went : ℕ)
    → IsConfigured s
    → Steps s s' out came went
    → IsConfigured s'
set-IsConfigured s s' out came went set h = record {
  group = set.group;
  threads = set.threads;
  group_pos = set.group_pos;
  group_fits = set.group_fits;
  threads_pos = set.threads_pos;
  threads_few = set.threads_few;
  group_lem = h.same_group ∙ set.group_lem;
  threads_lem = h.same_threads ∙ set.threads_lem;
}

-- Two runs, one after the other.
then-StepsTo :
    (s : Server) (came went came' went' : ℕ) (o : Option (Server × List Handed))
    (next : Server → Option (Server × List Handed))
    → StepsTo s came went o
    → ((s' : Server) (out : List Handed)
        → Steps s s' out came went
        → StepsTo s' came' went' (next s'))
    → StepsTo s
        (came + came')
        (went + went')
        (o >>= λ first. next (first.0) >>= λ rest. some (rest.0, first.1 ++ rest.1))
then-StepsTo s came went came' went' none next h h' = tt
then-StepsTo s came went came' went' (some (s', out)) next h h' = after (next s') (h' s' out h)
  where
    after :
        (o : Option (Server × List Handed))
        → StepsTo s' came' went' o
        → StepsTo s (came + came') (went + went') (o >>= λ rest. some (rest.0, out ++ rest.1))
    after none k = tt
    after (some (s'', out')) k = Steps-trans s s' s'' out out' came went came' went' h k

on_events-StepsTo :
    (events : List Event) (s : Server)
    → IsConfigured s
    → StepsTo s (joins events) (leaves events) (on_events events s)
unfolding on_events on_event
on_events-StepsTo [] s set = record {
  moved = omega arith;
  workers = tt;
  same_threads = refl;
  same_group = refl;
}
on_events-StepsTo (e ∷ events) s set =
    then-StepsTo s _ _ (joins events) (leaves events) (of_action (dispatch e.ready) e s)
      (on_events events) (of_action-StepsTo (dispatch e.ready) e s set)
      (λ s' out h. on_events-StepsTo events s' (set-IsConfigured s s' out _ _ set h))

-- Whatever events the epoll thread is given, if it goes on, the count of users changes by those
-- that were accepted less those that were deleted, every packet goes to the index of an existing
-- worker, and the settings stay, if the group is positive and below 2 ^ 31 and there are 1 to 20
-- threads.
pub on_events-Steps :
    (events : List Event) (s s' : Server) (out : List Handed)
    → IsConfigured s
    → on_events events s ≡ some (s', out)
    → Steps s s' out (joins events) (leaves events)
on_events-Steps events s s' out set e = let h = on_events-StepsTo events s set in rw e at h
