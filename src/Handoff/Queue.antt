-- ===== src/Handoff/Queue.antt =====
-- What the hand-off of server/server.c promises: a bounded queue between the epoll thread and a
-- worker, of which each step of the two threads is one operation, or none.
use da_bao.Base.{◌-◌, ◌<◌, ◌≡◌, arith, ap, ◌∙◌, sym, List, [], ◌∷◌, ◌++◌, length}
use mathlib.Core.Path.{subst}
use da_bao.Ring.{ring_size, EpollPacket, ring_buffer_pop}
use da_bao.Ring.Laws.{contents, contents-write_head, length-contents, used-avail}
use da_bao.Ring.Laws.{push_refines, pop_refines}
use da_bao.Handoff.{Producer, Consumer, System, Step, Calm}
use da_bao.Handoff.{arrive, has_room, is_full, producer_waits, store, push, signal_not_empty}
use da_bao.Handoff.{has_packet, is_empty, consumer_waits, copy, pop, signal_not_full}
use da_bao.Handoff.Laws.{Inv, Calm-Inv, Knows, Sees}

pub record Queue : Type 0 where
  pub waiting : List EpollPacket
  pub delivered : List EpollPacket

pub data Operation : Type 0 where
  internal : Operation
  enqueue dequeue : EpollPacket → Operation

-- One slot of the ring stays free.
pub data Transition (q : Queue) : Operation → Queue → Type 0 where
  stays : Transition q internal q
  enqueues :
      (p : EpollPacket)
      → length q.waiting < ring_size - 1
      → Transition q (enqueue p) (record q { waiting = q.waiting ++ (p ∷ []) })
  dequeues :
      (p : EpollPacket) (rest : List EpollPacket)
      → q.waiting ≡ p ∷ rest
      → Transition q (dequeue p) (record { waiting = rest; delivered = q.delivered ++ (p ∷ []) })

-- What a step does to the queue: a push of the packet stored, a pop of the packet copied, or
-- nothing.
abbrev pub operation : {s t : System} → Step s t → Operation
operation (push p e) = enqueue p
operation (pop p e) = dequeue p
operation _ = internal

abbrev pub queue_of : System → Queue
queue_of s = record { waiting = contents s.ring; delivered = s.taken }

Step-Transition :
    {s t : System} (step : Step s t) → Inv s → Transition (queue_of s) (operation step) (queue_of t)
Step-Transition (arrive p e) inv = stays
Step-Transition (has_room p e room) inv = stays
Step-Transition (is_full p e full) inv = stays
Step-Transition (producer_waits p e) inv = stays
Step-Transition {s} (store p e) inv =
    subst (λ l. Transition (queue_of s) internal (record { waiting = l; delivered = s.taken }))
      (sym (contents-write_head s.ring p inv.valid)) stays
Step-Transition {s} (push p e) inv =
    let ready : Knows s.ring (Producer.pushing p) = subst (Knows s.ring) e inv.knows in
    subst (λ l. Transition (queue_of s) (enqueue p) (record { waiting = l; delivered = s.taken }))
      (ap (λ q. contents s.ring ++ (q ∷ [])) (sym ready.1)
        ∙ sym (push_refines s.ring inv.valid ready.0))
      (enqueues p (omega (arith, ready.0, length-contents s.ring, used-avail s.ring)))
Step-Transition (signal_not_empty e) inv = stays
Step-Transition (has_packet e h) inv = stays
Step-Transition (is_empty e h) inv = stays
Step-Transition (consumer_waits e) inv = stays
Step-Transition (copy e) inv = stays
Step-Transition {s} (pop p e) inv =
    let ready : Sees s.ring (Consumer.popping p) = subst (Sees s.ring) e inv.sees in
    dequeues p (contents (ring_buffer_pop s.ring)) (
      pop_refines s.ring inv.valid ready.0
      ∙ ap (λ q. q ∷ contents (ring_buffer_pop s.ring)) ready.1)
Step-Transition (signal_not_full e) inv = stays

-- After a run of the epoll thread and a worker whose signals wake a thread only when what it waits
-- for holds, every step of the two threads is one operation of a queue that holds at most 4095
-- packets, which are those that wait in the ring: a push appends the packet stored, when there is
-- room for it, a pop takes the oldest, which is the packet copied, and hands it over, and every
-- other step leaves the queue as it is.
pub Calm-Transition :
    {s t : System} (calm : Calm s) (step : Step s t)
    → Transition (queue_of s) (operation step) (queue_of t)
Calm-Transition calm step = Step-Transition step (Calm-Inv calm)
