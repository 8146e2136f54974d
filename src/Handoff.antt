-- ===== src/Handoff.antt =====
-- How server.c hands packets over the ring: the end of `processEPOLLIN` (one epoll thread) and the
-- loop of `processPackets` (one worker), as a step relation over their program points.
-- The worker never locks `mlock`, so the mutex keeps the two from nothing; every interleaving of the
-- steps is taken. A `pthread_cond_wait` ends when the other thread signals while it waits, and is
-- followed by no second test, as in the code. Each `unsigned int` is read and written in one step.
pub mod Laws
pub mod Faults
pub mod Drain
pub mod Queue
use da_bao.Base.{ℕ, ◌≤◌, ◌<◌, ◌≡◌, List, [], ◌∷◌, ◌++◌}
use da_bao.Ring.{EpollPacket, RingBuffer, ring_buffer_tail, write_head, ring_buffer_push}
use da_bao.Ring.{ring_buffer_pop, ring_buffer_used, ring_buffer_avail, ring_buffer_init}

-- The epoll thread: before the test of `ring_buffer_avail`, past it and about to wait, in the
-- wait, about to fill the slot, about to push, about to signal.
pub data Producer : Type 0 where
  idle signalling : Producer
  testing drowsy waiting storing pushing : EpollPacket → Producer

-- The worker: before the test of `ring_buffer_used`, past it and about to wait, in the wait, about
-- to copy the packet, about to pop, about to signal.
pub data Consumer : Type 0 where
  testing drowsy waiting copying signalling : Consumer
  popping : EpollPacket → Consumer

-- `sent` and `taken` record the packets that were pushed and those that were popped.
pub record System : Type 0 where
  pub ring : RingBuffer
  pub producer : Producer
  pub consumer : Consumer
  pub sent : List EpollPacket
  pub taken : List EpollPacket

-- `pthread_cond_signal`: wakes a thread that waits, and is lost on any other.
unfoldable pub wake_consumer : Consumer → Consumer
wake_consumer Consumer.waiting = copying
wake_consumer c = c

unfoldable pub wake_producer : Producer → Producer
wake_producer (Producer.waiting p) = storing p
wake_producer q = q

pub data Step (s : System) : System → Type 0 where
  arrive :
      (p : EpollPacket) → s.producer ≡ idle → Step s (record s { producer = Producer.testing p })
  has_room :
      (p : EpollPacket)
      → s.producer ≡ Producer.testing p
      → 1 < ring_buffer_avail s.ring
      → Step s (record s { producer = storing p })
  is_full :
      (p : EpollPacket)
      → s.producer ≡ Producer.testing p
      → ring_buffer_avail s.ring ≤ 1
      → Step s (record s { producer = Producer.drowsy p })
  producer_waits :
      (p : EpollPacket)
      → s.producer ≡ Producer.drowsy p
      → Step s (record s { producer = Producer.waiting p })
  store :
      (p : EpollPacket)
      → s.producer ≡ storing p
      → Step s (record s { producer = pushing p; ring = write_head s.ring p })
  push :
      (p : EpollPacket)
      → s.producer ≡ pushing p
      → Step s (record s {
        producer = Producer.signalling;
        ring = ring_buffer_push s.ring;
        sent = s.sent ++ (p ∷ []);
      })
  signal_not_empty :
      s.producer ≡ Producer.signalling
      → Step s (record s { producer = idle; consumer = wake_consumer s.consumer })
  has_packet :
      s.consumer ≡ Consumer.testing
      → 0 < ring_buffer_used s.ring
      → Step s (record s { consumer = copying })
  is_empty :
      s.consumer ≡ Consumer.testing
      → ring_buffer_used s.ring ≤ 0
      → Step s (record s { consumer = Consumer.drowsy })
  consumer_waits : s.consumer ≡ Consumer.drowsy → Step s (record s { consumer = Consumer.waiting })
  copy : s.consumer ≡ copying → Step s (record s { consumer = popping (ring_buffer_tail s.ring) })
  pop :
      (p : EpollPacket)
      → s.consumer ≡ popping p
      → Step s (record s {
        consumer = Consumer.signalling;
        ring = ring_buffer_pop s.ring;
        taken = s.taken ++ (p ∷ []);
      })
  signal_not_full :
      s.consumer ≡ Consumer.signalling
      → Step s (record s { consumer = Consumer.testing; producer = wake_producer s.producer })

abbrev pub start : System
start = record {
  ring = ring_buffer_init;
  producer = idle;
  consumer = Consumer.testing;
  sent = [];
  taken = [];
}

pub data Reach : System → Type 0 where
  here : Reach start
  next : {s t : System} → Reach s → Step s t → Reach t

-- A signal is timely if the thread that it wakes finds what it waited for.
abbrev pub Timely : {s t : System} → Step s t → Type 0
Timely {s} (signal_not_empty _) = s.consumer ≡ Consumer.waiting → 0 < ring_buffer_used s.ring
Timely {s} (signal_not_full _) =
    (p : EpollPacket) → s.producer ≡ Producer.waiting p → 1 < ring_buffer_avail s.ring
Timely _ = Unit

-- The runs whose signals are all timely.
pub data Calm : System → Type 0 where
  here : Calm start
  next : {s t : System} → Calm s → (step : Step s t) → Timely step → Calm t
