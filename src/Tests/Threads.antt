-- ===== src/Tests/Threads.antt =====
-- A ring with one packet, a full ring, and a run of the two threads.
use da_bao.Base.{◌*◌, ◌≡◌, refl, arith, [], ◌∷◌, ◌++◌, length-replicate, replicate}
use da_bao.Ring.{
  EpollPacket, zero_packet, RingBuffer, ring_size, ring_buffer_init, write_head, ring_buffer_push,
  ring_buffer_pop, ring_buffer_head, ring_buffer_tail, ring_buffer_used, ring_buffer_avail,
}
use da_bao.Ring.Laws.{
  IsValid, contents, push_refines, pop_refines, init-IsValid, write_head-IsValid,
}
use da_bao.Handoff.{
  System, start, Calm, Step, arrive, has_room, store, push, Producer, Consumer, Reach,
}
use da_bao.Handoff.Laws.{Inv, Calm-Inv}
use da_bao.Handoff.Queue.{Transition, enqueue, queue_of, Calm-Transition}
use da_bao.Statistics.Races.{Moves, outside}
use da_bao.Statistics.Races.Laws.{two_workers, lost_counts}
use da_bao.Handoff.Drain.{Drained, Calm-Drained}
use da_bao.Handoff.Faults.{early_signal, late_signal, stranded}

abbrev packet : EpollPacket
packet = record zero_packet { fd = 5; efd = 3 }

abbrev one_packet : RingBuffer
one_packet = write_head ring_buffer_init packet

one_packet-IsValid : IsValid one_packet
one_packet-IsValid = write_head-IsValid packet init-IsValid

-- Slots 1 to 4095 wait.
abbrev full_ring : RingBuffer
full_ring = record { head = 0; tail = 1; buf = replicate ring_size packet }

full_ring-IsValid : IsValid full_ring
full_ring-IsValid = record {
  head_in = omega arith;
  tail_in = omega arith;
  slots = length-replicate ring_size packet;
}

push_refines_example :
    contents (ring_buffer_push one_packet)
    ≡ contents one_packet ++ (ring_buffer_head one_packet ∷ [])
unfolding ring_buffer_avail write_head ring_buffer_init ring_buffer_used
push_refines_example = push_refines one_packet one_packet-IsValid (omega arith)

pop_refines_example :
    contents full_ring ≡ ring_buffer_tail full_ring ∷ contents (ring_buffer_pop full_ring)
unfolding ring_buffer_used
pop_refines_example = pop_refines full_ring full_ring-IsValid (omega arith)

abbrev after_push : System
after_push = record {
  ring = ring_buffer_push one_packet;
  producer = Producer.signalling;
  consumer = start.consumer;
  sent = packet ∷ [];
  taken = [];
}

abbrev before_push : System
before_push = record {
  ring = one_packet;
  producer = Producer.pushing packet;
  consumer = start.consumer;
  sent = [];
  taken = [];
}

Calm-stored : Calm before_push
unfolding ring_buffer_avail ring_buffer_used ring_buffer_init
Calm-stored =
    Calm.next
      (Calm.next (Calm.next Calm.here (arrive packet refl) tt) (has_room packet refl (omega arith))
        tt)
      (store packet refl) tt

Calm-Transition_example : Transition (queue_of before_push) (enqueue packet) (queue_of after_push)
Calm-Transition_example = Calm-Transition Calm-stored (push packet refl)

Calm-pushed : Calm after_push
Calm-pushed = Calm.next Calm-stored (push packet refl) tt

Calm-Inv_example : Inv after_push
Calm-Inv_example = Calm-Inv Calm-pushed

Calm-Drained_example : Drained after_push (ring_buffer_used after_push.ring * 4)
Calm-Drained_example = Calm-Drained Calm-pushed refl

early_signal_example :
    (s : System) × Reach s × (s.sent ≡ packet ∷ []) × (s.taken ≡ packet ∷ zero_packet ∷ [])
early_signal_example = early_signal packet

Step-late : Step (stranded packet) (record (stranded packet) { producer = Producer.testing packet })
Step-late = arrive packet refl

late_signal_example :
    Reach (stranded packet)
    × (contents (stranded packet).ring ≡ packet ∷ [])
    × ((stranded packet).consumer ≡ Consumer.waiting)
    × ((q : EpollPacket) × (record (stranded packet) { producer = Producer.testing packet }
          ≡ record (stranded packet) { producer = Producer.testing q }))
late_signal_example = late_signal packet Step-late

-- Six packets are counted, and the counter goes from 3 to 4.
lost_counts_example : Moves (two_workers outside 3 0) (two_workers outside 4 6)
lost_counts_example = lost_counts 5 3
