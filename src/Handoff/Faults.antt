-- ===== src/Handoff/Faults.antt =====
-- Two runs that go wrong: a signal that comes too early, and one that comes too late.
use da_bao.Base.{◌≡◌, refl, arith, [], ◌∷◌}
use da_bao.Ring.{EpollPacket, RingBuffer, zero_packet, ring_buffer_tail}
use da_bao.Ring.{
  write_head, ring_buffer_push, ring_buffer_pop, ring_buffer_used, ring_buffer_avail,
  ring_buffer_init,
}
use da_bao.Ring.Laws.{window, contents}
use da_bao.Handoff.{Producer, Consumer, System, wake_consumer, wake_producer, Step, start}
use da_bao.Handoff.{arrive, has_room, is_full, producer_waits, store, push, signal_not_empty, Reach}
use da_bao.Handoff.{has_packet, is_empty, consumer_waits, copy, pop, signal_not_full}

module _ (p : EpollPacket) where
  -- The epoll thread has pushed `p` and has not signalled yet.
  abbrev pub pushed : Consumer → System
  pushed c = record {
    ring = ring_buffer_push (write_head ring_buffer_init p);
    producer = Producer.signalling;
    consumer = c;
    sent = p ∷ [];
    taken = [];
  }

  -- The four steps of the epoll thread up to its push, from the start of a run.
  fill : (c : Consumer) → Reach (record start { consumer = c }) → Reach (pushed c)
  unfolding ring_buffer_used ring_buffer_avail ring_buffer_init
  fill c r =
      Reach.next
        (Reach.next (Reach.next (Reach.next r (arrive p refl)) (has_room p refl (omega arith)))
          (store p refl))
        (push p refl)

  Reach-pushed : Reach (pushed Consumer.testing)
  Reach-pushed = fill Consumer.testing Reach.here

  abbrev popped_ring : RingBuffer
  popped_ring = ring_buffer_pop (ring_buffer_push (write_head ring_buffer_init p))

  early : System
  early = record {
    ring = ring_buffer_pop popped_ring;
    producer = Producer.idle;
    consumer = Consumer.signalling;
    sent = p ∷ [];
    taken = p ∷ zero_packet ∷ [];
  }

  Reach-early : Reach early
  unfolding early ring_buffer_used ring_buffer_init wake_consumer wake_producer ring_buffer_tail
      ring_buffer_push ring_buffer_pop write_head
  Reach-early =
      Reach.next
        (Reach.next
          (Reach.next
            (Reach.next
              (Reach.next
                (Reach.next
                  (Reach.next
                    (Reach.next (Reach.next Reach-pushed (has_packet refl (omega arith)))
                      (copy refl))
                    (pop p refl))
                  (signal_not_full refl))
                (is_empty refl (omega arith)))
              (consumer_waits refl))
            (signal_not_empty refl))
          (copy refl))
        (pop zero_packet refl)

  -- For every packet a state is reached in which one packet was pushed and two were taken, the
  -- second being the empty packet that a slot first holds.
  pub early_signal : (s : System) × Reach s × (s.sent ≡ p ∷ []) × (s.taken ≡ p ∷ zero_packet ∷ [])
  unfolding early
  early_signal = (early, Reach-early, refl, refl)

  abbrev pub stranded : System
  stranded = record (pushed Consumer.waiting) { producer = Producer.idle }

  Reach-stranded : Reach stranded
  unfolding ring_buffer_used ring_buffer_init wake_consumer
  Reach-stranded =
      Reach.next
        (Reach.next (fill Consumer.drowsy (Reach.next Reach.here (is_empty refl (omega arith))))
          (signal_not_empty refl))
        (consumer_waits refl)

  stranded_steps :
      {t : System}
      → Step stranded t
      → (q : EpollPacket) × (t ≡ record stranded { producer = Producer.testing q })
  stranded_steps (arrive q e) = (q, refl)
  stranded_steps (has_room q e h) = cc
  stranded_steps (is_full q e h) = cc
  stranded_steps (producer_waits q e) = cc
  stranded_steps (store q e) = cc
  stranded_steps (push q e) = cc
  stranded_steps (signal_not_empty e) = cc
  stranded_steps (has_packet e h) = cc
  stranded_steps (is_empty e h) = cc
  stranded_steps (consumer_waits e) = cc
  stranded_steps (copy e) = cc
  stranded_steps (pop q e) = cc
  stranded_steps (signal_not_full e) = cc

  -- For every packet a state is reached in which it is in the ring while the worker waits, and each
  -- step from it is the arrival of another packet.
  pub late_signal :
      {t : System}
      → Step stranded t
      → Reach stranded
        × (contents stranded.ring ≡ p ∷ [])
        × (stranded.consumer ≡ Consumer.waiting)
        × ((q : EpollPacket) × (t ≡ record stranded { producer = Producer.testing q }))
  unfolding contents window ring_buffer_used ring_buffer_init ring_buffer_push write_head
  late_signal step = (Reach-stranded, refl, refl, stranded_steps step)
