-- ===== src/Handoff/Laws.antt =====
-- While signals are timely, the worker takes the packets that were pushed, each once, in order.
use da_bao.Base.{◌<◌, ◌≡◌, refl, arith, ap, ◌∙◌, sym}
use mathlib.Core.Path.{subst}
use da_bao.Base.{[], ◌∷◌, ◌++◌}
use mathlib.Core.List.{append_assoc}
use da_bao.Ring.{EpollPacket, RingBuffer, ring_buffer_tail, ring_buffer_head}
use da_bao.Ring.{write_head, ring_buffer_push, ring_buffer_pop, ring_buffer_used, ring_buffer_avail}
use da_bao.Ring.Laws.{
  IsValid, contents, push-IsValid, pop-IsValid, write_head-IsValid, init-IsValid,
}
use da_bao.Ring.Laws.{
  used-avail, contents-init, contents-write_head, head-write_head, used-write_head,
}
use da_bao.Ring.Laws.{
  tail-write_head, used-push, used-pop, head-pop, tail-push, push_refines, pop_refines,
}
use da_bao.Handoff.{Producer, Consumer, System, wake_consumer, wake_producer, Step, Timely, Calm}
use da_bao.Handoff.{arrive, has_room, is_full, producer_waits, store, push, signal_not_empty}
use da_bao.Handoff.{has_packet, is_empty, consumer_waits, copy, pop, signal_not_full}

-- What each program point knows of the ring.
abbrev pub Knows : RingBuffer → Producer → Type 0
Knows r (Producer.storing p) = 1 < ring_buffer_avail r
Knows r (Producer.pushing p) = (1 < ring_buffer_avail r) × (ring_buffer_head r ≡ p)
Knows r _ = Unit

abbrev pub Sees : RingBuffer → Consumer → Type 0
Sees r Consumer.copying = 0 < ring_buffer_used r
Sees r (Consumer.popping p) = (0 < ring_buffer_used r) × (ring_buffer_tail r ≡ p)
Sees r _ = Unit

pub record Inv (s : System) : Type 0 where
  pub valid : IsValid s.ring
  pub fifo : s.sent ≡ s.taken ++ contents s.ring
  pub knows : Knows s.ring s.producer
  pub sees : Sees s.ring s.consumer

Knows-pop :
    (r : RingBuffer) (q : Producer)
    → IsValid r
    → 0 < ring_buffer_used r
    → Knows r q
    → Knows (ring_buffer_pop r) q
Knows-pop r (Producer.storing p) v h k =
    omega (arith, used-pop r v h, used-avail r, used-avail (ring_buffer_pop r))
Knows-pop r (Producer.pushing p) v h k =
    (omega (arith, used-pop r v h, used-avail r, used-avail (ring_buffer_pop r)), head-pop r ∙ k.1)
Knows-pop r _ v h k = tt

Sees-push :
    (r : RingBuffer) (c : Consumer)
    → IsValid r
    → 1 < ring_buffer_avail r
    → Sees r c
    → Sees (ring_buffer_push r) c
Sees-push r Consumer.copying v h k = omega (arith, used-push r v h)
Sees-push r (Consumer.popping p) v h k = (omega (arith, used-push r v h), tail-push r ∙ k.1)
Sees-push r _ v h k = tt

Sees-write_head :
    (r : RingBuffer) (p : EpollPacket) (c : Consumer)
    → IsValid r
    → Sees r c
    → Sees (write_head r p) c
Sees-write_head r p Consumer.copying v k = omega (arith, used-write_head r p)
Sees-write_head r p (Consumer.popping q) v k =
    (omega (arith, used-write_head r p), tail-write_head r p v k.0 ∙ k.1)
Sees-write_head r p _ v k = tt

Sees-wake :
    (r : RingBuffer) (c : Consumer)
    → Sees r c
    → (c ≡ Consumer.waiting → 0 < ring_buffer_used r)
    → Sees r (wake_consumer c)
unfolding wake_consumer
Sees-wake r Consumer.waiting k h = h refl
Sees-wake r Consumer.copying k h = k
Sees-wake r (Consumer.popping p) k h = k
Sees-wake r _ k h = tt

Knows-wake :
    (r : RingBuffer) (q : Producer)
    → Knows r q
    → ((p : EpollPacket) → q ≡ Producer.waiting p → 1 < ring_buffer_avail r)
    → Knows r (wake_producer q)
unfolding wake_producer
Knows-wake r (Producer.waiting p) k h = h p refl
Knows-wake r (Producer.storing p) k h = k
Knows-wake r (Producer.pushing p) k h = k
Knows-wake r _ k h = tt

Step-Inv : {s t : System} (step : Step s t) → Timely step → Inv s → Inv t
Step-Inv (arrive p e) timely inv = record {
  valid = inv.valid;
  fifo = inv.fifo;
  knows = tt;
  sees = inv.sees;
}
Step-Inv {s} (has_room p e room) timely inv = record {
  valid = inv.valid;
  fifo = inv.fifo;
  knows = room;
  sees = inv.sees;
}
Step-Inv (is_full p e full) timely inv = record {
  valid = inv.valid;
  fifo = inv.fifo;
  knows = tt;
  sees = inv.sees;
}
Step-Inv (producer_waits p e) timely inv = record {
  valid = inv.valid;
  fifo = inv.fifo;
  knows = tt;
  sees = inv.sees;
}
Step-Inv {s} (store p e) timely inv =
    let room : 1 < ring_buffer_avail s.ring = subst (Knows s.ring) e inv.knows in
    record {
      valid = write_head-IsValid p inv.valid;
      fifo = inv.fifo ∙ ap (λ l. s.taken ++ l) (sym (contents-write_head s.ring p inv.valid));
      knows = (
        omega
            (arith, used-write_head s.ring p, used-avail s.ring, used-avail (write_head s.ring p)),
        head-write_head s.ring p inv.valid,
      );
      sees = Sees-write_head s.ring p s.consumer inv.valid inv.sees;
    }
Step-Inv {s} (push p e) timely inv =
    let ready : Knows s.ring (Producer.pushing p) = subst (Knows s.ring) e inv.knows in
    record {
      valid = push-IsValid inv.valid;
      fifo =
          ap (λ l. l ++ (p ∷ [])) inv.fifo
          ∙ append_assoc s.taken (contents s.ring) (p ∷ [])
          ∙ ap (λ q. s.taken ++ (contents s.ring ++ (q ∷ []))) (sym ready.1)
          ∙ ap (λ l. s.taken ++ l) (sym (push_refines s.ring inv.valid ready.0));
      knows = tt;
      sees = Sees-push s.ring s.consumer inv.valid ready.0 inv.sees;
    }
Step-Inv {s} (signal_not_empty e) timely inv = record {
  valid = inv.valid;
  fifo = inv.fifo;
  knows = tt;
  sees = Sees-wake s.ring s.consumer inv.sees timely;
}
Step-Inv (has_packet e h) timely inv = record {
  valid = inv.valid;
  fifo = inv.fifo;
  knows = inv.knows;
  sees = h;
}
Step-Inv (is_empty e h) timely inv = record {
  valid = inv.valid;
  fifo = inv.fifo;
  knows = inv.knows;
  sees = tt;
}
Step-Inv (consumer_waits e) timely inv = record {
  valid = inv.valid;
  fifo = inv.fifo;
  knows = inv.knows;
  sees = tt;
}
Step-Inv {s} (copy e) timely inv = record {
  valid = inv.valid;
  fifo = inv.fifo;
  knows = inv.knows;
  sees = (subst (Sees s.ring) e inv.sees, refl);
}
Step-Inv {s} (pop p e) timely inv =
    let ready : Sees s.ring (Consumer.popping p) = subst (Sees s.ring) e inv.sees in
    record {
      valid = pop-IsValid inv.valid;
      fifo =
          inv.fifo
          ∙ ap (λ l. s.taken ++ l) (pop_refines s.ring inv.valid ready.0)
          ∙ ap (λ q. s.taken ++ (q ∷ contents (ring_buffer_pop s.ring))) ready.1
          ∙ sym (append_assoc s.taken (p ∷ []) (contents (ring_buffer_pop s.ring)));
      knows = Knows-pop s.ring s.producer inv.valid ready.0 inv.knows;
      sees = tt;
    }
Step-Inv {s} (signal_not_full e) timely inv = record {
  valid = inv.valid;
  fifo = inv.fifo;
  knows = Knows-wake s.ring s.producer inv.knows timely;
  sees = tt;
}

-- In every run of the epoll thread and a worker whose signals wake a thread only when what it waits
-- for holds, the packets pushed are the packets taken followed by those in the ring, in order, and
-- head, tail and slots stay in range.
pub Calm-Inv : {s : System} → Calm s → Inv s
Calm-Inv Calm.here = record {
  valid = init-IsValid;
  fifo = sym contents-init;
  knows = tt;
  sees = tt;
}
Calm-Inv (Calm.next r step timely) = Step-Inv step timely (Calm-Inv r)
