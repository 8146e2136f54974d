-- ===== src/Ring/Laws.antt =====
-- A valid ring holds a queue, and its operations are those of the queue.
use da_bao.Base.{ℕ, zero, suc, ◌+◌, ◌-◌, ◌%◌, ◌^◌, ◌≤◌, ◌<◌, ◌≡◌, refl, arith, ap, ap₂, ◌∙◌, sym}
use da_bao.Base.{List, [], ◌∷◌, ◌++◌, length, get_or, set, u32}
use da_bao.Base.{length-set, length-replicate, get_or-set_self, get_or-set_ne}
use da_bao.Base.Bits.{bit_and_low}
use da_bao.Ring.{
  ring_size, EpollPacket, zero_packet, RingBuffer, ring_buffer_tail, ring_buffer_head,
}
use da_bao.Ring.{
  write_head, ring_buffer_push, ring_buffer_pop, ring_buffer_used, ring_buffer_avail,
  ring_buffer_init,
}

pub record IsValid (r : RingBuffer) : Type 0 where
  pub head_in : r.head < ring_size
  pub tail_in : r.tail < ring_size
  pub slots : length r.buf ≡ ring_size

-- The `n` slots from `t` on, going round.
unfoldable pub window : List EpollPacket → ℕ → ℕ → List EpollPacket
window buf t zero = []
window buf t (suc n) = get_or buf t zero_packet ∷ window buf ((t + 1) % ring_size) n

-- The packets that wait in the ring, the oldest first.
unfoldable pub contents : RingBuffer → List EpollPacket
unfolding window
contents r = window r.buf r.tail (ring_buffer_used r)

-- The masked difference is the number of steps from the tail to the head.
used_lem :
    (r : RingBuffer) → IsValid r → ring_buffer_used r ≡ (r.head + ring_size - r.tail) % ring_size
unfolding ring_buffer_used
used_lem r v = omega (arith, bit_and_low 12 (u32 (r.head + 2 ^ 32 - r.tail)))

head-push : (r : RingBuffer) → (ring_buffer_push r).head ≡ u32 (r.head + 1) % ring_size
unfolding ring_buffer_push
head-push r = bit_and_low 12 (u32 (r.head + 1))

tail-pop :
    (r : RingBuffer) → r.tail < ring_size → (ring_buffer_pop r).tail ≡ (r.tail + 1) % ring_size
unfolding ring_buffer_pop
tail-pop r h = omega (arith, bit_and_low 12 (u32 (r.tail + 1)))

pub push-IsValid : {r : RingBuffer} → IsValid r → IsValid (ring_buffer_push r)
unfolding ring_buffer_push
push-IsValid {r} v = omega (arith, bit_and_low 12 (u32 (r.head + 1)))

pub pop-IsValid : {r : RingBuffer} → IsValid r → IsValid (ring_buffer_pop r)
unfolding ring_buffer_pop
pop-IsValid {r} v = omega (arith, bit_and_low 12 (u32 (r.tail + 1)))

pub write_head-IsValid : {r : RingBuffer} (p : EpollPacket) → IsValid r → IsValid (write_head r p)
unfolding write_head
write_head-IsValid {r} p v = omega (arith, length-set r.buf r.head p)

pub init-IsValid : IsValid ring_buffer_init
unfolding ring_buffer_init
init-IsValid = record {
  head_in = omega arith;
  tail_in = omega arith;
  slots = length-replicate ring_size zero_packet;
}

pub used-lt : (r : RingBuffer) → IsValid r → ring_buffer_used r < ring_size
used-lt r v = omega (arith, used_lem r v)

pub used-avail : (r : RingBuffer) → ring_buffer_avail r ≡ ring_size - ring_buffer_used r
unfolding ring_buffer_avail
used-avail r = refl

pub length-window : (buf : List EpollPacket) (t n : ℕ) → length (window buf t n) ≡ n
unfolding window
length-window buf t zero = refl
length-window buf t (suc n) = ap suc (length-window buf ((t + 1) % ring_size) n)

-- `ring_buffer_used` counts the packets that wait.
pub length-contents : (r : RingBuffer) → length (contents r) ≡ ring_buffer_used r
unfolding contents
length-contents r = length-window r.buf r.tail (ring_buffer_used r)

pub contents_none : (r : RingBuffer) → ring_buffer_used r ≡ 0 → contents r ≡ []
unfolding contents window
contents_none r e = rw e refl

pub contents-init : contents ring_buffer_init ≡ []
unfolding contents ring_buffer_init ring_buffer_used
contents-init = refl

-- A window of one slot more ends in the slot behind.
window-snoc :
    (buf : List EpollPacket) (n t h : ℕ)
    → t < ring_size
    → h ≡ (t + n) % ring_size
    → window buf t (suc n) ≡ window buf t n ++ (get_or buf h zero_packet ∷ [])
unfolding window
window-snoc buf zero t h ht e =
    let same : t ≡ h = omega arith in ap (λ k. get_or buf k zero_packet ∷ []) same
window-snoc buf (suc n) t h ht e =
    ap (λ l. get_or buf t zero_packet ∷ l)
      (window-snoc buf n ((t + 1) % ring_size) h (omega arith) (omega arith))

-- Writing the slot behind a window does not change the window.
window-set :
    (buf : List EpollPacket) (p : EpollPacket) (n t h d : ℕ)
    → t < ring_size
    → n + d < ring_size
    → h ≡ (t + n + d) % ring_size
    → window (set buf h p) t n ≡ window buf t n
unfolding window
window-set buf p zero t h d ht hn e = refl
window-set buf p (suc n) t h d ht hn e =
    ap₂ ◌∷◌ (get_or-set_ne buf p zero_packet (omega arith))
      (window-set buf p n ((t + 1) % ring_size) h d (omega arith) (omega arith) (omega arith))

-- Filling the slot at the head changes nothing that waits, and the slot holds the packet.
pub contents-write_head :
    (r : RingBuffer) (p : EpollPacket) → IsValid r → contents (write_head r p) ≡ contents r
unfolding contents write_head ring_buffer_used
contents-write_head r p v =
    window-set r.buf p (ring_buffer_used r) r.tail r.head 0 v.tail_in (omega (arith, used_lem r v))
      (omega (arith, used_lem r v))

pub head-write_head :
    (r : RingBuffer) (p : EpollPacket) → IsValid r → ring_buffer_head (write_head r p) ≡ p
unfolding ring_buffer_head write_head
head-write_head r p v = get_or-set_self r.buf r.head p zero_packet (omega arith)

pub used-write_head :
    (r : RingBuffer) (p : EpollPacket) → ring_buffer_used (write_head r p) ≡ ring_buffer_used r
unfolding ring_buffer_used write_head
used-write_head r p = refl

pub tail-write_head :
    (r : RingBuffer) (p : EpollPacket)
    → IsValid r
    → 0 < ring_buffer_used r
    → ring_buffer_tail (write_head r p) ≡ ring_buffer_tail r
unfolding ring_buffer_tail write_head
tail-write_head r p v h = get_or-set_ne r.buf p zero_packet (omega (arith, used_lem r v))

-- Below the limit a push counts one packet more, a pop one less.
pub used-push :
    (r : RingBuffer)
    → IsValid r
    → 1 < ring_buffer_avail r
    → ring_buffer_used (ring_buffer_push r) ≡ suc (ring_buffer_used r)
unfolding ring_buffer_push
used-push r v room =
    omega (
      arith,
      used_lem (ring_buffer_push r) (push-IsValid v),
      used_lem r v,
      used-avail r,
      head-push r,
    )

pub used-pop :
    (r : RingBuffer)
    → IsValid r
    → 0 < ring_buffer_used r
    → ring_buffer_used r ≡ suc (ring_buffer_used (ring_buffer_pop r))
unfolding ring_buffer_pop
used-pop r v h =
    omega (arith, used_lem r v, used_lem (ring_buffer_pop r) (pop-IsValid v), tail-pop r v.tail_in)

pub head-pop : (r : RingBuffer) → ring_buffer_head (ring_buffer_pop r) ≡ ring_buffer_head r
unfolding ring_buffer_head ring_buffer_pop
head-pop r = refl

pub tail-push : (r : RingBuffer) → ring_buffer_tail (ring_buffer_push r) ≡ ring_buffer_tail r
unfolding ring_buffer_tail ring_buffer_push
tail-push r = refl

-- On a valid ring with more than one free slot, a push appends the packet in the head slot to the
-- packets that wait.
pub push_refines :
    (r : RingBuffer)
    → IsValid r
    → 1 < ring_buffer_avail r
    → contents (ring_buffer_push r) ≡ contents r ++ (ring_buffer_head r ∷ [])
unfolding contents ring_buffer_push ring_buffer_head
push_refines r v room =
    ap (λ n. window r.buf r.tail n) (used-push r v room)
    ∙ window-snoc r.buf (ring_buffer_used r) r.tail r.head v.tail_in (omega (arith, used_lem r v))

-- On a valid ring with at most one free slot, a push leaves no packet that waits.
pub push_full :
    (r : RingBuffer) → IsValid r → ring_buffer_avail r ≤ 1 → contents (ring_buffer_push r) ≡ []
unfolding contents ring_buffer_push window
push_full r v full =
    let none_left : ring_buffer_used (ring_buffer_push r) ≡ 0 = omega (
      arith,
      used_lem (ring_buffer_push r) (push-IsValid v),
      used_lem r v,
      used-avail r,
      head-push r,
    ) in
    ap (λ n. window r.buf r.tail n) none_left

-- On a valid ring that is not empty, the tail packet is the oldest of those that wait, and a pop
-- leaves the others in order.
pub pop_refines :
    (r : RingBuffer)
    → IsValid r
    → 0 < ring_buffer_used r
    → contents r ≡ ring_buffer_tail r ∷ contents (ring_buffer_pop r)
unfolding contents window ring_buffer_tail ring_buffer_pop
pop_refines r v some_wait =
    ap (window r.buf r.tail) (used-pop r v some_wait)
    ∙ ap (λ t. ring_buffer_tail r ∷ window r.buf t (ring_buffer_used (ring_buffer_pop r)))
        (sym (tail-pop r v.tail_in))
