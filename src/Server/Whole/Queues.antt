-- ===== src/Server/Whole/Queues.antt =====
-- The rings of the workers as queues, and the logs of what was handed to each and taken by it.
use mathlib.Core.List.{append_assoc, append-nil}
use da_bao.Base.{
  ℕ, ◌<◌, ◌≡◌, ◌≢◌, refl, ap, sym, ◌∙◌, arith, Bool-cases, inl, inr, false, ◌==◌, ==_iff, List, [],
  ◌∷◌, ◌++◌, length, set, get_or-set_self, get_or-set_ne, if◌then◌else◌,
}
use da_bao.Ring.{
  EpollPacket, RingBuffer, ring_buffer_init, ring_buffer_tail, ring_buffer_avail, ring_buffer_used,
  ring_buffer_pop, ring_buffer_head, write_head,
}
use da_bao.Ring.Laws.{
  IsValid, contents, push-IsValid, pop-IsValid, write_head-IsValid, contents-write_head,
  head-write_head, used-write_head, used-avail, push_refines, pop_refines,
}
use da_bao.Server.Whole.{Source, packet_of, put, ring_of}

-- The packets of a log that are for one worker.
abbrev pub of_thread : ℕ → List (ℕ × EpollPacket) → List EpollPacket
of_thread i [] = []
of_thread i ((j, p) ∷ log) = let rest = of_thread i log in if i == j then p ∷ rest else rest

of_thread-append :
    (i : ℕ) (xs ys : List (ℕ × EpollPacket))
    → of_thread i (xs ++ ys) ≡ of_thread i xs ++ of_thread i ys
of_thread-append i [] ys = refl
of_thread-append i ((j, p) ∷ xs) ys = elim (Bool-cases (i == j)) [
  | inl same ↦ rw same (ap (λ l. p ∷ l) (of_thread-append i xs ys))
  | inr other ↦ rw other (of_thread-append i xs ys)
]

-- The ring of a worker and the logs agree.
pub record Queued (rings : List RingBuffer) (handed taken : List (ℕ × EpollPacket)) (i : ℕ)
    : Type 0 where
  pub valid : IsValid (ring_of rings i)
  pub fifo : of_thread i handed ≡ of_thread i taken ++ contents (ring_of rings i)

pub put-IsValid :
    (buf : List ℕ) (source : Source) (r : RingBuffer) → IsValid r → IsValid (put buf source r)
unfolding put
put-IsValid buf source r v = push-IsValid (write_head-IsValid (packet_of buf source r) v)

pub contents-put :
    (buf : List ℕ) (source : Source) (r : RingBuffer)
    → IsValid r
    → 1 < ring_buffer_avail r
    → contents (put buf source r) ≡ contents r ++ (packet_of buf source r ∷ [])
unfolding put
contents-put buf source r v room =
    let p = packet_of buf source r in
    push_refines (write_head r p) (write_head-IsValid p v)
      (omega (arith, used-write_head r p, used-avail r, used-avail (write_head r p)))
    ∙ ap (λ l. l ++ (ring_buffer_head (write_head r p) ∷ [])) (contents-write_head r p v)
    ∙ ap (λ q. contents r ++ (q ∷ [])) (head-write_head r p v)

-- The rings when one is replaced.
pub ring_of-set_self :
    (rings : List RingBuffer) (thread : ℕ) (r : RingBuffer)
    → thread < length rings
    → ring_of (set rings thread r) thread ≡ r
unfolding ring_of
ring_of-set_self rings thread r h = get_or-set_self rings thread r ring_buffer_init h

pub ring_of-set_ne :
    (rings : List RingBuffer) (thread i : ℕ) (r : RingBuffer)
    → thread ≢ i
    → ring_of (set rings thread r) i ≡ ring_of rings i
unfolding ring_of
ring_of-set_ne rings thread i r h = get_or-set_ne rings r ring_buffer_init h

of_thread_one :
    (i thread : ℕ) (p : EpollPacket) → i ≡ thread → of_thread i ((thread, p) ∷ []) ≡ p ∷ []
of_thread_one i thread p e = rw ((==_iff i thread).1 e) refl

of_thread_other :
    (i thread : ℕ) (p : EpollPacket) → (i == thread) ≡ false → of_thread i ((thread, p) ∷ []) ≡ []
of_thread_other i thread p e = rw e refl

-- A ring that nothing was put into or taken from.
kept-Queued :
    (rings : List RingBuffer) (handed taken more : List (ℕ × EpollPacket)) (thread i : ℕ)
    (r : RingBuffer)
    → thread ≢ i
    → of_thread i more ≡ []
    → Queued rings handed taken i
    → Queued (set rings thread r) (handed ++ more) taken i
      × Queued (set rings thread r) handed (taken ++ more) i
kept-Queued rings handed taken more thread i r ne e q =
    let same = ring_of-set_ne rings thread i r ne in
    (
      record {
        valid = rw same q.valid;
        fifo =
            of_thread-append i handed more
            ∙ rw (e, same) (append-nil (of_thread i handed) ∙ q.fifo);
      },
      record {
        valid = rw same q.valid;
        fifo =
            rw (of_thread-append i taken more)
              (rw (e, same, append-nil (of_thread i taken)) q.fifo);
      },
    )

module _ (rings : List RingBuffer) (handed taken : List (ℕ × EpollPacket)) (thread : ℕ)
    (there : thread < length rings) (all : (i : ℕ) → Queued rings handed taken i) where
  pub put-Queued :
      (buf : List ℕ) (source : Source) (i : ℕ)
      → 1 < ring_buffer_avail (ring_of rings thread)
      → let ring = ring_of rings thread in
        Queued
          (set rings thread (put buf source ring))
          (handed ++ ((thread, packet_of buf source ring) ∷ []))
          taken
          i
  put-Queued buf source i room =
      let ring = ring_of rings thread in
      let p = packet_of buf source ring in
      elim (Bool-cases (i == thread)) [
        | inl e ↦
            let same : i ≡ thread = (==_iff i thread).0 e in
            let here : ring_of (set rings thread (put buf source ring)) i ≡ put buf source ring =
              ap (ring_of (set rings thread (put buf source ring))) same
              ∙ ring_of-set_self rings thread (put buf source ring) there in
            record {
              valid = rw here (put-IsValid buf source ring (all thread).valid);
              fifo =
                  of_thread-append i handed ((thread, p) ∷ [])
                  ∙ rw
                      (
                        here,
                        of_thread_one i thread p same,
                        contents-put buf source ring (all thread).valid room,
                      )
                      (rw same (
                        ap (λ l. l ++ (p ∷ [])) (all thread).fifo
                        ∙ append_assoc (of_thread thread taken) (contents ring) (p ∷ [])));
            }
        | inr e ↦
            (kept-Queued rings handed taken ((thread, p) ∷ []) thread i (put buf source ring)
              (ground arith) (of_thread_other i thread p e) (all i)).0
      ]

  pub pop-Queued :
      (i : ℕ)
      → 0 < ring_buffer_used (ring_of rings thread)
      → let ring = ring_of rings thread in
        Queued
          (set rings thread (ring_buffer_pop ring))
          handed
          (taken ++ ((thread, ring_buffer_tail ring) ∷ []))
          i
  pop-Queued i some_wait =
      let ring = ring_of rings thread in
      let p = ring_buffer_tail ring in
      elim (Bool-cases (i == thread)) [
        | inl e ↦
            let same : i ≡ thread = (==_iff i thread).0 e in
            let here : ring_of (set rings thread (ring_buffer_pop ring)) i ≡ ring_buffer_pop ring =
              ap (ring_of (set rings thread (ring_buffer_pop ring))) same
              ∙ ring_of-set_self rings thread (ring_buffer_pop ring) there in
            record {
              valid = rw here (pop-IsValid (all thread).valid);
              fifo =
                  rw
                    (
                      of_thread-append i taken ((thread, p) ∷ []),
                      here,
                      of_thread_one i thread p same,
                    )
                    (rw same (
                      (all thread).fifo
                      ∙ ap (λ l. of_thread thread taken ++ l)
                          (pop_refines ring (all thread).valid some_wait)
                      ∙ sym (
                          append_assoc (of_thread thread taken) (p ∷ [])
                            (contents (ring_buffer_pop ring)))));
            }
        | inr e ↦
            (kept-Queued rings handed taken ((thread, p) ∷ []) thread i (ring_buffer_pop ring)
              (ground arith) (of_thread_other i thread p e) (all i)).1
      ]
