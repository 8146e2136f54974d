-- ===== src/Handoff/Drain.antt =====
-- The worker of server/server.c alone: what it takes from the ring before it waits.
use da_bao.Base.{
  ℕ, zero, suc, ◌*◌, ◌<◌, ◌≡◌, refl, sym, ap, ◌∙◌, arith, Bool, true, false, [], ◌∷◌, ◌++◌,
}
use mathlib.Core.List.{append-nil}
use mathlib.Core.Path.{subst}
use da_bao.Ring.{ring_buffer_tail, ring_buffer_pop, ring_buffer_used}
use da_bao.Ring.Laws.{IsValid, used-lt, used-avail, used-pop, contents_none}
use da_bao.Handoff.{
  Consumer, System, wake_producer, Step, Timely, Calm, has_packet, copy, pop, signal_not_full,
}
use da_bao.Handoff.Laws.{Calm-Inv}

-- The steps of the worker that do not wait.
abbrev pub by_worker : {s t : System} → Step s t → Bool
by_worker (has_packet e h) = true
by_worker (copy e) = true
by_worker (pop p e) = true
by_worker (signal_not_full e) = true
by_worker _ = false

-- A run of the worker alone in a number of steps, its signals timely.
pub data Works : System → System → ℕ → Type 0 where
  done : {s : System} → Works s s 0
  more :
      {s t u : System} {n : ℕ}
      → (step : Step s t) → by_worker step ≡ true
      → Timely step
      → Works t u n
      → Works s u (suc n)

Calm-Works : {s t : System} {n : ℕ} → Calm s → Works s t n → Calm t
Calm-Works calm done = calm
Calm-Works calm (more step own timely works) = Calm-Works (Calm.next calm step timely) works

-- The system after one packet.
abbrev pub served : System → System
served s = record s {
  ring = ring_buffer_pop s.ring;
  producer = wake_producer s.producer;
  consumer = Consumer.testing;
  taken = s.taken ++ (ring_buffer_tail s.ring ∷ []);
}

-- The run goes on after the four steps for one packet.
served-Works :
    (s t : System) (n : ℕ)
    → IsValid s.ring
    → s.consumer ≡ Consumer.testing
    → 0 < ring_buffer_used s.ring
    → Works (served s) t n
    → Works s t (suc (suc (suc (suc n))))
served-Works s t n valid top some_wait rest = more (has_packet top some_wait) refl tt (
    more (copy refl) refl tt (
      more (pop (ring_buffer_tail s.ring) refl) refl tt (
        more (signal_not_full refl) refl
          (λ p e. omega (
            arith,
            used-pop s.ring valid some_wait,
            used-lt s.ring valid,
            used-avail (ring_buffer_pop s.ring),
          ))
          rest)))

served-Calm :
    (s : System)
    → Calm s
    → s.consumer ≡ Consumer.testing
    → 0 < ring_buffer_used s.ring
    → Calm (served s)
served-Calm s calm top some_wait =
    Calm-Works calm (served-Works s (served s) 0 (Calm-Inv calm).valid top some_wait done)

-- All that was pushed is taken, in some steps of the worker.
pub record Drained (s : System) (steps : ℕ) : Type 0 where
  pub end : System
  pub works : Works s end steps
  pub calm : Calm end
  pub top : end.consumer ≡ Consumer.testing
  pub pushed : end.sent ≡ s.sent
  pub all : end.taken ≡ s.sent
  pub empty : ring_buffer_used end.ring ≡ 0

drain_rounds :
    (k : ℕ) (s : System)
    → Calm s
    → s.consumer ≡ Consumer.testing
    → ring_buffer_used s.ring ≡ k
    → Drained s (k * 4)
drain_rounds zero s calm top e = record {
  end = s;
  works = done;
  calm = calm;
  top = top;
  pushed = refl;
  all =
      sym (
        (Calm-Inv calm).fifo
        ∙ ap (λ l. s.taken ++ l) (contents_none s.ring e)
        ∙ append-nil s.taken);
  empty = e;
}
drain_rounds (suc k) s calm top e =
    let some_wait : 0 < ring_buffer_used s.ring = omega (arith, e) in
    let valid = (Calm-Inv calm).valid in
    let rest =
      drain_rounds k (served s) (served-Calm s calm top some_wait) refl
        (omega (arith, used-pop s.ring valid some_wait, e)) in
    record {
      end = rest.end;
      works =
          subst (Works s rest.end) (omega arith)
            (served-Works s rest.end (k * 4) valid top some_wait rest.works);
      calm = rest.calm;
      top = rest.top;
      pushed = rest.pushed;
      all = rest.all;
      empty = rest.empty;
    }

-- In a run whose signals wake a thread only when what it waits for holds, a worker at the top of
-- its loop takes all packets that were pushed, in order, by four steps of its own for each packet
-- in the ring, its signals being of the same kind, and is again at the top of its loop with the
-- ring empty.
pub Calm-Drained :
    {s : System} → Calm s → s.consumer ≡ Consumer.testing → Drained s (ring_buffer_used s.ring * 4)
Calm-Drained {s} calm top = drain_rounds (ring_buffer_used s.ring) s calm top refl
