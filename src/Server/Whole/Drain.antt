-- ===== src/Server/Whole/Drain.antt =====
-- The workers take what waits for them.
use mathlib.Core.List.{append-nil}
use mathlib.Core.Option.{some-injective}
use da_bao.Base.{
  ℕ, zero, suc, ◌+◌, ◌≤◌, ◌<◌, ◌≡◌, ◌≢◌, refl, ap, sym, ◌∙◌, arith, Bool, Bool-cases, inl, inr,
  true, false, ◌==◌, ==_iff, List, [], ◌∷◌, ◌++◌, length, length-set, length-append,
  length-replicate, All, All-append, replicate, Option, some, none,
}
use da_bao.Base.Options.{◌>>=◌}
use da_bao.Ring.{RingBuffer, ring_buffer_tail, ring_buffer_used, ring_buffer_pop}
use da_bao.Ring.Laws.{used-pop, contents_none}
use da_bao.Server.Database.{Redis}
use da_bao.Server.Process.{Delays, process_packet}
use da_bao.Server.Whole.{Whole, ring_of, worked, Turn, worker, turn, turns}
use da_bao.Server.Whole.Queues.{of_thread, ring_of-set_self, ring_of-set_ne}
use da_bao.Server.Whole.Laws.{Inv, answers, turns-Inv}
use da_bao.Server.Whole.Answer.{worker_turn_lem}

-- A round of a worker.
abbrev pub is_worker : {D : Type 0} → Turn D → Bool
is_worker (worker thread delays written) = true
is_worker _ = false

-- How many packets wait for the first `n` workers.
abbrev pub waiting : List RingBuffer → ℕ → ℕ
waiting rings zero = 0
waiting rings (suc n) = waiting rings n + ring_buffer_used (ring_of rings n)

module _ {R D : Type 0} (redis : Redis R) (key_table : List ℕ) (differs : D → D → Bool)
    (delays : Delays) (written : Bool) where
  turns-append :
      (ts us : List (Turn D)) (w w' : Whole R D)
      → turns redis key_table differs ts w ≡ some w'
      → turns redis key_table differs (ts ++ us) w ≡ turns redis key_table differs us w'
  unfolding turns
  turns-append [] us w w' e = ap (turns redis key_table differs us) (some-injective w w' e)
  turns-append (t ∷ ts) us w w' e =
      after (turn redis key_table differs t w) e (λ x. turns-append ts us x w')
    where
      after :
          (o : Option (Whole R D))
          → (o >>= turns redis key_table differs ts) ≡ some w'
          → ((x : Whole R D)
              → turns redis key_table differs ts x ≡ some w'
              → turns redis key_table differs (ts ++ us) x ≡ turns redis key_table differs us w')
          → (o >>= turns redis key_table differs (ts ++ us)) ≡ turns redis key_table differs us w'
      after none h ih = cc
      after (some x) h ih = ih x h

  -- A run after which one worker has nothing left, and all else is as it was.
  record Emptied (thread : ℕ) (w w' : Whole R D) : Type 0 where
    none_left : ring_buffer_used (ring_of w'.rings thread) ≡ 0
    others : (i : ℕ) → thread ≢ i → ring_of w'.rings i ≡ ring_of w.rings i
    same_handed : w'.handed ≡ w.handed
    same_size : length w'.rings ≡ length w.rings

  abbrev rounds : ℕ → ℕ → List (Turn D)
  rounds thread k = replicate k (worker thread delays written)

  drain_one :
      (k thread : ℕ) (w : Whole R D)
      → Inv key_table w
      → thread < length w.rings
      → ring_buffer_used (ring_of w.rings thread) ≡ k
      → (w' : Whole R D) × (turns redis key_table differs (rounds thread k) w ≡ some w')
        × Emptied thread w w'
  unfolding turns turn worked
  drain_one zero thread w inv there e = (
    w,
    refl,
    record { none_left = e; others = λ i ne. refl; same_handed = refl; same_size = refl },
  )
  drain_one (suc k) thread w inv there e =
      let ring = ring_of w.rings thread in
      let packet = ring_buffer_tail ring in
      let outcome = process_packet redis key_table packet delays written w.server w.store in
      let w1 = worked redis key_table thread packet outcome w in
      let some_wait : 0 < ring_buffer_used ring = omega (arith, e) in
      let step = worker_turn_lem redis key_table thread delays written w there some_wait in
      let inv1 : Inv key_table w1 =
        turns-Inv redis key_table differs (worker thread delays written ∷ []) w w1 inv
          (rw step refl) in
      let fewer : ring_buffer_used (ring_of w1.rings thread) ≡ k =
        ap ring_buffer_used (ring_of-set_self w.rings thread (ring_buffer_pop ring) there)
        ∙ omega (arith, used-pop ring (inv.queued thread).valid some_wait, e) in
      let size = length-set w.rings thread (ring_buffer_pop ring) in
      let (w', run, emptied) = drain_one k thread w1 inv1 (omega (arith, size, there)) fewer in
      (
        w',
        rw step run,
        record {
          none_left = emptied.none_left;
          others = λ i ne.
              emptied.others i ne ∙ ring_of-set_ne w.rings thread i (ring_buffer_pop ring) ne;
          same_handed = emptied.same_handed;
          same_size = emptied.same_size ∙ size;
        },
      )

  rounds-AllWorkers : (thread k : ℕ) → All (λ (t : Turn D). is_worker t ≡ true) (rounds thread k)
  rounds-AllWorkers thread zero = tt
  rounds-AllWorkers thread (suc k) = (refl, rounds-AllWorkers thread k)

  -- A run of workers alone, after which the first `n` have nothing left.
  record Drained (n : ℕ) (w : Whole R D) (ts : List (Turn D)) (w' : Whole R D) : Type 0 where
    run : turns redis key_table differs ts w ≡ some w'
    workers : All (λ t. is_worker t ≡ true) ts
    count : length ts ≡ waiting w.rings n
    none_left : (i : ℕ) → i < n → ring_buffer_used (ring_of w'.rings i) ≡ 0
    later : (i : ℕ) → n ≤ i → ring_of w'.rings i ≡ ring_of w.rings i
    same_handed : w'.handed ≡ w.handed
    same_size : length w'.rings ≡ length w.rings

  drain_below :
      (n : ℕ) (w : Whole R D)
      → Inv key_table w
      → n ≤ length w.rings
      → (ts : List (Turn D)) × (w' : Whole R D) × Drained n w ts w'
  unfolding turns
  drain_below zero w inv room = (
    [],
    w,
    record {
      run = refl;
      workers = tt;
      count = refl;
      none_left = λ i lt. absurd (omega arith);
      later = λ i le. refl;
      same_handed = refl;
      same_size = refl;
    },
  )
  drain_below (suc n) w inv room =
      let (ts, w1, first) = drain_below n w inv (omega arith) in
      let k = ring_buffer_used (ring_of w1.rings n) in
      let inv1 = turns-Inv redis key_table differs ts w w1 inv first.run in
      let (w2, run, emptied) = drain_one k n w1 inv1 (omega (arith, first.same_size)) refl in
      (
        ts ++ rounds n k,
        w2,
        record {
          run = turns-append ts (rounds n k) w w1 first.run ∙ run;
          workers = All-append _ ts (rounds n k) first.workers (rounds-AllWorkers n k);
          count = omega (
            arith,
            length-append ts (rounds n k),
            length-replicate {A = Turn D} k (worker n delays written),
            first.count,
            ap ring_buffer_used (first.later n (omega arith)),
          );
          none_left = λ i lt. elim (Bool-cases (n == i)) [
            | inl e ↦
                ap (λ j. ring_buffer_used (ring_of w2.rings j)) (sym ((==_iff n i).0 e))
                ∙ emptied.none_left
            | inr e ↦
                ap ring_buffer_used (emptied.others i (ground arith))
                ∙ first.none_left i (ground arith)
          ];
          later = λ i le.
              emptied.others i (λ e. absurd (omega (arith, e))) ∙ first.later i (omega arith);
          same_handed = emptied.same_handed ∙ first.same_handed;
          same_size = emptied.same_size ∙ first.same_size;
        },
      )

  -- When every worker's ring is valid and agrees with the packets that the worker was handed and
  -- took, and what was written are the answers to the packets taken, rounds of the workers alone,
  -- one for each packet that waits, all of which can be taken, bring the server to a state in which
  -- each worker has taken all that it was handed, in order, and what was written are the answers to
  -- the packets taken.
  pub turns-drain :
      (w : Whole R D)
      → Inv key_table w
      → (ts : List (Turn D)) × (w' : Whole R D) × (turns redis key_table differs ts w ≡ some w')
        × All (λ t. is_worker t ≡ true) ts
        × (length ts ≡ waiting w.rings (length w.rings))
        × (w'.handed ≡ w.handed)
        × ((i : ℕ) → i < length w.rings → of_thread i w'.taken ≡ of_thread i w.handed)
        × (w'.replies ≡ answers key_table w'.taken)
  turns-drain w inv =
      let (ts, w', drained) = drain_below (length w.rings) w inv (omega arith) in
      let inv' = turns-Inv redis key_table differs ts w w' inv drained.run in
      (
        ts,
        w',
        drained.run,
        drained.workers,
        drained.count,
        drained.same_handed,
        λ i lt. sym (
            ap (of_thread i) (sym drained.same_handed)
            ∙ (inv'.queued i).fifo
            ∙ ap (λ l. of_thread i w'.taken ++ l)
                (contents_none (ring_of w'.rings i) (drained.none_left i lt))
            ∙ append-nil (of_thread i w'.taken)),
        inv'.answered,
      )
