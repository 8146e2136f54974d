-- ===== src/Server/Main/Laws.antt =====
-- The server that `main` starts, and any run of its threads.
use mathlib.Core.Path.{subst}
use da_bao.Base.{
  ℕ, zero, suc, ◌≡◌, ◌≢◌, refl, ap, sym, ◌∙◌, arith, Bool, Bool-cases, inl, inr, leb, ◌&&◌, List,
  [], ◌∷◌, length, All, Option, some, none, if◌then◌else◌,
}
use da_bao.Base.Int.{ℤ, pos, negsuc, is_zero}
use da_bao.Base.Options.{Holds, >>=-Holds, Holds-Unit}
use da_bao.Ring.{RingBuffer, ring_buffer_init}
use da_bao.Ring.Laws.{init-IsValid, contents-init}
use da_bao.ServerConfig.{
  Locals, ConfigFile, Configs, Outcome, success, failure, fault, init_configs, get_configs,
  min_threads, max_threads,
}
use da_bao.ServerConfig.Laws.{IsUsable, get_configs-IsUsable}
use da_bao.Server.Database.{Redis}
use da_bao.Server.Start.{init_threads, threads_loop, get_local_ip}
use da_bao.Server.Start.Laws.{IsEmpty}
use da_bao.Server.Whole.{Whole, ring_of, Turn, turns}
use da_bao.Server.Whole.Laws.{Inv, turns-Inv}
use da_bao.Server.Main.{ThreadEpollInfo, of_outcome, Calls, main, ports_loop, print_server_started}

abbrev Made : ℕ → List RingBuffer → Type 0
Made n rings = (length rings ≡ n) × All IsEmpty rings

threads_loop-Made : (rc : ℕ → ℤ) (n thread : ℕ) → Holds (Made n) (threads_loop rc n thread)
unfolding threads_loop
threads_loop-Made rc zero thread = (refl, tt)
threads_loop-Made rc (suc n) thread = elim (Bool-cases (is_zero (rc thread))) [
  | inl ok ↦ rw ok (after (threads_loop rc n (suc thread)) (threads_loop-Made rc n (suc thread)))
  | inr bad ↦ rw bad tt
]
  where
    after :
        (o : Option (List RingBuffer))
        → Holds (Made n) o
        → Holds
            (Made (suc n))
            (elim o [ none ↦ none | some rings ↦ some (ring_buffer_init ∷ rings) ])
    after none h = tt
    after (some rings) h = (ap suc (h.0), ((init-IsValid, contents-init), h.1))

init_threads-Made :
    (rc : ℕ → ℤ) (threads_num : ℤ)
    → Holds (λ rings. (n : ℕ) × (threads_num ≡ pos n) × Made n rings) (init_threads rc threads_num)
unfolding init_threads
init_threads-Made rc (negsuc n) = tt
init_threads-Made rc (pos n) = elim (Bool-cases (leb min_threads n && leb n max_threads)) [
  | inl ok ↦ rw ok (after (threads_loop rc n 0) (threads_loop-Made rc n 0))
  | inr bad ↦ rw bad tt
]
  where
    after :
        (o : Option (List RingBuffer))
        → Holds (Made n) o
        → Holds (λ rings. (m : ℕ) × (pos n ≡ pos m) × Made m rings) o
    after none h = tt
    after (some rings) h = (n, refl, h)

read_fully :
    {D : Type 0} (locals : Locals D) (cfg : ConfigFile D) (conf c : Configs D)
    → get_configs locals (some cfg) conf ≢ failure c
unfolding get_configs
read_fully locals cfg conf c e = ground arith

-- The settings that `main` goes on with, also when the file could not be read.
configs-IsUsable :
    {D : Type 0} (zero_double : D) (locals : Locals D) (file : Option (ConfigFile D))
    (conf : Configs D)
    → Holds IsUsable (of_outcome (get_configs locals file (init_configs zero_double conf)))
unfolding init_configs get_configs
configs-IsUsable zero_double locals none conf = record {
  threads_low = omega arith;
  threads_high = omega arith;
  group_low = omega arith;
}
configs-IsUsable {D} zero_double locals (some cfg) conf =
    let conf0 = init_configs zero_double conf in
    after (get_configs locals (some cfg) conf0)
      (λ c e. get_configs-IsUsable locals (some cfg) conf0 e) (read_fully locals cfg conf0)
  where
    after :
        (o : Outcome D)
        → ((c : Configs D) → o ≡ success c → IsUsable c)
        → ((c : Configs D) → o ≢ failure c)
        → Holds IsUsable (of_outcome o)
    after (success c) h k = h c refl
    after (failure c) h k = absurd (k c refl)
    after fault h k = tt

-- The ring of a worker, or what stands for one that there is not.
ring_of-IsEmpty : (rings : List RingBuffer) (i : ℕ) → All IsEmpty rings → IsEmpty (ring_of rings i)
unfolding ring_of
ring_of-IsEmpty [] i h = (init-IsValid, contents-init)
ring_of-IsEmpty (r ∷ rings) zero h = h.0
ring_of-IsEmpty (r ∷ rings) (suc i) h = ring_of-IsEmpty rings i h.1

-- What `main` leaves.
pub record Ready {R D : Type 0} (w : Whole R D) : Type 0 where
  pub usable : IsUsable w.conf
  pub same_threads : w.server.threads_num ≡ w.conf.threads_num
  pub same_group : w.server.packets_group ≡ w.conf.packets_group
  pub users : w.server.usr_num ≡ pos 0
  pub workers : w.conf.threads_num ≡ pos (length w.rings)
  pub empty : (i : ℕ) → IsEmpty (ring_of w.rings i)
  pub nothing : (w.handed ≡ []) × (w.taken ≡ []) × (w.replies ≡ [])

module _ {R D : Type 0} where
  abbrev Goal : Whole R D × List ThreadEpollInfo → Type 0
  Goal started = Ready started.0

  main_lem :
      (zero_double : D) (locals : Locals D) (file : Option (ConfigFile D)) (conf : Configs D)
      (calls : Calls) (store : R)
      → Holds Goal (main zero_double locals file conf calls store)
  unfolding main
  main_lem zero_double locals file conf calls store =
      >>=-Holds IsUsable Goal (of_outcome (get_configs locals file (init_configs zero_double conf)))
        _ (configs-IsUsable zero_double locals file conf)
        λ conf' usable.
          >>=-Holds _ Goal (init_threads calls.worker_rc conf'.threads_num) _
            (init_threads-Made calls.worker_rc conf'.threads_num)
            λ rings made.
              >>=-Holds (λ infos. Unit {0}) Goal
                (ports_loop calls.port_rc conf'.ports conf'.ports_count 0) _ (Holds-Unit _)
                λ infos _.
                  >>=-Holds (λ u. Unit {0}) Goal
                    (if is_zero calls.update_rc then some (tt {0}) else none) _ (Holds-Unit _)
                    λ u _.
                      >>=-Holds (λ u. Unit {0}) Goal
                        (print_server_started (get_local_ip conf'.dev calls.interfaces)) _
                        (Holds-Unit _)
                        λ v _. record {
                          usable = usable;
                          same_threads = refl;
                          same_group = refl;
                          users = refl;
                          workers = made.1 ∙ ap pos (sym made.2.0);
                          empty = λ i. ring_of-IsEmpty rings i made.2.1;
                          nothing = (refl, refl, refl);
                        }

  -- When main gets to its end, whatever the file of settings held and also if it could not be read,
  -- there are 1 to 20 workers, as many as the settings say, each with a valid and empty ring, the
  -- group of packets is positive, and there are no users.
  pub main-Ready :
      (zero_double : D) (locals : Locals D) (file : Option (ConfigFile D)) (conf : Configs D)
      (calls : Calls) (store : R) (w : Whole R D) (infos : List ThreadEpollInfo)
      → main zero_double locals file conf calls store ≡ some (w, infos)
      → Ready w
  main-Ready zero_double locals file conf calls store w infos e =
      subst (Holds Goal) e (main_lem zero_double locals file conf calls store)

  Ready-Inv : (key_table : List ℕ) (w : Whole R D) → Ready w → Inv key_table w
  Ready-Inv key_table w ready = record {
    queued = λ i. record {
      valid = (ready.empty i).0;
      fifo = rw (ready.nothing.0, ready.nothing.1) (sym (ready.empty i).1);
    };
    answered = rw (ready.nothing.1, ready.nothing.2) refl;
  }

  -- From the state that main leaves, after any rounds of the epoll thread, the workers and the
  -- thread that reads the settings, in any order, of which none ends the program, waits for room in
  -- a full ring or waits for a packet in an empty one, each worker's ring is valid, the packets
  -- that it was handed are those it took followed by those in its ring, in order, and what was
  -- written are the answers to the packets that were taken: each request itself, decrypted and with
  -- its direction set to SERVER_TO_APP, on its own connection.
  pub turns-main :
      (redis : Redis R) (key_table : List ℕ) (differs : D → D → Bool) (zero_double : D)
      (locals : Locals D) (file : Option (ConfigFile D)) (conf : Configs D) (calls : Calls)
      (store : R) (w w' : Whole R D) (infos : List ThreadEpollInfo) (ts : List (Turn D))
      → main zero_double locals file conf calls store ≡ some (w, infos)
      → turns redis key_table differs ts w ≡ some w'
      → Inv key_table w'
  turns-main redis key_table differs zero_double locals file conf calls store w w' infos ts e e' =
      turns-Inv redis key_table differs ts w w'
        (Ready-Inv key_table w (main-Ready zero_double locals file conf calls store w infos e)) e'
