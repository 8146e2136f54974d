-- ===== src/Server/Whole/Laws.antt =====
-- Each worker takes the packets that it was handed, in order, in any interleaving of the turns.
use mathlib.Core.Path.{subst}
use mathlib.Core.List.{append_assoc, append-nil}
use da_bao.Base.{
  ℕ, ◌≡◌, refl, ap, ap₂, sym, ◌∙◌, arith, Bool-cases, inl, inr, ◌==◌, ltb, ltb→lt, Bool, List, [],
  ◌∷◌, ◌++◌, length, if◌then◌else◌, Option, some, none,
}
use da_bao.Ring.{EpollPacket, ring_buffer_tail, ring_buffer_avail, ring_buffer_used}
use da_bao.Ring.Laws.{}
use da_bao.Base.Options.{◌>>=◌}
use da_bao.Serialize.Packet.{serialize_payload}
use da_bao.ServerConfig.{Outcome, success, failure, fault, update_epoch}
use da_bao.Wire.{server_payload, server_to_app}
use da_bao.Server.Receive.{Server}
use da_bao.Server.Loop.{Event, Handed, on_event}
use da_bao.Server.Database.{Redis}
use da_bao.Server.Process.{
  Delays, request_pkt, process_packet, process_request_pkt, set_direction, get_pkt_type,
}
use da_bao.Server.Whole.{
  Source, ring_of, Whole, Reply, reply_of, deliver, epoll_turn, configured, worked, worker_turn,
  Turn, epoll, worker, settings, turn, turns,
}
use da_bao.Server.Whole.Queues.{Queued, put-Queued, pop-Queued}

-- What a packet is answered with: a request with itself, its direction changed, and no other.
abbrev pub answer : List ℕ → EpollPacket → Option (List ℕ)
answer key_table packet =
    let payload = server_payload key_table packet.buf in
    if payload.type == request_pkt
    then some (serialize_payload (record payload { direction = server_to_app }))
    else none

abbrev pub answers : List ℕ → List (ℕ × EpollPacket) → List Reply
answers key_table [] = []
answers key_table ((thread, p) ∷ log) = reply_of p (answer key_table p) ++ answers key_table log

answers-append :
    (key_table : List ℕ) (xs ys : List (ℕ × EpollPacket))
    → answers key_table (xs ++ ys) ≡ answers key_table xs ++ answers key_table ys
answers-append key_table [] ys = refl
answers-append key_table ((thread, p) ∷ xs) ys =
    ap (λ l. reply_of p (answer key_table p) ++ l) (answers-append key_table xs ys)
    ∙ sym (
        append_assoc (reply_of p (answer key_table p)) (answers key_table xs)
          (answers key_table ys))

-- Every worker's ring agrees with what it was handed and took, and the answers are those to the
-- packets that were taken, in order.
pub record Inv {R D : Type 0} (key_table : List ℕ) (w : Whole R D) : Type 0 where
  pub queued : (i : ℕ) → Queued w.rings w.handed w.taken i
  pub answered : w.replies ≡ answers key_table w.taken

-- The same of a turn that may end the program or have to wait.
abbrev Stays : {R D : Type 0} → List ℕ → Option (Whole R D) → Type 0
Stays key_table none = Unit
Stays key_table (some w) = Inv key_table w

module _ {R D : Type 0} (redis : Redis R) (key_table : List ℕ) (differs : D → D → Bool) where
  process_packet-answer :
      (packet : EpollPacket) (delays : Delays) (written : Bool) (s : Server) (r : R)
      → (process_packet redis key_table packet delays written s r).0 ≡ answer key_table packet
  unfolding process_packet process_request_pkt set_direction get_pkt_type
  process_packet-answer packet delays written s r = ground arith

  deliver-Stays :
      (source : Source) (packets : List Handed) (w : Whole R D)
      → Inv key_table w
      → Stays key_table (deliver source packets w)
  unfolding deliver
  deliver-Stays source [] w inv = inv
  deliver-Stays source ((thread, buf) ∷ packets) w inv =
      let ring = ring_of w.rings thread in
      elim (Bool-cases (ltb thread (length w.rings))) [
        | inl there ↦ rw there (elim (Bool-cases (ltb 1 (ring_buffer_avail ring))) [
          | inl room ↦ rw room (
              deliver-Stays source packets _ record {
                queued = λ i.
                    put-Queued w.rings w.handed w.taken thread (ltb→lt _ _ there) inv.queued buf
                      source i (ltb→lt _ _ room);
                answered = inv.answered;
              })
          | inr full ↦ rw full tt
        ])
        | inr missing ↦ rw missing tt
      ]

  epoll_turn-Stays :
      (e : Event) (source : Source) (w : Whole R D)
      → Inv key_table w
      → Stays key_table (epoll_turn e source w)
  unfolding epoll_turn
  epoll_turn-Stays e source w inv = after (on_event e w.server)
    where
      after :
          (o : Option (Server × List Handed))
          → Stays key_table
              (o >>= λ first. deliver source (first.1) (record w { server = first.0 }))
      after none = tt
      after (some (server, packets)) =
          deliver-Stays source packets _ (record { queued = inv.queued; answered = inv.answered })

  answered_one :
      (thread : ℕ) (packet : EpollPacket) (reply : Option (List ℕ)) (w : Whole R D)
      → w.replies ≡ answers key_table w.taken
      → reply ≡ answer key_table packet
      → w.replies ++ reply_of packet reply ≡ answers key_table (w.taken ++ ((thread, packet) ∷ []))
  answered_one thread packet reply w before e =
      ap₂ (λ l r. l ++ reply_of packet r) before e
      ∙ ap (λ l. answers key_table w.taken ++ l)
          (sym (append-nil (reply_of packet (answer key_table packet))))
      ∙ sym (answers-append key_table w.taken ((thread, packet) ∷ []))

  worker_turn-Stays :
      (thread : ℕ) (delays : Delays) (written : Bool) (w : Whole R D)
      → Inv key_table w
      → Stays key_table (worker_turn redis key_table thread delays written w)
  unfolding worker_turn worked
  worker_turn-Stays thread delays written w inv =
      let ring = ring_of w.rings thread in
      let packet = ring_buffer_tail ring in
      elim (Bool-cases (ltb thread (length w.rings))) [
        | inl there ↦ rw there (elim (Bool-cases (ltb 0 (ring_buffer_used ring))) [
          | inl waits ↦ rw waits record {
            queued = λ i.
                pop-Queued w.rings w.handed w.taken thread (ltb→lt _ _ there) inv.queued i
                  (ltb→lt _ _ waits);
            answered =
                answered_one thread packet _ w inv.answered
                  (process_packet-answer packet delays written w.server w.store);
          }
          | inr idle ↦ rw idle tt
        ])
        | inr missing ↦ rw missing tt
      ]

  configured-Stays :
      (o : Outcome D) (w : Whole R D) → Inv key_table w → Stays key_table (configured o w)
  unfolding configured
  configured-Stays (success conf) w inv = record { queued = inv.queued; answered = inv.answered }
  configured-Stays (failure conf) w inv = record { queued = inv.queued; answered = inv.answered }
  configured-Stays fault w inv = tt

  turn-Stays :
      (t : Turn D) (w : Whole R D)
      → Inv key_table w
      → Stays key_table (turn redis key_table differs t w)
  unfolding turn
  turn-Stays (epoll e source) w inv = epoll_turn-Stays e source w inv
  turn-Stays (worker thread delays written) w inv = worker_turn-Stays thread delays written w inv
  turn-Stays (settings file) w inv = configured-Stays (update_epoch differs file w.conf) w inv

  turns-Stays :
      (ts : List (Turn D)) (w : Whole R D)
      → Inv key_table w
      → Stays key_table (turns redis key_table differs ts w)
  unfolding turns
  turns-Stays [] w inv = inv
  turns-Stays (t ∷ ts) w inv =
      after (turn redis key_table differs t w) (turn-Stays t w inv) (λ w' h. turns-Stays ts w' h)
    where
      after :
          (o : Option (Whole R D))
          → Stays key_table o
          → ((w' : Whole R D)
              → Inv key_table w'
              → Stays key_table (turns redis key_table differs ts w'))
          → Stays key_table (o >>= turns redis key_table differs ts)
      after none h rest = tt
      after (some w') h rest = rest w' h

  pub turns-Inv :
      (ts : List (Turn D)) (w w' : Whole R D)
      → Inv key_table w
      → turns redis key_table differs ts w ≡ some w'
      → Inv key_table w'
  turns-Inv ts w w' inv e = subst (Stays key_table) e (turns-Stays ts w inv)
