-- ===== src/Server/Whole.antt =====
-- The threads of server/server.c together: the epoll thread, the workers and the one that reads the
-- settings. A turn is a whole round of one thread; `Handoff` has the single steps of the hand-off.
pub mod Queues
pub mod Laws
pub mod Answer
pub mod Drain
use da_bao.Base.{
  ℕ, zero, ◌+◌, Bool, true, false, List, [], ◌∷◌, ◌++◌, ltb, get_or, set, length, Option, some,
  none, if◌then◌else◌,
}
use da_bao.Base.Int.{pos}
use da_bao.Base.Options.{◌>>=◌}
use da_bao.Ring.{
  EpollPacket, RingBuffer, ring_buffer_init, ring_buffer_head, ring_buffer_tail, ring_buffer_avail,
  ring_buffer_used, ring_buffer_push, ring_buffer_pop, write_head,
}
use da_bao.ServerConfig.{Configs, ConfigFile, Outcome, success, failure, fault, update_epoch}
use da_bao.Server.Receive.{Server, fill_packet}
use da_bao.Server.Loop.{Event, Handed, on_event}
use da_bao.Server.Database.{Redis}
use da_bao.Server.Process.{Delays, process_packet}

-- What `write` is given for a connection.
pub record Reply : Type 0 where
  pub efd : ℕ
  pub fd : ℕ
  pub bytes : List ℕ

-- `conf`, `stats` and `usr_num`, `packets_for_thread`, the database, and what `write` was given.
-- `handed` and `taken` record which packets were pushed for a worker and popped by it.
pub record Whole (R D : Type 0) : Type 0 where
  pub conf : Configs D
  pub server : Server
  pub rings : List RingBuffer
  pub store : R
  pub replies : List Reply
  pub handed : List (ℕ × EpollPacket)
  pub taken : List (ℕ × EpollPacket)

-- The connection that an event is for, and the time at which its packet is stored.
pub record Source : Type 0 where
  pub efd : ℕ
  pub fd : ℕ
  pub recv : ℕ

-- The packet that the end of `processEPOLLIN` leaves in the head slot.
unfoldable pub packet_of : List ℕ → Source → RingBuffer → EpollPacket
packet_of buf source ring = fill_packet buf source.fd source.efd source.recv (ring_buffer_head ring)

-- The ring when the packet is stored and pushed.
unfoldable pub put : List ℕ → Source → RingBuffer → RingBuffer
unfolding packet_of
put buf source ring = ring_buffer_push (write_head ring (packet_of buf source ring))

-- `packets_for_thread[thread]`; only the first are set.
unfoldable pub ring_of : List RingBuffer → ℕ → RingBuffer
ring_of rings thread = get_or rings thread ring_buffer_init

abbrev pub reply_of : EpollPacket → Option (List ℕ) → List Reply
reply_of packet none = []
reply_of packet (some bytes) = record { efd = packet.efd; fd = packet.fd; bytes = bytes } ∷ []

-- A round of one of the threads.
pub data Turn (D : Type 0) : Type 0 where
  epoll : Event → Source → Turn D
  worker : (thread : ℕ) → Delays → (written : Bool) → Turn D
  settings : Option (ConfigFile D) → Turn D

module _ {R D : Type 0} where
  -- The settings after `updateEpoch`, which returns either way.
  unfoldable pub configured : Outcome D → Whole R D → Option (Whole R D)
  configured (success conf) w =
      some
        (record w { conf = conf; server = record w.server { packets_group = conf.packets_group } })
  configured (failure conf) w =
      some
        (record w { conf = conf; server = record w.server { packets_group = conf.packets_group } })
  configured fault w = none

  -- The packets of one event go to their rings. `none` is a full ring, for which the thread waits,
  -- or a worker that is not there.
  unfoldable pub deliver : Source → List Handed → Whole R D → Option (Whole R D)
  unfolding put packet_of ring_of
  deliver source [] w = some w
  deliver source ((thread, buf) ∷ packets) w =
      let ring = ring_of w.rings thread in
      let w' = record w {
        rings = set w.rings thread (put buf source ring);
        handed = w.handed ++ ((thread, packet_of buf source ring) ∷ []);
      } in
      if ltb thread (length w.rings)
      then if ltb 1 (ring_buffer_avail ring) then deliver source packets w' else none
      else none

  -- A round of `server`; `none` is also the end of the program.
  unfoldable pub epoll_turn : Event → Source → Whole R D → Option (Whole R D)
  unfolding deliver
  epoll_turn e source w = do
    (server, packets) ← on_event e w.server
    deliver source packets (record w { server = server })

  module _ (redis : Redis R) (key_table : List ℕ) where
    -- The worker's packet, when it was processed.
    unfoldable pub worked : ℕ → EpollPacket → Option (List ℕ) × Server × R → Whole R D → Whole R D
    unfolding ring_of
    worked thread packet (reply, server, store) w = record w {
      server = server;
      rings = set w.rings thread (ring_buffer_pop (ring_of w.rings thread));
      store = store;
      replies = w.replies ++ reply_of packet reply;
      taken = w.taken ++ ((thread, packet) ∷ []);
    }

    -- A round of `processPackets`; `none` is an empty ring, for which the worker waits.
    unfoldable pub worker_turn : ℕ → Delays → Bool → Whole R D → Option (Whole R D)
    unfolding worked ring_of
    worker_turn thread delays written w =
        let ring = ring_of w.rings thread in
        let packet = ring_buffer_tail ring in
        let outcome = process_packet redis key_table packet delays written w.server w.store in
        if ltb thread (length w.rings)
        then if ltb 0 (ring_buffer_used ring) then some (worked thread packet outcome w) else none
        else none

    module _ (differs : D → D → Bool) where
      -- `none` is the end of the program or a round that has to wait.
      unfoldable pub turn : Turn D → Whole R D → Option (Whole R D)
      unfolding epoll_turn worker_turn configured
      turn (epoll e source) w = epoll_turn e source w
      turn (worker thread delays written) w = worker_turn thread delays written w
      turn (settings file) w = configured (update_epoch differs file w.conf) w

      -- Any interleaving of the threads, one turn after the other, none of which has to wait or ends
      -- the program.
      unfoldable pub turns : List (Turn D) → Whole R D → Option (Whole R D)
      unfolding turn
      turns [] w = some w
      turns (t ∷ ts) w = turn t w >>= turns ts
