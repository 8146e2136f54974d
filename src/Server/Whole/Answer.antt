-- ===== src/Server/Whole/Answer.antt =====
-- A request from the client's `write` to the server's.
use da_bao.Base.{
  ℕ, ◌+◌, ◌≤◌, ◌<◌, ◌≡◌, refl, ap, sym, ◌∙◌, arith, Bool, true, false, List, [], ◌∷◌, ◌++◌, length,
  set, drop, take_sized, length-set, length-drop, lt→ltb, some, none, if◌then◌else◌, ◌==◌,
}
use da_bao.Base.Int.{pos}
use da_bao.Cipher.Block.Bytes.{IsBytes}
use da_bao.Payload.{PacketFormat, payload_size}
use da_bao.Serialize.Packet.{serialize_payload, IsPacket}
use da_bao.Ring.{
  EpollPacket, RingBuffer, ring_buffer_head, ring_buffer_tail, ring_buffer_avail, ring_buffer_used,
  ring_buffer_pop,
}
use da_bao.Ring.Laws.{IsValid, contents, length-contents, used-avail, pop_refines}
use da_bao.Statistics.Server.{incre_receive_pkts}
use da_bao.PayloadCipher.Laws.{IsBytes-drop}
use da_bao.Wire.{client_message, server_to_app}
use da_bao.Wire.Laws.{length-client_message}
use da_bao.Server.Receive.{Server, dispatch, fill_packet, read_loop, would_block}
use da_bao.Server.Receive.Laws.{get_thread_index_turn}
use da_bao.Server.Loop.{Event, Handed, on_event}
use da_bao.Server.Loop.Laws.{IsConfigured, would_block_lem}
use da_bao.Server.Database.{Redis, process_database}
use da_bao.Server.Process.{Delays, process_packet, request_pkt}
use da_bao.Server.Process.Laws.{process_packet_answer}
use da_bao.Server.Whole.{
  Whole, Source, Reply, reply_of, packet_of, put, ring_of, deliver, epoll_turn, worked, worker_turn,
}
use da_bao.Server.Whole.Queues.{contents-put, put-IsValid, ring_of-set_self}

-- An event for a connection with one message to read.
abbrev pub arrival : List ℕ → List ℕ → Event
arrival message buf = record {
  ready = record { epollerr = false; epollhup = false; epollin = true; listener = false };
  accepted = [];
  chunks = message ∷ [];
  end = would_block;
  buf = buf;
}

-- The packet that the event hands on, and for which worker.
on_event-arrival :
    (message buf : List ℕ) (s : Server)
    → (set : IsConfigured s)
    → (thread : ℕ) × (thread < set.threads)
      × (on_event (arrival message buf) s
          ≡ some (
            record s { stats = incre_receive_pkts s.stats },
            (thread, message ++ drop (length message) buf) ∷ [],
          ))
unfolding on_event dispatch read_loop
on_event-arrival message buf s set =
    let s' = record s { stats = incre_receive_pkts s.stats } in
    let (thread, lt, e, _) =
      get_thread_index_turn s' set.group set.threads set.group_lem set.threads_lem set.group_pos
        set.group_fits set.threads_pos set.threads_few in
    (thread, lt, would_block_lem (message ∷ []) buf s thread e)

-- A ring in which nothing waits, with an array of the declared kind in its head slot.
pub record IsIdle (r : RingBuffer) : Type 0 where
  pub valid : IsValid r
  pub nothing : contents r ≡ []
  pub slot_size : payload_size + 4 ≤ length (ring_buffer_head r).buf
  pub slot_bytes : IsBytes (ring_buffer_head r).buf

used_none : (r : RingBuffer) → contents r ≡ [] → ring_buffer_used r ≡ 0
used_none r e = sym (length-contents r) ∙ ap length e

-- A packet that is put into such a ring is the next to be taken, and the last.
put-IsIdle :
    (buf : List ℕ) (source : Source) (r : RingBuffer)
    → IsIdle r
    → let r' = put buf source r in
      (1 < ring_buffer_avail r)
      × (0 < ring_buffer_used r')
      × (ring_buffer_tail r' ≡ packet_of buf source r)
      × (contents (ring_buffer_pop r') ≡ [])
put-IsIdle buf source r idle =
    let packet = packet_of buf source r in
    let r' = put buf source r in
    let room : 1 < ring_buffer_avail r = omega (arith, used_none r idle.nothing, used-avail r) in
    let one : contents r' ≡ packet ∷ [] =
      contents-put buf source r idle.valid room ∙ ap (λ l. l ++ (packet ∷ [])) idle.nothing in
    let some_wait : 0 < ring_buffer_used r' = omega (arith, length-contents r', ap length one) in
    let parts : ring_buffer_tail r' ∷ contents (ring_buffer_pop r') ≡ packet ∷ [] =
      sym (pop_refines r' (put-IsValid buf source r idle.valid) some_wait) ∙ one in
    (room, some_wait, cc parts, cc parts)

module _ {R D : Type 0} where
  -- The whole server when a packet was put into a ring.
  abbrev with_packet : ℕ → List ℕ → Source → Whole R D → Whole R D
  with_packet thread buf source w =
      let ring = ring_of w.rings thread in
      record w {
        rings = set w.rings thread (put buf source ring);
        handed = w.handed ++ ((thread, packet_of buf source ring) ∷ []);
      }

  deliver_one :
      (source : Source) (thread : ℕ) (buf : List ℕ) (w : Whole R D)
      → thread < length w.rings
      → 1 < ring_buffer_avail (ring_of w.rings thread)
      → deliver source ((thread, buf) ∷ []) w ≡ some (with_packet thread buf source w)
  unfolding deliver
  deliver_one source thread buf w there room =
      rw (lt→ltb thread (length w.rings) there)
        (rw (lt→ltb 1 (ring_buffer_avail (ring_of w.rings thread)) room) refl)

  epoll_turn_lem :
      (e : Event) (source : Source) (w : Whole R D) (server : Server) (packets : List Handed)
      → on_event e w.server ≡ some (server, packets)
      → epoll_turn e source w ≡ deliver source packets (record w { server = server })
  unfolding epoll_turn
  epoll_turn_lem e source w server packets h = rw h refl

  pub worker_turn_lem :
      (redis : Redis R) (key_table : List ℕ) (thread : ℕ) (delays : Delays) (written : Bool)
      (w : Whole R D)
      → thread < length w.rings
      → 0 < ring_buffer_used (ring_of w.rings thread)
      → let packet = ring_buffer_tail (ring_of w.rings thread) in
        worker_turn redis key_table thread delays written w
        ≡ some (
            worked redis key_table thread packet
              (process_packet redis key_table packet delays written w.server w.store)
              w)
  unfolding worker_turn
  worker_turn_lem redis key_table thread delays written w there waits =
      rw (lt→ltb thread (length w.rings) there)
        (rw (lt→ltb 0 (ring_buffer_used (ring_of w.rings thread)) waits) refl)

-- The reply that a packet asks for, on the connection that it came from.
abbrev pub replies_to : PacketFormat → Source → List Reply
replies_to p source =
    if p.type == request_pkt
    then record {
      efd = source.efd;
      fd = source.fd;
      bytes = serialize_payload (record p { direction = server_to_app });
    }
      ∷ []
    else []

reply_of-if :
    (packet : EpollPacket) (p : PacketFormat) (source : Source)
    → packet.efd ≡ source.efd
    → packet.fd ≡ source.fd
    → reply_of packet (
        if p.type == request_pkt
        then some (serialize_payload (record p { direction = server_to_app }))
        else none)
      ≡ replies_to p source
reply_of-if packet p source e e' = ground arith

packet_of_source :
    (buf : List ℕ) (source : Source) (r : RingBuffer)
    → let packet = packet_of buf source r in (packet.efd ≡ source.efd) × (packet.fd ≡ source.fd)
unfolding packet_of fill_packet
packet_of_source buf source r = (refl, refl)

-- The slot of a packet that arrived.
arrived :
    (message buf : List ℕ) (source : Source) (r : RingBuffer)
    → length message ≡ payload_size
    → (packet_of (message ++ drop (length message) buf) source r).buf
      ≡ message ++ drop payload_size (ring_buffer_head r).buf
unfolding packet_of fill_packet
arrived message buf source r sized =
    ap (λ l. l ++ drop payload_size (ring_buffer_head r).buf)
      (take_sized message (drop (length message) buf) payload_size sized)

module _ {R D : Type 0} (redis : Redis R) (key_table : List ℕ) (p : PacketFormat) (beyond : List ℕ)
    (v : IsPacket p) (long : 4 ≤ length beyond) (bytes : IsBytes beyond) where
  -- What the worker does with the packet, wherever it reads it from.
  processed :
      (packet : EpollPacket) (source : Source) (r : RingBuffer) (delays : Delays) (written : Bool)
      (w : Whole R D)
      → IsIdle r
      → packet.buf ≡ client_message key_table p beyond ++ drop payload_size (ring_buffer_head r).buf
      → (packet.efd ≡ source.efd) × (packet.fd ≡ source.fd)
      → let outcome = process_packet redis key_table packet delays written w.server w.store in
        (w.replies ++ reply_of packet outcome.0 ≡ w.replies ++ replies_to p source)
        × (outcome.2 ≡ process_database redis p w.store)
  processed packet source r delays written w idle e same =
      let behind = drop payload_size (ring_buffer_head r).buf in
      let (reply, store) =
        process_packet_answer redis key_table p beyond behind v long
          (omega (arith, length-drop payload_size (ring_buffer_head r).buf, idle.slot_size)) bytes
          (IsBytes-drop payload_size (ring_buffer_head r).buf idle.slot_bytes) packet delays written
          w.server w.store e in
      (
        ap (λ o. w.replies ++ reply_of packet o) reply
            ∙ ap (λ l. w.replies ++ l) (reply_of-if packet p source same.0 same.1),
        store,
      )

  -- When the message of a packet that the client encrypted arrives alone on a connection and no
  -- worker has a packet waiting, a round of the epoll thread hands it to a worker, and a round of
  -- that worker updates the database for the client's packet, answers a request, and nothing else,
  -- on the same connection with that packet in clear and its direction set to SERVER_TO_APP, and
  -- leaves its ring empty, if both sides have the same key table, the fields of the packet fit, at
  -- least four bytes stand behind the client's array, the rings are valid with arrays of bytes in
  -- their head slots, the group of packets is positive and below 2 ^ 31, and there are 1 to 20
  -- workers, each with a ring.
  pub message_answered :
      (source : Source) (w : Whole R D) (buf : List ℕ) (delays : Delays) (written : Bool)
      → IsConfigured w.server
      → w.server.threads_num ≡ pos (length w.rings)
      → ((i : ℕ) → IsIdle (ring_of w.rings i))
      → (thread : ℕ) × (w1 : Whole R D) × (w2 : Whole R D) × (epoll_turn
            (arrival (client_message key_table p beyond) buf)
            source
            w
          ≡ some w1)
        × (worker_turn redis key_table thread delays written w1 ≡ some w2)
        × (w2.replies ≡ w.replies ++ replies_to p source)
        × (w2.store ≡ process_database redis p w.store)
        × (contents (ring_of w2.rings thread) ≡ [])
  unfolding worked
  message_answered source w buf delays written set same_threads idle =
      let message = client_message key_table p beyond in
      let sized : length message ≡ payload_size =
        length-client_message key_table p beyond beyond v long long bytes bytes in
      let (thread, lt, e) = on_event-arrival message buf w.server set in
      let there : thread < length w.rings = ground (arith, sym set.threads_lem ∙ same_threads) in
      let buf' = message ++ drop (length message) buf in
      let ring = ring_of w.rings thread in
      let (room, waits, tail, empty) = put-IsIdle buf' source ring (idle thread) in
      let w0 = record w {
        server = record w.server { stats = incre_receive_pkts w.server.stats };
      } in
      let w1 = with_packet thread buf' source w0 in
      let here : ring_of w1.rings thread ≡ put buf' source ring =
        ring_of-set_self w.rings thread (put buf' source ring) there in
      let there' : thread < length w1.rings =
        omega (arith, length-set w.rings thread (put buf' source ring), there) in
      let packet = ring_buffer_tail (ring_of w1.rings thread) in
      let same : packet ≡ packet_of buf' source ring = ap ring_buffer_tail here ∙ tail in
      let outcome = process_packet redis key_table packet delays written w1.server w1.store in
      let (replies, store) =
        processed packet source ring delays written w1 (idle thread)
          (ap (λ (q : EpollPacket). q.buf) same ∙ arrived message buf source ring sized)
          (rw same (packet_of_source buf' source ring)) in
      (
        thread,
        w1,
        worked redis key_table thread packet outcome w1,
        epoll_turn_lem (arrival message buf) source w _ _ e
            ∙ deliver_one source thread buf' w0 there room,
        worker_turn_lem redis key_table thread delays written w1 there' (rw here waits),
        replies,
        store,
        rw (ring_of-set_self w1.rings thread (ring_buffer_pop (ring_of w1.rings thread)) there')
            (rw here empty),
      )
