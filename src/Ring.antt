-- ===== src/Ring.antt =====
-- server/ring.h: the circular array through which the epoll thread hands packets to a worker.
-- Its mutex and condition variables are modelled with the threads that use them, in `Handoff`.
pub mod Laws
use da_bao.Base.{ℕ, ◌+◌, ◌-◌, ◌^◌, ◌<◌, ◌≡◌, List, [], get_or, set, replicate, length, u32, bit_and}

-- `RING_SIZE` and `BUFSIZE`
abbrev pub ring_size : ℕ
ring_size = 4096

abbrev pub buf_size : ℕ
buf_size = 200

-- `struct epoll_packet`; `recv` and `done` are times in microseconds.
pub record EpollPacket : Type 0 where
  pub buf : List ℕ
  pub fd : ℕ
  pub efd : ℕ
  pub recv : ℕ
  pub done : ℕ

-- A slot as `calloc` leaves it.
abbrev pub zero_packet : EpollPacket
zero_packet = record { buf = replicate buf_size 0; fd = 0; efd = 0; recv = 0; done = 0 }

pub record RingBuffer : Type 0 where
  pub head : ℕ
  pub tail : ℕ
  pub buf : List EpollPacket

-- What `ring_buffer_tail` points to, and what `ring_buffer_head` points to.
unfoldable pub ring_buffer_tail : RingBuffer → EpollPacket
ring_buffer_tail bufmgr = get_or bufmgr.buf bufmgr.tail zero_packet

unfoldable pub ring_buffer_head : RingBuffer → EpollPacket
ring_buffer_head bufmgr = get_or bufmgr.buf bufmgr.head zero_packet

-- Stores through the pointer that `ring_buffer_head` returns.
unfoldable pub write_head : RingBuffer → EpollPacket → RingBuffer
write_head bufmgr packet = record bufmgr { buf = set bufmgr.buf bufmgr.head packet }

unfoldable pub ring_buffer_push : RingBuffer → RingBuffer
ring_buffer_push bufmgr = record bufmgr { head = bit_and (u32 (bufmgr.head + 1)) (ring_size - 1) }

unfoldable pub ring_buffer_pop : RingBuffer → RingBuffer
ring_buffer_pop bufmgr = record bufmgr { tail = bit_and (u32 (bufmgr.tail + 1)) (ring_size - 1) }

-- The difference of two `unsigned int` wraps.
unfoldable pub ring_buffer_used : RingBuffer → ℕ
ring_buffer_used bufmgr = bit_and (u32 (bufmgr.head + 2 ^ 32 - bufmgr.tail)) (ring_size - 1)

unfoldable pub ring_buffer_avail : RingBuffer → ℕ
unfolding ring_buffer_used
ring_buffer_avail bufmgr = ring_size - ring_buffer_used bufmgr

unfoldable pub ring_buffer_init : RingBuffer
ring_buffer_init = record { head = 0; tail = 0; buf = replicate ring_size zero_packet }

unfoldable pub reset_packet : EpollPacket → EpollPacket
reset_packet p = record p { buf = replicate buf_size 0; fd = 0 }
