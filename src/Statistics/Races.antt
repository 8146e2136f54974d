-- ===== src/Statistics/Races.antt =====
-- A counter of server/statistics.c that several workers count up. The code takes no lock, so that
-- `stats.send_counter_sec ++` is a read and a write, between which other threads run.
pub mod Laws
use da_bao.Base.{ℕ, zero, suc, ◌+◌, ◌<◌, ◌≡◌, List, [], ◌∷◌, get_or, set, length, u32}

-- What a worker has in hand: nothing, or the number that it has read.
pub data Phase : Type 0 where
  outside : Phase
  loaded : (value : ℕ) → Phase

-- The counter, the workers, and how many packets they have counted so far.
pub record Counting : Type 0 where
  pub counter : ℕ
  pub workers : List Phase
  pub counted : ℕ

abbrev pub phase_of : Counting → ℕ → Phase
phase_of s i = get_or s.workers i outside

-- The two halves of `increSendPkts` for one counter, by worker `i`.
pub data Move (s : Counting) : Counting → Type 0 where
  load :
      (i : ℕ)
      → i < length s.workers
      → phase_of s i ≡ outside
      → Move s (record s { workers = set s.workers i (loaded s.counter) })
  store :
      (i value : ℕ)
      → i < length s.workers
      → phase_of s i ≡ loaded value
      → Move s (record s {
        counter = u32 (value + 1);
        workers = set s.workers i outside;
        counted = s.counted + 1;
      })

pub data Moves : Counting → Counting → Type 0 where
  stay : {s : Counting} → Moves s s
  and_then : {s t u : Counting} → Move s t → Moves t u → Moves s u
