-- ===== src/Utils.antt =====
-- client/utils.c, and the tables of client/payload.c and client/epoll.c that it shuffles.
-- `rand` is a parameter: the numbers that its successive calls return, and `RAND_MAX`.
pub mod Laws
use da_bao.Base.{
  ℕ, zero, suc, ◌+◌, ◌-◌, ◌/◌, List, [], ◌∷◌, length, get_or, set, ltb, if◌then◌else◌,
}

-- The three assignments of a round.
unfoldable pub swap : List ℕ → ℕ → ℕ → List ℕ
swap array i j = let tmp = get_or array j 0 in set (set array j (get_or array i 0)) i tmp

-- `index_start`, `index_start + 1`, …: `n` entries.
abbrev pub count_up : ℕ → ℕ → List ℕ
count_up index_start zero = []
count_up index_start (suc n) = index_start ∷ count_up (suc index_start) n

module _ (rand : ℕ → ℕ) (rand_max : ℕ) where
  -- `j` of round `i`, for an array of `size`.
  unfoldable pub draw : ℕ → ℕ → ℕ
  draw size i = i + rand i / (rand_max / (size - i) + 1)

  -- The loop with `n` rounds left, of which the next is round `i`.
  pub shuffer_loop : ℕ → ℕ → ℕ → List ℕ → List ℕ
  unfolding draw swap
  shuffer_loop size zero i array = array
  shuffer_loop size (suc n) i array = shuffer_loop size n (suc i) (swap array i (draw size i))

  unfoldable pub shuffer : List ℕ → ℕ → List ℕ
  unfolding shuffer_loop
  shuffer array size = if ltb 1 size then shuffer_loop size size 0 array else array

  -- `map` after `initIDMap`, for positive sizes, as the code asserts.
  unfoldable pub init_id_map : ℕ → ℕ → List ℕ
  unfolding shuffer
  init_id_map index_start index_end =
      let map_size = index_end - index_start in shuffer (count_up index_start map_size) map_size
