-- ===== src/ClientConfig/Laws.antt =====
-- What the settings of the client are after they were read.
use da_bao.Base.{ℕ, suc, ◌+◌, ◌*◌, ◌^◌, ◌≤◌, ◌<◌, ◌≡◌, refl, arith, false, some, none}
use da_bao.Base.Int.{ℤ, pos, negsuc, to_u32, ◌*ℤ◌, pos_part}
use da_bao.Epoll.{Timeval, Table}
use da_bao.Epoll.Times.{int_of, virtual_time_of, set_virtual_event_time}
use mathlib.Core.Option
use da_bao.ClientConfig.{
  Settings, EpollConfigs, Doubles, base_conns, scale, valid_request_rate, with_interval,
  get_configs, update_connections_setting, update_epoch, incre, decre,
}

-- What IEEE 754 says of the operations, where `AtMost x n d` stands for `0 ≤ x ≤ n / d`: the
-- quotient of two `int`s and the product with one exceed the exact value by less than one part in
-- 2 ^ 52, and the cut to an `int` leaves nothing of a number below one.
pub record IsRounded {D : Type 0} (doubles : Doubles D) (AtMost : D → ℕ → ℕ → Type 0) : Type 0 where
  pub quotient :
      (a b : ℕ)
      → a < 2 ^ 31
      → b < 2 ^ 31
      → 0 < b
      → AtMost
          (doubles.divide (doubles.of_int (pos a)) (doubles.of_int (pos b)))
          (a * (2 ^ 52 + 1))
          (b * 2 ^ 52)
  pub product :
      (x : D) (n d b : ℕ)
      → b < 2 ^ 31
      → n ≤ d * 2 ^ 31
      → AtMost x n d
      → AtMost (doubles.multiply x (doubles.of_int (pos b))) (n * b * (2 ^ 52 + 1)) (d * 2 ^ 52)
  pub truncated : (x : D) (n d : ℕ) → AtMost x n d → n < d → doubles.to_int x ≡ pos 0

module _ {D : Type 0} (doubles : Doubles D) where
  -- What the settings have after an update that reads the whole file.
  pub record Updated (epoch connections kill : ℤ) (conf conf' : EpollConfigs D) (flag : ℕ)
      : Type 0 where
    pub epoch_read : conf'.epoch ≡ epoch
    pub connections_read : to_u32 conf'.connections ≡ to_u32 connections
    pub kill_read : conf'.kill ≡ kill
    pub incremented : to_u32 conf.connections < to_u32 conf'.connections → flag ≡ incre
    pub decremented : to_u32 conf'.connections < to_u32 conf.connections → flag ≡ decre
    pub unchanged : to_u32 conf'.connections ≡ to_u32 conf.connections → flag ≡ 0

  -- An update from a file that has every setting stores the epoch, the connections and the order to
  -- stop, and its flag tells whether the connections, as unsigned int, became more, fewer or
  -- neither.
  pub update_epoch-Updated :
      (cfg : Settings D) (conf : EpollConfigs D) (epoch burst connections kill : ℤ) (rate : D)
      → cfg.epoch ≡ some epoch
      → cfg.burst ≡ some burst
      → cfg.connections ≡ some connections
      → cfg.request_rate ≡ some rate
      → cfg.kill ≡ some kill
      → Updated epoch connections kill conf
          (update_epoch doubles (some cfg) conf).1
          (update_epoch doubles (some cfg) conf).0
  unfolding update_epoch update_connections_setting with_interval
  update_epoch-Updated cfg conf epoch burst connections kill rate e1 e2 e3 e4 e5 = ground arith

  -- The request rate that is read is neither below zero nor above one, if the tests of the constants
  -- say so.
  pub get_configs_rate :
      (local : D) (cfg : Settings D) (conf : EpollConfigs D)
      → doubles.above_one doubles.one_double ≡ false
      → doubles.below_zero doubles.one_double ≡ false
      → doubles.above_one doubles.zero_double ≡ false
      → doubles.below_zero doubles.zero_double ≡ false
      → let rate = (get_configs doubles local (some cfg) conf).1.request_rate in
        (doubles.above_one rate ≡ false) × (doubles.below_zero rate ≡ false)
  unfolding get_configs valid_request_rate
  get_configs_rate local cfg conf h1 h2 h3 h4 = ground arith

  zero_interval : (x : ℤ) → int_of (x *ℤ pos 0) ≡ pos 0
  unfolding ◌*ℤ◌
  zero_interval (pos a) = ground arith
  zero_interval (negsuc a) = ground arith

  interval_none :
      (conf : EpollConfigs D) (connections : ℕ)
      → conf.connections ≡ pos (suc connections)
      → scale doubles conf.connections conf.burst ≡ pos 0
      → (with_interval doubles conf).interval ≡ pos 0
  unfolding with_interval
  interval_none conf connections e none_left = grind (arith, zero_interval)

  division_by_none :
      (virtual_delay : ℤ → ℤ → ℤ) (fd : ℕ) (total : ℤ) (time : Timeval) (epoch interval : ℤ)
      (t : Table)
      → interval ≡ pos 0
      → set_virtual_event_time virtual_delay fd total time epoch (pos_part interval) t ≡ none
  unfolding set_virtual_event_time virtual_time_of
  division_by_none virtual_delay fd total time epoch interval t e = rw e (ground arith)

  module _ (AtMost : D → ℕ → ℕ → Type 0) (rounded : IsRounded doubles AtMost) where
    -- A product below `BASE_CONNS` is below one when it is scaled, whatever the roundings are.
    scale_none :
        (connections burst : ℕ)
        → connections < 2 ^ 31
        → burst < 2 ^ 31
        → connections * burst < base_conns
        → scale doubles (pos connections) (pos burst) ≡ pos 0
    unfolding scale
    scale_none connections burst hc hb small =
        rounded.truncated _ _ _
          (rounded.product _ _ _ burst hb (omega (arith, hc))
            (rounded.quotient connections base_conns hc (omega arith) (omega arith)))
          (omega (arith, small))

    -- If the file has a positive number of connections and a burst whose product is below
    -- BASE_CONNS, both of them below 2 ^ 31 and the burst not negative, and the operations on
    -- double round as IEEE 754 says, the interval that is read is 0, and with it no connection can
    -- be given its first time, which is a division by zero.
    pub no_interval :
        (virtual_delay : ℤ → ℤ → ℤ) (local : D) (cfg : Settings D) (conf : EpollConfigs D)
        (connections burst fd : ℕ) (total : ℤ) (time : Timeval) (epoch : ℤ) (t : Table)
        → cfg.connections ≡ some (pos (suc connections))
        → cfg.burst ≡ some (pos burst)
        → suc connections < 2 ^ 31
        → burst < 2 ^ 31
        → suc connections * burst < base_conns
        → let interval = (get_configs doubles local (some cfg) conf).1.interval in
          (interval ≡ pos 0)
          × (set_virtual_event_time virtual_delay fd total time epoch (pos_part interval) t ≡ none)
    unfolding get_configs
    no_interval virtual_delay local cfg conf connections burst fd total time epoch t e1 e2 hc hb
          small =
        let read = record conf {
          epoch = Option.get_or cfg.epoch conf.epoch;
          connections = Option.get_or cfg.connections conf.connections;
          burst = Option.get_or cfg.burst conf.burst;
        } in
        let zero_read : (with_interval doubles read).interval ≡ pos 0 =
          interval_none read connections (rw e1 refl)
            (rw (e1, e2) (scale_none (suc connections) burst hc hb small)) in
        (
          zero_read,
          division_by_none virtual_delay fd total time epoch (with_interval doubles read).interval t
              zero_read,
        )
