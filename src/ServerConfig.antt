-- ===== src/ServerConfig.antt =====
-- server/server_config.c: the settings, read once at the start and again every ten seconds.
-- libconfig is a parameter: what `config_read_file` and the lookups deliver is a `ConfigFile`.
-- A `double` is of an arbitrary type `D`, with the test `!=` that the code makes.
pub mod Laws
use da_bao.Base.{
  ℕ, ◌+◌, Bool, true, false, not, List, [], ◌∷◌, length, Option, some, none, replicate, take, drop,
  ◌++◌, leb, if◌then◌else◌,
}
use da_bao.Base.Int.{ℤ, pos, ltb_ℤ, ◌-ℤ◌}
use mathlib.Core.Option

-- `MAXPORTS`, `MIN_THREADS`, `MAX_THREADS`, `IP_LEN`
abbrev pub max_ports : ℕ
max_ports = 1

abbrev pub min_threads : ℕ
min_threads = 1

abbrev pub max_threads : ℕ
max_threads = 20

abbrev pub ip_len : ℕ
ip_len = 20

-- The settings in a file that libconfig could parse; `none` is a lookup that fails.
pub record ConfigFile (D : Type 0) : Type 0 where
  pub ports : List ℤ
  pub delay_in_ms : Option D
  pub threads_num : Option ℤ
  pub packets_group : Option ℤ
  pub device : Option (List ℕ)
  pub database_ip : Option (List ℕ)
  pub database_port : Option ℤ

-- What the uninitialised locals of `getConfigs` hold, if their lookups fail.
pub record Locals (D : Type 0) : Type 0 where
  pub delay_in_ms : D
  pub threads_num : ℤ
  pub packets_group : ℤ

-- `struct configs`, without `redis_concurrency`, which nothing reads or writes.
pub record Configs (D : Type 0) : Type 0 where
  pub ports : List ℤ
  pub ports_count : ℕ
  pub delay_in_ms : D
  pub threads_num : ℤ
  pub packets_group : ℤ
  pub dev : List ℕ
  pub database_ip : List ℕ
  pub database_port : ℤ

-- `fault` is a `strcpy` from an uninitialised pointer, or past the end of its array.
pub data Outcome (D : Type 0) : Type 0 where
  success failure : Configs D → Outcome D
  fault : Outcome D

unfoldable pub is_valid_thread_num : ℤ → Bool
is_valid_thread_num threads_num =
    if ltb_ℤ threads_num (pos min_threads)
    then false
    else if ltb_ℤ (pos max_threads) threads_num
    then false
    else true

-- `strcpy` into an array of `size` bytes; a string is kept without its final zero.
abbrev pub copy_string : ℕ → Option (List ℕ) → Option (List ℕ)
copy_string size none = none
copy_string size (some s) = if leb size (length s) then none else some s

module _ {D : Type 0} where
  -- `zero` is 0.0; `conf` comes from `malloc`, and its other fields keep what they hold.
  unfoldable pub init_configs : D → Configs D → Configs D
  init_configs zero_double conf = record conf {
    ports = replicate max_ports (pos 0);
    ports_count = 0;
    delay_in_ms = zero_double;
    threads_num = pos 1;
    packets_group = pos 1;
  }

  -- What `getConfigs` stores before it copies the two strings.
  unfoldable pub read_numbers : Locals D → ConfigFile D → Configs D → Configs D
  unfolding is_valid_thread_num
  read_numbers locals cfg conf =
      let threads_num = Option.get_or cfg.threads_num locals.threads_num in
      let packets_group = Option.get_or cfg.packets_group locals.packets_group in
      record conf {
        ports = take max_ports cfg.ports ++ drop (length (take max_ports cfg.ports)) conf.ports;
        ports_count = conf.ports_count + length (take max_ports cfg.ports);
        delay_in_ms = Option.get_or cfg.delay_in_ms locals.delay_in_ms;
        threads_num = if is_valid_thread_num threads_num then threads_num else pos min_threads;
        packets_group = if ltb_ℤ (pos 0) packets_group then packets_group else pos 1;
      }

  -- `none` for the file is a `config_read_file` that fails.
  unfoldable pub get_configs : Locals D → Option (ConfigFile D) → Configs D → Outcome D
  unfolding read_numbers
  get_configs locals none conf = failure conf
  get_configs locals (some cfg) conf = elim (copy_string 20 cfg.device) [
    | none ↦ fault
    | some dev ↦ elim (copy_string ip_len cfg.database_ip) [
      | none ↦ fault
      | some database_ip ↦ success (record (read_numbers locals cfg conf) {
        dev = dev;
        database_ip = database_ip;
        database_port = Option.get_or cfg.database_port conf.database_port;
      })
    ]
  ]

  module _ (differs : D → D → Bool) where
    -- Both settings are stored if they differ from what `conf` holds.
    unfoldable pub update_epoch : Option (ConfigFile D) → Configs D → Outcome D
    update_epoch none conf = failure conf
    update_epoch (some cfg) conf = elim cfg.delay_in_ms [
      | none ↦ failure conf
      | some delay ↦
          let conf' =
            if differs delay conf.delay_in_ms then record conf { delay_in_ms = delay } else conf in
          elim cfg.packets_group [
            | none ↦ failure conf'
            | some packets_group ↦ success (record conf' { packets_group = packets_group })
          ]
    ]
