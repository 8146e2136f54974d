-- ===== src/ServerConfig/Laws.antt =====
-- The settings of a start are in range; those of an update need not be.
use da_bao.Base.{◌≡◌, arith, Option, some, none}
use da_bao.Base.Int.{pos, ◌≤ℤ◌}
use da_bao.ServerConfig.{ConfigFile, Locals, Configs, success}
use da_bao.ServerConfig.{is_valid_thread_num, read_numbers, get_configs}
use da_bao.ServerConfig.{min_threads, max_threads}

-- What `initThreads` and `getThreadIndex` rely on.
pub record IsUsable {D : Type 0} (conf : Configs D) : Type 0 where
  pub threads_low : pos min_threads ≤ℤ conf.threads_num
  pub threads_high : conf.threads_num ≤ℤ pos max_threads
  pub group_low : pos 1 ≤ℤ conf.packets_group

module _ {D : Type 0} where
  -- Whatever the file holds, settings that are read with success have 1 to 20 threads and a
  -- positive group of packets.
  pub get_configs-IsUsable :
      (locals : Locals D) (file : Option (ConfigFile D)) (conf : Configs D) {conf' : Configs D}
      → get_configs locals file conf ≡ success conf'
      → IsUsable conf'
  unfolding get_configs read_numbers is_valid_thread_num
  get_configs-IsUsable locals none conf h = cc
  get_configs-IsUsable locals (some cfg) conf {conf'} h = ground arith
